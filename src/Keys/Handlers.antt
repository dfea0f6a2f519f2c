-- ===== src/Keys/Handlers.antt =====
-- The handlers of web/app/settings/keys/page.tsx that change tokens: create, rotate, revoke, and the
-- lists of addresses and paths that a token is restricted to.
use clawhum.Prelude.{
  ℕ, Bool, true, false, not, ◌||◌, Option, none, some, List, [], ◌∷◌, ◌++◌, map, if◌then◌else◌,
  ◌==◌, filter, is_empty, ◌≡◌, arith,
}
use clawhum.Prelude.Text.{Text, codes, trim, is_space, join}
use clawhum.Keys.{
  KeyRow, CreatedKey, KeyPolicy, ListState, loading, ready, error, Ttl, sent_days, ttl_of_policy,
}
use clawhum.Keys.Panel.{PanelAnswer, threw, refused, replied, message_or_status}

-- A restriction under edit: the token, the draft, the token that is being saved, and the error.
pub record ListEditor : Type 0 where
  pub target : Option Text
  pub draft : Text
  pub saving : Option Text
  pub err : Option Text

pub record KeysPage : Type 0 where
  pub state : ListState
  pub name : Text
  pub ttl_days : Ttl
  pub policy : Option KeyPolicy
  pub selected_scopes : List Text
  pub creating : Bool
  pub create_error : Option Text
  pub just_created : Option CreatedKey
  pub revoking : Option Text
  pub confirm_id : Option Text
  pub rotate_id : Option Text
  pub rotating : Option Text
  pub rotate_error : Option Text
  pub addresses : ListEditor

-- The body of the request of `create`.
pub record CreateRequest : Type 0 where
  pub name : Text
  pub expires_in_days : ℕ
  pub scopes : List Text

-- `refresh` up to its request, and from the answer on; a status that is not ok carries its text.
unfoldable pub refresh_begin : KeysPage → KeysPage
refresh_begin p = record p { state = loading }

unfoldable pub refresh_end : PanelAnswer (List KeyRow) → KeysPage → KeysPage
refresh_end (threw m) p = record p { state = error 0 m }
refresh_end (refused status msg) p = record p { state = error status msg }
refresh_end (replied rows) p = record p { state = ready rows }

-- A policy arrives.
unfoldable pub set_policy : KeyPolicy → KeysPage → KeysPage
unfolding ttl_of_policy
set_policy k p = record p { policy = some k; ttl_days = ttl_of_policy k p.ttl_days }

unfoldable pub create_begin : KeysPage → Option (KeysPage × CreateRequest)
unfolding sent_days
create_begin p =
    if is_empty (trim p.name) || p.creating
    then none
    else some (
      record p { creating = true; create_error = none },
      record {
        name = trim p.name;
        expires_in_days = sent_days p.ttl_days;
        scopes = p.selected_scopes;
      },
    )

module _ (number_text : ℕ → Text) where
  -- `create` from the answer on, up to the request of `refresh` where it succeeds.
  unfoldable pub create_end : PanelAnswer CreatedKey → KeysPage → KeysPage
  unfolding refresh_begin
  create_end (threw m) p = record p { create_error = some m; creating = false }
  create_end (refused status msg) p = record p {
    create_error = some (message_or_status number_text status msg);
    creating = false;
  }
  create_end (replied k) p =
      refresh_begin (record p { just_created = some k; name = []; selected_scopes = [] })

  unfoldable pub rotate_end : PanelAnswer CreatedKey → KeysPage → KeysPage
  unfolding refresh_begin
  rotate_end (threw m) p = record p { rotate_error = some m; rotating = none }
  rotate_end (refused status msg) p = record p {
    rotate_error = some (message_or_status number_text status msg);
    rotating = none;
  }
  rotate_end (replied k) p = refresh_begin (record p { just_created = some k; rotate_id = none })

  -- `saveIpAllowlist` and `savePathAllowlist` from the answer on.
  unfoldable pub save_list_end : PanelAnswer {0} Unit → ListEditor → ListEditor
  save_list_end (threw m) e = record e { err = some m; saving = none }
  save_list_end (refused status msg) e = record e {
    err = some (message_or_status number_text status msg);
    saving = none;
  }
  save_list_end (replied _) e = record e { target = none; draft = [] }

-- The end of `create` and of `rotate`, behind the answer to `refresh`.
unfoldable pub create_done : PanelAnswer (List KeyRow) → KeysPage → KeysPage
unfolding refresh_end
create_done answer p = record (refresh_end answer p) { creating = false }

abbrev pub is_none {ℓ} : {A : Type ℓ} → Option A → Bool
is_none none = true
is_none (some a) = false

-- `rotate` up to its request; the grace period that it sends is left out.
unfoldable pub rotate_begin : Text → KeysPage → Option KeysPage
rotate_begin id p =
    if not (is_none p.rotating)
    then none
    else some (record p { rotating = some id; rotate_error = none })

unfoldable pub rotate_done : PanelAnswer (List KeyRow) → KeysPage → KeysPage
unfolding refresh_end
rotate_done answer p = record (refresh_end answer p) { rotating = none }

-- `revoke`: a refusal and a request that throws leave the question open, with no message.
unfoldable pub revoke_begin : Text → KeysPage → KeysPage
revoke_begin id p = record p { revoking = some id }

unfoldable pub revoke_end : PanelAnswer {0} Unit → KeysPage → KeysPage
unfolding refresh_begin
revoke_end (threw m) p = record p { revoking = none }
revoke_end (refused status msg) p = record p { revoking = none }
revoke_end (replied _) p = refresh_begin (record p { confirm_id = none })

unfoldable pub revoke_done : PanelAnswer (List KeyRow) → KeysPage → KeysPage
unfolding refresh_end
revoke_done answer p = record (refresh_end answer p) { revoking = none }

-- A part of the draft ends at a comma or a space; the `split` also gives the empty parts at its ends,
-- and the filter drops them, as it drops those between the separators of a run.
abbrev pub is_separator : ℕ → Bool
is_separator c = is_space c || c == b','

unfoldable pub split_parts : Text → Text → List Text
split_parts cur [] = cur ∷ []
split_parts cur (c ∷ s) =
    let rest = split_parts (if is_separator c then [] else cur ++ c ∷ []) s in
    if is_separator c then cur ∷ rest else rest

unfoldable pub parse_list : Text → List Text
unfolding split_parts
parse_list draft = filter (λ s. not (is_empty s)) (map trim (split_parts [] draft))

-- The click that opens the editor, with the token's list.
unfoldable pub edit_list : Text → List Text → ListEditor → ListEditor
unfolding join
edit_list id entries e = record e {
  target = some id;
  draft = join (codes "\n") entries;
  err = none;
}

-- `saveIpAllowlist` up to its request, and the entries that it sends.
unfoldable pub save_list_begin : Text → ListEditor → Option (ListEditor × List Text)
unfolding parse_list
save_list_begin id e =
    if not (is_none e.saving)
    then none
    else some (record e { saving = some id; err = none }, parse_list e.draft)

unfoldable pub save_list_done : ListEditor → ListEditor
save_list_done e = record e { saving = none }

abbrev pub created_key : PanelAnswer CreatedKey → Option CreatedKey
created_key (threw m) = none
created_key (refused status msg) = none
created_key (replied k) = some k

abbrev pub list_state : PanelAnswer (List KeyRow) → ListState
list_state (threw m) = error 0 m
list_state (refused status msg) = error status msg
list_state (replied rows) = ready rows

-- Once `create` has sent its request, a second submit sends none until it ends; and while nothing else
-- changes the page, it ends with the page idle again. If the server created the token, its secret
-- is shown, the form is empty and the list is as fetched; if not, the form and the list are as they
-- were and there is an error.
pub create-outcome :
    (number_text : ℕ → Text) (p p1 : KeysPage) (r : CreateRequest) (answer : PanelAnswer CreatedKey)
    → (listed : PanelAnswer (List KeyRow)) → create_begin p ≡ some (p1, r)
    → let p2 = create_end number_text answer p1 in
      let ok = not (is_none (created_key answer)) in
      let p3 = if ok then create_done listed p2 else p2 in
      (create_begin p1 ≡ none)
      × (r.name ≡ trim p.name)
      × (p3.creating ≡ false)
      × (p3.just_created ≡ (if ok then created_key answer else p.just_created))
      × (p3.name ≡ (if ok then [] else p.name))
      × (p3.selected_scopes ≡ (if ok then [] else p.selected_scopes))
      × (p3.state ≡ (if ok then list_state listed else p.state))
      × (is_none p3.create_error ≡ ok)
unfolding create_begin create_end create_done refresh_end refresh_begin
create-outcome number_text p p1 r (threw m) listed b = ground (arith, b)
create-outcome number_text p p1 r (refused status msg) listed b = ground (arith, b)
create-outcome number_text p p1 r (replied k) (threw m) b = ground (arith, b)
create-outcome number_text p p1 r (replied k) (refused status msg) b = ground (arith, b)
create-outcome number_text p p1 r (replied k) (replied rows) b = ground (arith, b)
