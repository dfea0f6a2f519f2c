-- ===== src/Tests/Keys.antt =====
-- The token page of web/app/settings/keys/page.tsx on concrete inputs.
use clawhum.Prelude.{ℕ, ◌+◌, true, false, none, some, List, [], ◌∷◌, ◌≡◌, refl, All}
use clawhum.Prelude.Text.{Text, codes, text_eq, trim, trim_start, trim_end, is_space}
use clawhum.Keys.{KeyPolicy, ready, days, sent_days}
use clawhum.Keys.Panel.{
  Panel, PanelAnswer, threw, refused, replied, Use, start, clicked, answered, open_begin, open_end,
  IsFaithful, Use-IsFaithful,
}
use clawhum.Keys.Handlers.{
  ListEditor, KeysPage, CreateRequest, create_begin, create_end, is_none, create-outcome,
  parse_list, edit_list, save_list_begin,
}
use clawhum.Keys.Entries.{IsEntry, save_list-edit_list}

abbrev number_text : ℕ → Text
number_text n = (b'0' + n) ∷ []

abbrev policy : KeyPolicy
policy = record {
  max_ttl_days = 60;
  default_ttl_days = 0;
  available_scopes = [];
  allowed_scopes = [];
}

-- The server answers with the token's own id.
abbrev server : Text → PanelAnswer Text
server id = replied id

abbrev open_a : Panel Text
open_a = record { opened = some (codes "a"); shown = none; err = none; loading = some (codes "a") }

abbrev shows_a : Panel Text
shows_a = record { opened = some (codes "a"); shown = some (codes "a"); err = none; loading = none }

shows_a-Use : Use number_text [] server shows_a none
unfolding open_begin open_end
shows_a-Use = answered (codes "a") (clicked (codes "a") start)

Use-IsFaithful_example : IsFaithful server shows_a none
Use-IsFaithful_example = Use-IsFaithful number_text [] server shows_a none shows_a-Use

-- With a click while an answer is awaited, the answer for "a" is shown under "b".
overtaken :
    open_end number_text []
      (server (codes "a"))
      (open_end number_text [] (server (codes "b")) (open_begin (codes "b") open_a).0)
    ≡ record { opened = some (codes "b"); shown = some (codes "a"); err = none; loading = none }
unfolding open_begin open_end text_eq
overtaken = refl

abbrev editor : ListEditor
editor = record { target = none; draft = []; saving = none; err = none }

abbrev cidrs : List Text
cidrs = codes "10.0.0.0/8" ∷ codes "::1" ∷ []

cidrs-IsEntry : All IsEntry cidrs
unfolding is_space
cidrs-IsEntry = ((refl, refl), ((refl, refl), tt))

save_list-edit_list_example :
    All IsEntry (parse_list (codes "a, b"))
    × (save_list_begin (codes "k") (edit_list (codes "k") cidrs editor)
        ≡ some (
          record (edit_list (codes "k") cidrs editor) { saving = some (codes "k"); err = none },
          cidrs,
        ))
save_list-edit_list_example =
    save_list-edit_list (codes "k") (codes "a, b") cidrs editor cidrs-IsEntry refl

-- A path prefix may have a comma: such an entry is sent as two.
prefix_split :
    save_list_begin (codes "k") (edit_list (codes "k") (codes "/a,/b" ∷ []) editor)
    ≡ some (
      record (edit_list (codes "k") (codes "/a,/b" ∷ []) editor) {
        saving = some (codes "k");
        err = none;
      },
      codes "/a" ∷ codes "/b" ∷ [],
    )
unfolding save_list_begin edit_list parse_list trim trim_start trim_end is_space
prefix_split = refl

abbrev page : KeysPage
page = record {
  state = ready [];
  name = codes "ci";
  ttl_days = days 90;
  policy = some policy;
  selected_scopes = [];
  creating = false;
  create_error = none;
  just_created = none;
  revoking = none;
  confirm_id = none;
  rotate_id = none;
  rotating = none;
  rotate_error = none;
  addresses = editor;
}

abbrev waiting : KeysPage
waiting = record page { creating = true }

abbrev request : CreateRequest
request = record { name = codes "ci"; expires_in_days = 90; scopes = [] }

begins : create_begin page ≡ some (waiting, request)
unfolding create_begin sent_days trim trim_start trim_end is_space
begins = refl

create-outcome_example :
    let p2 = create_end number_text (refused 403 (codes "no")) waiting in
    (create_begin waiting ≡ none)
    × (codes "ci" ≡ trim (codes "ci"))
    × (p2.creating ≡ false)
    × (p2.just_created ≡ none)
    × (p2.name ≡ codes "ci")
    × (p2.selected_scopes ≡ [])
    × (p2.state ≡ ready [])
    × (is_none p2.create_error ≡ false)
create-outcome_example =
    create-outcome number_text page waiting request (refused 403 (codes "no")) (threw []) begins
