-- ===== src/SavedViews.antt =====
-- web/components/SavedViews.tsx: the saved filters of the history page.
-- `Panel` holds the component's state. A handler is its whole run: it takes the server's replies to its
-- calls in their order, and `busy` is true while it waits for them. `number_text` is `String`
-- of a number.
pub mod Active
use clawhum.Prelude.{
  ℕ, Bool, true, false, not, ◌&&◌, Option, none, some, List, [], ◌∷◌, ◌++◌, if◌then◌else◌, ◌==◌,
  find, is_empty, or_else, bool_eq,
}
use clawhum.Prelude.Text.{Text, codes, text_eq, trim, lower, join}

pub data SortKey : Type 0 where
  recent oldest name results top_score : SortKey

pub record ViewFilters : Type 0 where
  pub q : Text
  pub tag : Text
  pub sort : SortKey
  pub starred : Bool

pub record ViewItem : Type 0 where
  pub id : Text
  pub name : Text
  pub filters : ViewFilters
  pub created_at : ℕ
  pub updated_at : ℕ

unfoldable pub same_sort : SortKey → SortKey → Bool
same_sort recent recent = true
same_sort oldest oldest = true
same_sort name name = true
same_sort results results = true
same_sort top_score top_score = true
same_sort _ _ = false

unfoldable pub filters_equal : ViewFilters → ViewFilters → Bool
filters_equal a b =
    text_eq (trim a.q) (trim b.q)
    && text_eq (lower (trim a.tag)) (lower (trim b.tag))
    && same_sort a.sort b.sort
    && bool_eq a.starred b.starred

unfoldable pub filters_are_default : ViewFilters → Bool
filters_are_default f =
    is_empty (trim f.q) && is_empty (trim f.tag) && same_sort f.sort recent && not f.starred

-- `f.sort.replace("_", " ")`
unfoldable pub sort_text : SortKey → Text
sort_text recent = codes "recent"
sort_text oldest = codes "oldest"
sort_text name = codes "name"
sort_text results = codes "results"
sort_text top_score = codes "top score"

abbrev pub bit_if : Bool → Text → List Text
bit_if b s = if b then s ∷ [] else []

unfoldable pub summarize : ViewFilters → Text
unfolding sort_text same_sort trim join
summarize f =
    let bits =
      bit_if (not (is_empty (trim f.q))) (b'"' ∷ (trim f.q ++ b'"' ∷ []))
      ++ (bit_if (not (is_empty (trim f.tag))) (b'#' ∷ trim f.tag)
          ++ (bit_if f.starred (codes "starred")
              ++ bit_if (not (same_sort f.sort recent)) (sort_text f.sort))) in
    if is_empty bits then codes "no filters" else join (codes " / ") bits

-- `views` is `none` before the first load.
pub record Panel : Type 0 where
  pub views : Option (List ViewItem)
  pub err : Option Text
  pub busy : Bool
  pub naming : Bool
  pub draft : Text
  pub renaming_id : Option Text
  pub rename_draft : Text

-- A reply to a list call: `fetch` or `json` threw with this message, a status that is not ok, or the
-- items, `none` where the field is missing.
pub data ListReply : Type 0 where
  list_threw : Text → ListReply
  list_refused : ℕ → ListReply
  listed : Option (List ViewItem) → ListReply

-- A reply to a change: it threw, it was refused with a status and a detail, or it is done.
pub data ChangeReply : Type 0 where
  threw : Text → ChangeReply
  refused : ℕ → Option Text → ChangeReply
  done : ChangeReply

-- `remove` does not read the detail of a refusal.
abbrev pub without_detail : ChangeReply → ChangeReply
without_detail (threw m) = threw m
without_detail (refused status detail) = refused status none
without_detail done = done

-- `e?.message || d`
abbrev pub message_or : Text → Text → Text
message_or [] d = d
message_or (c ∷ s) d = c ∷ s

-- The filters that `save` sends.
unfoldable pub sent_filters : ViewFilters → ViewFilters
sent_filters f = record {
  q = trim f.q;
  tag = lower (trim f.tag);
  sort = f.sort;
  starred = f.starred;
}

-- `activeView`
unfoldable pub active_view : ViewFilters → Panel → Option ViewItem
active_view current p = find (λ v. filters_equal v.filters current) (or_else p.views [])

unfoldable pub can_save : Bool → ViewFilters → Panel → Bool
can_save has_api_key current p =
    has_api_key
    && not (filters_are_default current)
    && elim (active_view current p) [ none ↦ true | some _ ↦ false ]

module _ (number_text : ℕ → Text) (has_api_key : Bool) where
  unfoldable pub load : ListReply → Panel → Panel
  load reply p = if not has_api_key then record p { views = some [] } else elim reply [
    | list_threw m ↦ record p {
      err = some (message_or m (codes "failed to load views"));
      views = some [];
    }
    | list_refused status ↦
        if status == 401
        then record p { views = some [] }
        else record p { err = some (codes "http " ++ number_text status); views = some [] }
    | listed items ↦ record p { views = some (or_else items []); err = none }
  ]

  -- What `throw new Error(j?.detail || ...)` and the `catch` behind it put into `err`.
  abbrev pub refusal : Text → ℕ → Option Text → Text
  refusal what status detail =
      message_or (or_else detail []) (what ++ (codes " (" ++ (number_text status ++ codes ")")))

  -- A change with its `try`, its `catch` and its `finally`: `reset` is what a change that is
  -- done resets, before the list is loaded again.
  unfoldable pub change : Text → (Panel → Panel) → ChangeReply → ListReply → Panel → Panel
  change what reset (threw m) again p = record p { err = some (message_or m what); busy = false }
  change what reset (refused status detail) again p = record p {
    err = some (refusal what status detail);
    busy = false;
  }
  change what reset done again p = record (load again (reset p)) { busy = false }

  unfoldable pub save : ChangeReply → ListReply → Panel → Panel
  save reply again p =
      if is_empty (trim p.draft)
      then p
      else change (codes "save failed") (λ s. record s { naming = false; draft = [] }) reply again
          (record p { busy = true })

  unfoldable pub rename : ChangeReply → ListReply → Panel → Panel
  rename reply again p =
      if is_empty (trim p.rename_draft)
      then p
      else change (codes "rename failed") (λ s. record s { renaming_id = none; rename_draft = [] })
          reply again (record p { busy = true })

  -- `confirmed` is the answer of `confirm`.
  unfoldable pub remove : Bool → ChangeReply → ListReply → Panel → Panel
  remove confirmed reply again p =
      if not confirmed
      then p
      else change (codes "delete failed") (λ s. s) (without_detail reply) again
          (record p { busy = true })
