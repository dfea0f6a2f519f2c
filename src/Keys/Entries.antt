-- ===== src/Keys/Entries.antt =====
-- The entries that the restriction editors of web/app/settings/keys/page.tsx send.
use mathlib.Core.List.{append-nil, append_assoc}
use clawhum.Prelude.{
  ℕ, Bool, true, false, not, none, some, List, [], ◌∷◌, ◌++◌, map, filter, is_empty, all, All, ◌≡◌,
  refl, ◌∙◌, ap, arith, Bool-cases, inl, inr,
}
use clawhum.Prelude.Text.{Text, codes, trim, trim_start, trim_end, is_space, join}
use clawhum.Keys.Handlers.{
  ListEditor, is_separator, split_parts, parse_list, edit_list, save_list_begin,
}

abbrev pub is_plain : Text → Bool
is_plain t = all (λ c. not (is_separator c)) t

-- An entry is not empty and has no space and no comma.
abbrev pub IsEntry : Text → Type 0
IsEntry t = (is_empty t ≡ false) × (is_plain t ≡ true)

trim_end-plain : (t : Text) → is_plain t ≡ true → trim_end t ≡ t
unfolding trim_end
trim_end-plain [] h = refl
trim_end-plain (c ∷ t) h = ground (arith, trim_end-plain t)

plain-head :
    (c : ℕ) (t : Text) → is_plain (c ∷ t) ≡ true → (is_separator c ≡ false) × (is_plain t ≡ true)
plain-head c t h = ground arith

trim_start-plain : (t : Text) → is_plain t ≡ true → trim_start t ≡ t
unfolding trim_start
trim_start-plain [] h = refl
trim_start-plain (c ∷ t) h = ground (arith, plain-head c t h)

trim-plain : (t : Text) → is_plain t ≡ true → trim t ≡ t
unfolding trim
trim-plain t h = ap trim_end (trim_start-plain t h) ∙ trim_end-plain t h

plain-append :
    (t : Text) (c : ℕ) → is_plain t ≡ true → is_separator c ≡ false → is_plain (t ++ c ∷ []) ≡ true
plain-append [] c h k = ground arith
plain-append (d ∷ t) c h k = ground (arith, plain-append t c)

split_parts-plain :
    (cur s : Text) → is_plain cur ≡ true → All (λ t. is_plain t ≡ true) (split_parts cur s)
unfolding split_parts
split_parts-plain cur [] h = (h, tt)
split_parts-plain cur (c ∷ s) h = elim (Bool-cases (is_separator c)) [
  | inl e ↦ rw e (h, split_parts-plain [] s refl)
  | inr e ↦ rw e (split_parts-plain (cur ++ c ∷ []) s (plain-append cur c h e))
]

entries-kept :
    (parts : List Text)
    → All (λ t. is_plain t ≡ true) parts
    → All IsEntry (filter (λ s. not (is_empty s)) (map trim parts))
entries-kept [] h = tt
entries-kept (t ∷ parts) (h, k) = rw (trim-plain t h) (ground (arith, entries-kept parts k))

entries-parse_list : (draft : Text) → All IsEntry (parse_list draft)
unfolding parse_list
entries-parse_list draft = entries-kept (split_parts [] draft) (split_parts-plain [] draft refl)

split_parts-last : (cur t : Text) → is_plain t ≡ true → split_parts cur t ≡ (cur ++ t) ∷ []
unfolding split_parts
split_parts-last cur [] h = rw append-nil refl
split_parts-last cur (c ∷ t) h = rw (plain-head c t h).0 (
    split_parts-last (cur ++ c ∷ []) t (plain-head c t h).1
    ∙ ap (λ l. l ∷ []) (append_assoc cur (c ∷ []) t))

newline-separator : is_separator b'\n' ≡ true
unfolding is_space
newline-separator = refl

split_parts-next :
    (cur t s : Text)
    → is_plain t ≡ true
    → split_parts cur (t ++ (codes "\n" ++ s)) ≡ (cur ++ t) ∷ split_parts [] s
unfolding split_parts
split_parts-next cur [] s h = rw newline-separator (rw append-nil refl)
split_parts-next cur (c ∷ t) s h = rw (plain-head c t h).0 (
    split_parts-next (cur ++ c ∷ []) t s (plain-head c t h).1
    ∙ ap (λ l. l ∷ split_parts [] s) (append_assoc cur (c ∷ []) t))

kept :
    (parts : List Text)
    → All IsEntry parts
    → filter (λ s. not (is_empty s)) (map trim parts) ≡ parts
kept [] h = refl
kept (t ∷ parts) (h, k) = rw (trim-plain t h.1) (ground (arith, kept parts k))

split_parts-join :
    (t : Text) (ts : List Text)
    → All IsEntry (t ∷ ts)
    → split_parts [] (join (codes "\n") (t ∷ ts)) ≡ t ∷ ts
unfolding join
split_parts-join t [] (h, k) = split_parts-last [] t h.1
split_parts-join t (u ∷ ts) (h, k) =
    split_parts-next [] t (join (codes "\n") (u ∷ ts)) h.1
    ∙ ap (λ l. t ∷ l) (split_parts-join u ts k)

parse_list-join :
    (entries : List Text) → All IsEntry entries → parse_list (join (codes "\n") entries) ≡ entries
unfolding parse_list join
parse_list-join [] h = rw (trim-plain [] refl) refl
parse_list-join (t ∷ ts) h =
    ap (λ l. filter (λ s. not (is_empty s)) (map trim l)) (split_parts-join t ts h)
    ∙ kept (t ∷ ts) h

-- What the editor sends are entries that are not empty and have no comma and no space, whatever the draft
-- is. Where the list of a token consists of such entries, which addresses are, and is opened and saved
-- as it is while no list is being saved, the entries sent are those of the token, in order.
pub save_list-edit_list :
    (id draft : Text) (entries : List Text) (e : ListEditor)
    → All IsEntry entries
    → e.saving ≡ none
    → All IsEntry (parse_list draft)
      × (save_list_begin id (edit_list id entries e)
          ≡ some (record (edit_list id entries e) { saving = some id; err = none }, entries))
unfolding save_list_begin edit_list
save_list-edit_list id draft entries e h idle =
    (entries-parse_list draft, rw (save_list_begin, idle, parse_list-join entries h) refl)
