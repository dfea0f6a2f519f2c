-- ===== src/NotifyPrefs/Fired.antt =====
-- The log of fired notifications of web/lib/notifyPrefs.ts.
use clawhum.Prelude.{
  ℕ, zero, suc, ◌≤◌, Bool, true, false, Option, none, some, List, [], ◌∷◌, map, if◌then◌else◌, any,
  filter, take, length, length-take, All, All-take, All-filter, filter-All, take_of_length-le, ◌≡◌,
  refl, arith, Bool-cases, inl, inr,
}
use clawhum.Prelude.Text.{Text, codes, text_eq, text_eq_refl}
use clawhum.Prelude.TextSet.{has, Distinct}
use clawhum.Json.{
  Json, null, bool, num, str, arr, obj, items, of_items, items-of_items, get, is_object, is_text,
  parsed,
}
use clawhum.NotifyPrefs.{
  FiredEntry, fired_max, Device, entry_json, safe_parse, is_entry, load_fired, array_entries,
  is_same_text, has_entry_id, next_fired, append_fired,
}

-- The id of an entry.
abbrev pub text_or_empty : Option Json → Text
text_or_empty (some (str s)) = s
text_or_empty (some null) = []
text_or_empty (some (bool b)) = []
text_or_empty (some (num n)) = []
text_or_empty (some (arr vs)) = []
text_or_empty (some (obj fs)) = []
text_or_empty none = []

unfoldable pub entry_id : Json → Text
entry_id v = text_or_empty (get (some v) (codes "id"))

abbrev pub ids : List Json → List Text
ids vs = map entry_id vs

entry_json-is_entry : (e : FiredEntry) → is_entry (entry_json e) ≡ true
unfolding is_entry entry_json text_eq
entry_json-is_entry e = refl

entry_id-entry_json : (e : FiredEntry) → entry_id (entry_json e) ≡ e.id
unfolding entry_id entry_json get text_eq
entry_id-entry_json e = refl

is_same_text-text :
    (o : Option Json) (id : Text)
    → is_text o ≡ true
    → is_same_text o id ≡ text_eq (text_or_empty o) id
unfolding is_text
is_same_text-text (some (str s)) id h = refl
is_same_text-text (some null) id h = cc
is_same_text-text (some (bool b)) id h = cc
is_same_text-text (some (num n)) id h = cc
is_same_text-text (some (arr vs)) id h = cc
is_same_text-text (some (obj fs)) id h = cc
is_same_text-text none id h = cc

is_text-id : (v : Json) → is_entry v ≡ true → is_text (get (some v) (codes "id")) ≡ true
unfolding is_entry
is_text-id v h = ground arith

has_entry_id-entry_id :
    (id : Text) (v : Json) → is_entry v ≡ true → has_entry_id id v ≡ text_eq (entry_id v) id
unfolding has_entry_id entry_id
has_entry_id-entry_id id v h = is_same_text-text _ id (is_text-id v h)

array_entries-entries : (v : Json) → All (λ e. is_entry e ≡ true) (array_entries v)
array_entries-entries (arr vs) = All-take _ fired_max _ (All-filter is_entry (items vs))
array_entries-entries null = tt
array_entries-entries (bool b) = tt
array_entries-entries (num n) = tt
array_entries-entries (str s) = tt
array_entries-entries (obj fs) = tt

length-array_entries : (v : Json) → length (array_entries v) ≤ fired_max
length-array_entries (arr vs) =
    omega (arith, length-take {0} fired_max (filter is_entry (items vs)))
length-array_entries null = omega arith
length-array_entries (bool b) = omega arith
length-array_entries (num n) = omega arith
length-array_entries (str s) = omega arith
length-array_entries (obj fs) = omega arith

load_fired-entries : (d : Device) → All (λ e. is_entry e ≡ true) (load_fired d)
unfolding load_fired
load_fired-entries d = elim (Bool-cases d.window) [
  | inl w ↦ rw (w, load_fired) (array_entries-entries (safe_parse d.fired (arr (of_items []))))
  | inr w ↦ rw (w, load_fired) tt
]

length-load_fired : (d : Device) → length (load_fired d) ≤ fired_max
unfolding load_fired
length-load_fired d = elim (Bool-cases d.window) [
  | inl w ↦ rw (w, load_fired) (length-array_entries (safe_parse d.fired (arr (of_items []))))
  | inr w ↦ rw (w, load_fired) (omega arith)
]

any-has :
    (id : Text) (vs : List Json)
    → All (λ e. is_entry e ≡ true) vs
    → any (has_entry_id id) vs ≡ has (ids vs) id
any-has id [] h = refl
any-has id (v ∷ vs) (e, h) = rw (has_entry_id-entry_id id v e, any-has id vs h)

has-ids-take :
    (n : ℕ) (vs : List Json) (t : Text) → has (ids vs) t ≡ false → has (ids (take n vs)) t ≡ false
has-ids-take zero vs t h = refl
has-ids-take (suc n) [] t h = refl
has-ids-take (suc n) (v ∷ vs) t h = ground (arith, has-ids-take n vs t)

Distinct-ids-take : (n : ℕ) (vs : List Json) → Distinct (ids vs) → Distinct (ids (take n vs))
Distinct-ids-take zero vs d = tt
Distinct-ids-take (suc n) [] d = tt
Distinct-ids-take (suc n) (v ∷ vs) (e, d) =
    (has-ids-take n vs (entry_id v) e, Distinct-ids-take n vs d)

-- The log after an append, where the device has a window.
abbrev pub logged : Device → FiredEntry → List Json
logged d e =
    if has (ids (load_fired d)) e.id
    then load_fired d
    else take fired_max (entry_json e ∷ load_fired d)

load_stored :
    (d : Device) (n : ℕ) (vs : List Json)
    → d.window ≡ true
    → All (λ e. is_entry e ≡ true) vs
    → length vs ≤ fired_max
    → load_fired (record d { fired = parsed (arr (of_items vs)); events = n }) ≡ vs
unfolding load_fired safe_parse is_object
load_stored d n vs w h k =
    rw (w, items-of_items, filter-All is_entry vs h, take_of_length-le fired_max vs k)

next_fired-entries :
    (d : Device) (e : FiredEntry)
    → All (λ v. is_entry v ≡ true) (take fired_max (entry_json e ∷ load_fired d))
next_fired-entries d e =
    (entry_json-is_entry e, All-take (λ v. is_entry v ≡ true) 49 _ (load_fired-entries d))

length-next_fired :
    (d : Device) (e : FiredEntry)
    → length (take fired_max (entry_json e ∷ load_fired d)) ≤ fired_max
length-next_fired d e = omega (arith, length-take {0} 49 (load_fired d))

module _ (d : Device) (e : FiredEntry) where
  length-logged : length (logged d e) ≤ fired_max
  length-logged = elim (Bool-cases (has (ids (load_fired d)) e.id)) [
    | inl old ↦ rw old (length-load_fired d)
    | inr new ↦ rw new (length-next_fired d e)
  ]

  Distinct-logged : Distinct (ids (load_fired d)) → Distinct (ids (logged d e))
  Distinct-logged h = elim (Bool-cases (has (ids (load_fired d)) e.id)) [
    | inl old ↦ rw old h
    | inr new ↦
        rw (new, entry_id-entry_json)
          (has-ids-take 49 (load_fired d) e.id new, Distinct-ids-take 49 (load_fired d) h)
  ]

  has-logged : has (ids (logged d e)) e.id ≡ true
  has-logged = elim (Bool-cases (has (ids (load_fired d)) e.id)) [
    | inl old ↦ rw old old
    | inr new ↦ rw (new, entry_id-entry_json, text_eq_refl e.id)
  ]

  append_fired-logged :
      (accepts : Json → Bool) (d' : Device)
      → d.window ≡ true
      → append_fired accepts d e ≡ some d'
      → load_fired d' ≡ logged d e
  unfolding append_fired
  append_fired-logged accepts d' w h =
      let same = any-has e.id (load_fired d) (load_fired-entries d) in
      elim (Bool-cases (has (ids (load_fired d)) e.id)) [
        | inl old ↦ let kept : d ≡ d' = ground arith in rw (old, ← kept)
        | inr new ↦
            let fits : accepts (arr (of_items (next_fired accepts d e))) ≡ true = ground arith in
            let stored : record d {
              fired = parsed (arr (of_items (next_fired accepts d e)));
              events = suc d.events;
            }
                ≡ d' =
              ground arith in
            rw (new, ← stored)
              (load_stored d (suc d.events) _ w (next_fired-entries d e) (length-next_fired d e))
      ]

-- In a window, with distinct ids in the log and a write that storage accepts if there is one: a
-- notification under a new id comes first and the log is cut to fifty entries; one whose id is in
-- the log changes nothing. The id is in the log afterwards, and the ids stay distinct.
pub load-append_fired :
    (accepts : Json → Bool) (d d' : Device) (e : FiredEntry)
    → d.window ≡ true
    → append_fired accepts d e ≡ some d'
    → Distinct (ids (load_fired d))
    → (load_fired d' ≡ logged d e)
      × (length (load_fired d') ≤ fired_max)
      × Distinct (ids (load_fired d'))
      × (has (ids (load_fired d')) e.id ≡ true)
load-append_fired accepts d d' e w h distinct =
    rw (append_fired-logged d e accepts d' w h)
      (refl, length-logged d e, Distinct-logged d e distinct, has-logged d e)
