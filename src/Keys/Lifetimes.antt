-- ===== src/Keys/Lifetimes.antt =====
-- The lifetimes that web/app/settings/keys/page.tsx offers.
use clawhum.Prelude.{
  ℕ, ◌≤◌, Bool, true, false, not, ◌&&◌, ◌||◌, Option, none, some, List, [], ◌∷◌, ◌++◌,
  if◌then◌else◌, ltb, leb, ◌==◌, any, any-append, filter, ◌⊎◌, ◌≡◌, refl, arith,
}
use clawhum.Prelude.Text.{Text, codes}
use clawhum.Keys.{
  KeyPolicy, Ttl, days, never, TtlChoice, choices_under, is_days, at_most, base_choices, cap_of,
  ttl_choices, ttl_of_policy,
}

abbrev pub is_never : TtlChoice → Bool
is_never c = elim c.value [ days m ↦ false | never ↦ true ]

-- Is the lifetime one of those offered?
abbrev pub offers : List TtlChoice → Ttl → Bool
offers cs (days n) = any (is_days n) cs
offers cs never = any is_never cs

-- The lifetimes without a cap.
abbrev pub is_base : ℕ → Bool
is_base n = any (is_days n) base_choices

any-filter-at_most :
    (n cap : ℕ) (cs : List TtlChoice)
    → any (is_days n) (filter (at_most cap) cs) ≡ (any (is_days n) cs && leb n cap)
any-filter-at_most n cap [] = refl
any-filter-at_most n cap (c ∷ cs) = ground (arith, any-filter-at_most n cap cs)

never-filter-at_most :
    (cap : ℕ) (cs : List TtlChoice) → any is_never (filter (at_most cap) cs) ≡ false
never-filter-at_most cap [] = refl
never-filter-at_most cap (c ∷ cs) = ground (arith, never-filter-at_most cap cs)

offers-choices_under :
    (number_text : ℕ → Text) (cap n : ℕ) (base : List TtlChoice)
    → any (is_days n) (choices_under number_text cap base) ≡ (
        if ltb 0 cap then (any (is_days n) base && leb n cap) || n == cap else any (is_days n) base)
unfolding choices_under
offers-choices_under number_text cap n base = ground (
  arith,
  any-append (is_days n) base (record { value = never; label = codes "never" } ∷ []),
  any-append (is_days n) (filter (at_most cap) base) (
      record { value = days cap; label = codes "in " ++ (number_text cap ++ codes " days (max)") }
      ∷ []),
  any-filter-at_most n cap base,
  any-filter-at_most cap cap base,
)

never-choices_under :
    (number_text : ℕ → Text) (cap : ℕ) (base : List TtlChoice)
    → any is_never base ≡ false
    → any is_never (choices_under number_text cap base) ≡ not (ltb 0 cap)
unfolding choices_under
never-choices_under number_text cap base h = ground (
  arith,
  any-append is_never base (record { value = never; label = codes "never" } ∷ []),
  any-append is_never (filter (at_most cap) base) (
      record { value = days cap; label = codes "in " ++ (number_text cap ++ codes " days (max)") }
      ∷ []),
  never-filter-at_most cap base,
)

-- Under a cap, the lifetimes offered are the usual ones up to the cap and the cap itself, and "never"
-- is not offered; without one, they are the usual ones and "never".
pub offers-ttl_choices :
    (number_text : ℕ → Text) (policy : Option KeyPolicy)
    → let cs = ttl_choices number_text policy in
      ((n : ℕ)
        → offers cs (days n) ≡ (
            if ltb 0 (cap_of policy)
            then (is_base n && leb n (cap_of policy)) || n == cap_of policy
            else is_base n))
      × (offers cs never ≡ not (ltb 0 (cap_of policy)))
unfolding ttl_choices
offers-ttl_choices number_text policy = (
  λ n. offers-choices_under number_text (cap_of policy) n base_choices,
  never-choices_under number_text (cap_of policy) base_choices refl,
)

-- When a policy arrives, the lifetime it chooses is one of those offered, provided that its default
-- is 0 (and the lifetime chosen before was offered without a cap), or the cap, or a usual lifetime
-- that the cap allows.
pub ttl_of_policy-offered :
    (number_text : ℕ → Text) (p : KeyPolicy) (chosen : Ttl)
    → offers (ttl_choices number_text none) chosen ≡ true
    → (p.default_ttl_days ≡ 0)
      ⊎ (p.default_ttl_days ≡ p.max_ttl_days)
      ⊎ ((is_base p.default_ttl_days ≡ true)
          × ((p.max_ttl_days ≡ 0) ⊎ (p.default_ttl_days ≤ p.max_ttl_days)))
    → offers (ttl_choices number_text (some p)) (ttl_of_policy p chosen) ≡ true
unfolding ttl_of_policy
ttl_of_policy-offered number_text p (days n) h d = ground (
  arith,
  (offers-ttl_choices number_text none).0 n,
  (offers-ttl_choices number_text (some p)).0 n,
  (offers-ttl_choices number_text (some p)).0 p.default_ttl_days,
  (offers-ttl_choices number_text (some p)).0 p.max_ttl_days,
)
ttl_of_policy-offered number_text p never h d = ground (
  arith,
  (offers-ttl_choices number_text (some p)).1,
  (offers-ttl_choices number_text (some p)).0 p.default_ttl_days,
  (offers-ttl_choices number_text (some p)).0 p.max_ttl_days,
)
