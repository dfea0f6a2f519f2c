-- ===== src/Oembed/Paths.antt =====
-- The paths in which `parseShareUrl` of web/lib/oembed.ts finds given parts.
use mathlib.Core.List.{append_assoc}
use clawhum.Prelude.{
  ◌&&◌, ℕ, zero, suc, ◌+◌, true, not, List, [], ◌∷◌, ◌++◌, ◌==◌, filter, is_empty, replicate, ◌≡◌,
  refl, sym, ap, ◌∙◌, arith, Bool-cases, inl, inr,
}
use clawhum.Prelude.Text.{Text, codes}
use clawhum.Oembed.{drop_slashes, split_slash, path_parts}

abbrev pub slashes : ℕ → Text
slashes n = replicate n b'/'

-- Parts, each with a slash behind it.
abbrev closed : List Text → Text
closed [] = []
closed (t ∷ ts) = t ++ b'/' ∷ closed ts

abbrev filled : List Text → List Text
filled ts = filter (λ s. not (is_empty s)) ts

slashes-add : (m n : ℕ) → slashes m ++ slashes n ≡ slashes (m + n)
slashes-add zero n = ground arith
slashes-add (suc m) n =
    let next : suc m + n ≡ suc (m + n) = omega arith in
    rw next (ap (λ s. b'/' ∷ s) (slashes-add m n))

closed-split_slash : (cur s : Text) → closed (split_slash cur s) ≡ cur ++ (s ++ codes "/")
unfolding split_slash
closed-split_slash cur [] = refl
closed-split_slash cur (c ∷ s) = elim (Bool-cases (c == b'/')) [
  | inl e ↦ rw e (ground (arith, closed-split_slash [] s))
  | inr e ↦ rw e (closed-split_slash (cur ++ c ∷ []) s ∙ append_assoc cur (c ∷ []) (s ++ codes "/"))
]

nil_of_is_empty : (s : Text) → is_empty s ≡ true → s ≡ []
nil_of_is_empty [] h = refl
nil_of_is_empty (c ∷ s) h = cc h

slashes-drop_slashes : (s : Text) → (n : ℕ) × (s ≡ drop_slashes s ++ slashes n)
unfolding drop_slashes
slashes-drop_slashes [] = (0, refl)
slashes-drop_slashes (c ∷ s) =
    let (n, e) = slashes-drop_slashes s in
    elim (Bool-cases (c == b'/' && is_empty (drop_slashes s))) [
      | inl h ↦
          let gone : drop_slashes s ≡ [] = nil_of_is_empty (drop_slashes s) (ground (arith, h)) in
          let slash : c ≡ b'/' = ground (arith, h) in
          let rest : s ≡ slashes n = e ∙ ap (λ t. t ++ slashes n) gone in
          (suc n, rw (h, slash) (ap (λ t. b'/' ∷ t) rest))
      | inr h ↦ (n, rw h (ap (λ t. c ∷ t) e))
    ]

-- Parts that are all empty are slashes, and the first that is not stands behind some.
closed-none : (ts : List Text) → filled ts ≡ [] → (n : ℕ) × (closed ts ≡ slashes n)
closed-none [] h = (0, refl)
closed-none ([] ∷ ts) h = let (n, e) = closed-none ts h in (suc n, ap (λ s. b'/' ∷ s) e)
closed-none ((c ∷ t) ∷ ts) h = absurd (cc h)

closed-first :
    (ts us : List Text) (u : Text)
    → filled ts ≡ u ∷ us
    → (n : ℕ) × ((later : List Text) × (filled later ≡ us)
        × (closed ts ≡ slashes n ++ (u ++ b'/' ∷ closed later)))
closed-first [] us u h = absurd (cc h)
closed-first ([] ∷ ts) us u h =
    let (n, (later, rest, e)) = closed-first ts us u h in
    (suc n, (later, rest, ap (λ s. b'/' ∷ s) e))
closed-first ((c ∷ t) ∷ ts) us u h =
    let same : c ∷ t ≡ u = cc h in (0, (ts, cc h, ap (λ v. v ++ b'/' ∷ closed ts) same))

-- Slashes, `r`, at least one slash, `id`, and slashes again: the last count is one more than what the
-- path has.
abbrev pub path_text : Text → Text → ℕ → ℕ → ℕ → Text
path_text r id a b k = slashes a ++ (r ++ b'/' ∷ (slashes b ++ (id ++ slashes k)))

slash_last : (n : ℕ) → slashes n ++ codes "/" ≡ codes "/" ++ slashes n
slash_last n =
    let turned : n + 1 ≡ 1 + n = omega arith in
    slashes-add n 1 ∙ ap slashes turned ∙ sym (slashes-add 1 n)

path_text-append :
    (r id : Text) (a b k n : ℕ)
    → path_text r id a b (suc k) ++ slashes n ≡ path_text r id a b (suc (k + n))
path_text-append r id a b k n =
    append_assoc (slashes a) _ (slashes n)
    ∙ ap (λ t. slashes a ++ t) (append_assoc r _ (slashes n))
    ∙ ap (λ t. slashes a ++ (r ++ b'/' ∷ t)) (append_assoc (slashes b) _ (slashes n))
    ∙ ap (λ t. slashes a ++ (r ++ b'/' ∷ (slashes b ++ t))) (append_assoc id _ (slashes n))
    ∙ ap (λ t. slashes a ++ (r ++ b'/' ∷ (slashes b ++ (id ++ b'/' ∷ t)))) (slashes-add k n)

closed-parts :
    (parts : List Text) (r id : Text)
    → filled parts ≡ r ∷ id ∷ []
    → (a : ℕ) × ((b : ℕ) × ((k : ℕ) × (closed parts ≡ path_text r id a b (suc k))))
closed-parts parts r id h =
    let (a, (later, rest, e)) = closed-first parts (id ∷ []) r h in
    let (b, (last, done, f)) = closed-first later [] id rest in
    let (k, g) = closed-none last done in
    (
      a,
      (
        b,
        (
          k,
          e
              ∙ ap (λ t. slashes a ++ (r ++ b'/' ∷ t))
                  (f ∙ ap (λ t. slashes b ++ (id ++ b'/' ∷ t)) g),
        ),
      ),
    )

-- A path with exactly two parts has only slashes beside them.
pub path_parts-shape :
    (p r id : Text)
    → path_parts p ≡ r ∷ id ∷ []
    → (a : ℕ) × ((b : ℕ) × ((k : ℕ) × (p ++ codes "/" ≡ path_text r id a b (suc k))))
unfolding path_parts
path_parts-shape p r id h =
    let d = drop_slashes p in
    let (n, e) = slashes-drop_slashes p in
    let (a, (b, (k, f))) = closed-parts (split_slash [] d) r id h in
    let moved : p ++ codes "/" ≡ (d ++ codes "/") ++ slashes n =
      ap (λ t. t ++ codes "/") e
      ∙ append_assoc d (slashes n) (codes "/")
      ∙ ap (λ t. d ++ t) (slash_last n)
      ∙ sym (append_assoc d (codes "/") (slashes n)) in
    (
      a,
      (
        b,
        (
          k + n,
          moved
              ∙ ap (λ t. t ++ slashes n) (sym (closed-split_slash [] d) ∙ f)
              ∙ path_text-append r id a b k n,
        ),
      ),
    )
