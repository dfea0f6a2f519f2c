-- ===== src/Webhooks/Rate/Bounds.antt =====
-- Which caps the card of web/app/webhooks/page.tsx sends, and how a request to save one ends.
use clawhum.Prelude.{ℕ, ◌≤◌, true, false, Option, none, some, ◌++◌, ◌≡◌, refl, arith}
use clawhum.Prelude.Text.{Text, codes}
use clawhum.Webhooks.Rate.{
  CardState, policy, no_fields, RateCard, ParsedInt, not_finite, negative, natural, RateAnswer,
  threw, refused, unreadable, replied, save_parsed, save_begin, save_end,
}

-- Within the ceiling of the policy; a state without fields has none.
abbrev pub IsWithin : Option CardState → ℕ → Type 0
IsWithin none n = ⊥
IsWithin (some (policy s)) n = n ≤ s.ceiling
IsWithin (some no_fields) n = Unit

module _ (number_text : ℕ → Text) where
  -- The text of a refusal, or its status.
  abbrev refusal : ℕ → Option Text → Text
  refusal status none = codes "http " ++ number_text status
  refusal status (some t) = t

  -- What the card `c`, which is busy, is behind the answer.
  abbrev pub IsAnswered : RateAnswer → RateCard → RateCard → Type 0
  IsAnswered (threw m) c c' = c' ≡ record c { busy = false; err = some m }
  IsAnswered (refused status t) c c' = c' ≡ record c { busy = false; err = some (refusal status t) }
  IsAnswered (unreadable m) c c' =
      (c'.state ≡ some no_fields)
      × (c'.draft ≡ codes "undefined")
      × (c'.busy ≡ false)
      × (c'.err ≡ c.err)
  IsAnswered (replied s) c c' =
      (c'.state ≡ some (policy s))
      × (c'.draft ≡ number_text s.max_per_minute)
      × (c'.busy ≡ false)
      × (c'.err ≡ c.err)

module _ (number_text : ℕ → Text) (parse : Text → ParsedInt) where
  save_parsed-IsWithin :
      (o : Option CardState) (r : ParsedInt) (c c' : RateCard) (n : ℕ)
      → save_parsed number_text parse o r c ≡ (c', some n)
      → (r ≡ natural n) × IsWithin o n × (c' ≡ record c { busy = true; err = none })
  save_parsed-IsWithin none r c c' n h = ground (arith, h)
  save_parsed-IsWithin (some s) not_finite c c' n h = ground (arith, h)
  save_parsed-IsWithin (some s) negative c c' n h = ground (arith, h)
  save_parsed-IsWithin (some (policy s)) (natural m) c c' n h = ground (arith, h)
  save_parsed-IsWithin (some no_fields) (natural m) c c' n h = ground (arith, h)

  save_end-IsAnswered :
      (answer : RateAnswer) (c : RateCard)
      → IsAnswered number_text answer c (save_end number_text parse answer c)
  unfolding save_end
  save_end-IsAnswered (threw m) c = refl
  save_end-IsAnswered (refused status none) c = refl
  save_end-IsAnswered (refused status (some t)) c = refl
  save_end-IsAnswered (unreadable m) c = (refl, refl, refl, refl)
  save_end-IsAnswered (replied s) c = (refl, refl, refl, refl)

  -- A cap that is sent is the number of the draft, and not above the ceiling where the card holds a policy;
  -- the card is then busy without an error, and as it was otherwise. Whatever the card is when the
  -- request has ended: behind a failure it shows the error, with its policy and draft; behind a
  -- policy it holds that, with its cap as the draft; and behind an ok answer that cannot be read it
  -- holds a state without fields, with the draft "undefined". It is free again in each case.
  pub save-bounds :
      (c sending later : RateCard) (n : ℕ) (answer : RateAnswer)
      → save_begin number_text parse c ≡ (sending, some n)
      → (parse c.draft ≡ natural n)
        × IsWithin c.state n
        × (sending ≡ record c { busy = true; err = none })
        × IsAnswered number_text answer later (save_end number_text parse answer later)
  unfolding save_begin
  save-bounds c sending later n answer h =
      let (number, within, shape) = save_parsed-IsWithin c.state (parse c.draft) c sending n h in
      (number, within, shape, save_end-IsAnswered answer later)
