-- ===== src/SudoSession/Clock.antt =====
-- When web/app/settings/security/sudo/page.tsx drops the session that it holds.
use clawhum.Prelude.{
  ℕ, ◌-◌, ◌/◌, Option, none, some, if◌then◌else◌, leb, ltb, ◌≡◌, refl, ap, arith, inl, inr,
  Bool-cases, Option-cases,
}
use clawhum.Json.{Json, absent}
use clawhum.SudoSession.{Held, SudoPage, is_over_ms, is_over, expire, tick, remaining}

module _ (to_number : Json → Option ℕ) where
  -- The two tests of the page agree: a session is over for `loadHeld`, in milliseconds, exactly when
  -- it is over for the timer, in whole seconds.
  pub is_over_ms-is_over :
      (v : Held) (now_ms : ℕ) → is_over_ms to_number v now_ms ≡ is_over to_number v (now_ms / 1000)
  unfolding is_over_ms is_over
  is_over_ms-is_over v now_ms = elim (Option-cases (to_number v.expires_at)) [
    | inl e ↦ rw (e, is_over_ms, is_over) refl
    | inr (n, e) ↦ rw (e, is_over_ms, is_over) (ground arith)
  ]

  tick-shape :
      (now_ms : ℕ) (p : SudoPage) (v : Held) (n : ℕ)
      → p.held ≡ some v
      → to_number v.expires_at ≡ some n
      → tick to_number now_ms p ≡ (
          if leb n (now_ms / 1000)
          then record p { slot = absent; held = none; now = now_ms / 1000 }
          else record p { held = some v; now = now_ms / 1000 })
  unfolding tick expire is_over
  tick-shape now_ms p v n h e =
      rw (tick, expire, is_over, h, e)
        (ap
          (λ o.
            if leb n (now_ms / 1000)
            then record p { slot = absent; held = none; now = now_ms / 1000 }
            else record p { held = o; now = now_ms / 1000 })
          h)

  -- After each tick of the timer the page holds no session that is over: one whose expiry is a number
  -- is still held exactly where that lies ahead, and then the remaining time is positive; and the
  -- storage is cleared with it.
  pub tick-live :
      (now_ms : ℕ) (p : SudoPage) (v : Held) (n : ℕ)
      → p.held ≡ some v
      → to_number v.expires_at ≡ some n
      → let p' = tick to_number now_ms p in
        (p'.held ≡ (if ltb (now_ms / 1000) n then some v else none))
        × (p'.slot ≡ (if ltb (now_ms / 1000) n then p.slot else absent))
        × (remaining to_number p' ≡ some (n - now_ms / 1000))
  unfolding remaining
  tick-live now_ms p v n h e = elim (Bool-cases (leb n (now_ms / 1000))) [
    | inl over ↦
        rw (tick-shape now_ms p v n h e, over) (ground arith, ground arith, ap some (ground arith))
    | inr live ↦ rw (tick-shape now_ms p v n h e, live) (ground arith, ground arith, rw e refl)
  ]
