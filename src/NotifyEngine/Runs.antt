-- ===== src/NotifyEngine/Runs.antt =====
-- The runs of web/lib/notifyEngine.ts: ticks that begin, answers that arrive, starts and stops, and what
-- the user and other tabs do in between, in any order.
use clawhum.Prelude.{
  ℕ, ◌≤◌, Bool, true, false, not, Option, none, some, List, [], ◌∷◌, length, is_empty, ◌≡◌, refl,
  ◌∙◌, arith, Bool-cases, Option-cases, inl, inr,
}
use clawhum.Json.{Json}
use clawhum.NotifyPrefs.{NotifyPrefs, Device}
use clawhum.NotifyEngine.{
  Engine, ActivityItem, ActivityResp, tick_begin, tick_finish, process, set_cursor, start_engine,
  stop_engine, fire_all, fire_one, advance, should_fire, fresh_items, next_cursor,
}

module _ (accepts : Json → Bool) (keeps : ℕ → Bool) where
  -- The timer, the preferences event and the visibility event call `tick`; `answer` resumes the
  -- oldest tick that waits, with a response or none.
  pub data Step : Engine → Engine → Type 0 where
    tick : (e : Engine) (now : ℕ) → Step e (tick_begin now accepts keeps e)
    answer :
        (e : Engine) (now : ℕ) (p : NotifyPrefs) (rest : List NotifyPrefs) (r : Option ActivityResp)
        → e.waiting ≡ p ∷ rest
        → Step e (tick_finish now accepts keeps (record e { waiting = rest }) p r)
    start : (e : Engine) (now : ℕ) → Step e (start_engine now accepts keeps e)
    stop : (e : Engine) (now : ℕ) → Step e (stop_engine now accepts keeps e)
    outside :
        (e : Engine) (d : Device) (cursor : ℕ) (visible granted : Bool)
        → Step e (record e { device = d; cursor = cursor; visible = visible; granted = granted })

  pub data Run (e : Engine) : Engine → Type 0 where
    here : Run e e
    next : {f g : Engine} → Run e f → Step f g → Run e g

  -- At most one tick waits for an answer, and the flag says whether one does.
  pub record IsGuarded (e : Engine) : Type 0 where
    pub single : length e.waiting ≤ 1
    pub flagged : e.inflight ≡ not (is_empty e.waiting)

  tick_begin-IsGuarded :
      (now : ℕ) (e : Engine) (ws : List NotifyPrefs) (b : Bool)
      → e.waiting ≡ ws
      → e.inflight ≡ b
      → IsGuarded e
      → IsGuarded (tick_begin now accepts keeps e)
  unfolding tick_begin
  tick_begin-IsGuarded now e ws true h k g = record {
    single = ground (arith, g.single);
    flagged = ground (arith, g.flagged);
  }
  tick_begin-IsGuarded now e [] false h k g = record {
    single = ground arith;
    flagged = ground arith;
  }
  tick_begin-IsGuarded now e (w ∷ ws) false h k g = absurd (ground (arith, g.flagged))

  fire_one-waiting :
      (now : ℕ) (e : Engine) (p : NotifyPrefs) (it : ActivityItem) (e' : Engine)
      → fire_one now accepts keeps e p it ≡ some e'
      → e'.waiting ≡ e.waiting
  unfolding fire_one
  fire_one-waiting now e p it e' h = ground arith

  -- A tick's own work leaves the queue of the waiting ticks alone.
  fire_all-waiting :
      (now : ℕ) (e : Engine) (p : NotifyPrefs) (its : List ActivityItem)
      → (fire_all now accepts keeps e p its).0.waiting ≡ e.waiting
  unfolding fire_all
  fire_all-waiting now e p [] = refl
  fire_all-waiting now e p (it ∷ its) = elim (Bool-cases (should_fire e.visible p it)) [
    | inl fires ↦ elim (Option-cases (fire_one now accepts keeps e p it)) [
      | inl threw ↦ rw (fires, threw, fire_all)
      | inr (e', fired) ↦
          rw (fires, fired, fire_all)
            (fire_all-waiting now e' p its ∙ fire_one-waiting now e p it e' fired)
    ]
    | inr quiet ↦ rw (quiet, fire_all) (fire_all-waiting now e p its)
  ]

  advance-waiting :
      (now : ℕ) (r : Engine × Bool) (c : ℕ) → (advance now accepts keeps r c).waiting ≡ r.0.waiting
  unfolding set_cursor
  advance-waiting now (e, true) c = refl
  advance-waiting now (e, false) c = ground arith

  process-waiting :
      (now : ℕ) (e : Engine) (p : NotifyPrefs) (r : ActivityResp)
      → (process now accepts keeps e p r).waiting ≡ e.waiting
  unfolding process set_cursor
  process-waiting now e p r = ground (
    arith,
    advance-waiting now (fire_all now accepts keeps e p (fresh_items e.cursor r.items))
        (next_cursor r.latest_at (fresh_items e.cursor r.items)),
    fire_all-waiting now e p (fresh_items e.cursor r.items),
  )

  tick_finish-IsGuarded :
      (now : ℕ) (e : Engine) (p : NotifyPrefs) (r : Option ActivityResp)
      → e.waiting ≡ []
      → IsGuarded (tick_finish now accepts keeps e p r)
  unfolding tick_finish
  tick_finish-IsGuarded now e p none h = record { single = ground arith; flagged = ground arith }
  tick_finish-IsGuarded now e p (some r) h = record {
    single = ground (arith, process-waiting now e p r);
    flagged = ground (arith, process-waiting now e p r);
  }

  start_on :
      (now : ℕ) (e : Engine)
      → e.started ≡ true
      → IsGuarded e
      → IsGuarded (start_engine now accepts keeps e)
  unfolding start_engine
  start_on now e h g = record {
    single = ground (arith, g.single);
    flagged = ground (arith, g.flagged);
  }

  start_off :
      (now : ℕ) (e : Engine)
      → e.started ≡ false
      → IsGuarded e
      → IsGuarded (start_engine now accepts keeps e)
  unfolding start_engine
  start_off now e h g =
      let begun =
        tick_begin-IsGuarded now (record e { started = true }) _ _ refl refl
          (record { single = g.single; flagged = g.flagged }) in
      record { single = ground (arith, begun.single); flagged = ground (arith, begun.flagged) }

  Step-IsGuarded : {e f : Engine} → Step e f → IsGuarded e → IsGuarded f
  unfolding start_engine stop_engine
  Step-IsGuarded (Step.tick e now) g = tick_begin-IsGuarded now e _ _ refl refl g
  Step-IsGuarded (Step.answer e now p [] r h) g = tick_finish-IsGuarded now _ p r refl
  Step-IsGuarded (Step.answer e now p (q ∷ rest) r h) g = absurd (ground (arith, g.single))
  Step-IsGuarded (Step.start e now) g = elim (Bool-cases e.started) [
    | inl on ↦ start_on now e on g
    | inr off ↦ start_off now e off g
  ]
  Step-IsGuarded (Step.stop e now) g = record { single = g.single; flagged = g.flagged }
  Step-IsGuarded (Step.outside e d c v b) g = record { single = g.single; flagged = g.flagged }

  -- Whatever the order of the events, at most one tick is in flight, and `inflight` says whether
  -- one is, if this holds at the start.
  pub Run-IsGuarded : {e f : Engine} → Run e f → IsGuarded e → IsGuarded f
  Run-IsGuarded Run.here g = g
  Run-IsGuarded (Run.next run step) g = Step-IsGuarded step (Run-IsGuarded run g)
