-- ===== src/NotifyEngine/Firing.antt =====
-- What one tick of web/lib/notifyEngine.ts shows.
use clawhum.Prelude.{
  ℕ, zero, suc, ◌≤◌, ◌<◌, Bool, true, false, Option, none, some, List, [], ◌∷◌, ◌++◌, map,
  if◌then◌else◌, ltb, filter, is_empty, All, ◌≡◌, ◌≢◌, refl, sym, ◌∙◌, arith, Bool-cases,
  Option-cases, inl, inr,
}
use mathlib.Core.Path.{subst}
use mathlib.Core.List.{append-nil, append_assoc}
use clawhum.Prelude.Sort.{sort_by}
use clawhum.Json.{Json, arr, of_items}
use clawhum.NotifyPrefs.{NotifyPrefs, FiredEntry, Device, append_fired, next_fired}
use clawhum.NotifyEngine.{
  ActivityItem, ActivityResp, Shown, Engine, should_fire, notification, fired_entry, fresh_items,
  next_cursor, fire_one, fire_all, set_cursor, process, tick_finish, advance,
}

-- The notifications of the items that the preferences let through.
abbrev pub notices : Engine → NotifyPrefs → List ActivityItem → List Shown
notices e p its = if e.granted then map notification (filter (should_fire e.visible p) its) else []

append_fired-some :
    (accepts : Json → Bool) (d : Device) (f : FiredEntry)
    → ((v : Json) → accepts v ≡ true)
    → (d' : Device) × (append_fired accepts d f ≡ some d')
append_fired-some accepts d f all = elim (Option-cases (append_fired accepts d f)) [
  | inl e ↦ absurd (never e)
  | inr found ↦ found
]
  where
    never : append_fired accepts d f ≢ none
    never =
        unfold append_fired in λ e. ground (arith, all (arr (of_items (next_fired accepts d f))))

module _ (now : ℕ) (accepts : Json → Bool) (keeps : ℕ → Bool) where
  -- What the loop over the items has done.
  record Fired (e : Engine) (p : NotifyPrefs) (its : List ActivityItem) (r : Engine × Bool)
      : Type 0 where
    done : r.1 ≡ false
    shown : r.0.shown ≡ e.shown ++ notices e p its
    cursor : r.0.cursor ≡ e.cursor

  shown_before :
      (e : Engine) (p : NotifyPrefs) (it : ActivityItem) (its : List ActivityItem)
      → should_fire e.visible p it ≡ true
      → (if e.granted then e.shown ++ notification it ∷ [] else e.shown) ++ notices e p its
        ≡ e.shown ++ notices e p (it ∷ its)
  shown_before e p it its h =
      ground (arith, append_assoc e.shown (notification it ∷ []) (notices e p its))

  -- The engine behind an item that fired.
  abbrev fired_state : Engine → Device → NotifyPrefs → ActivityItem → Engine
  fired_state e d p it = record e {
    device = d;
    shown = if e.granted then e.shown ++ notification it ∷ [] else e.shown;
    pings = if p.sound then suc e.pings else e.pings;
  }

  module _ (e : Engine) (p : NotifyPrefs) (it : ActivityItem) (its : List ActivityItem) where
    fire_all_quiet :
        should_fire e.visible p it ≡ false
        → fire_all now accepts keeps e p (it ∷ its) ≡ fire_all now accepts keeps e p its
    unfolding fire_all
    fire_all_quiet h = rw (h, fire_all)

    fire_all_fires :
        (d : Device)
        → should_fire e.visible p it ≡ true
        → append_fired accepts e.device (fired_entry now it) ≡ some d
        → fire_all now accepts keeps e p (it ∷ its)
          ≡ fire_all now accepts keeps (fired_state e d p it) p its
    unfolding fire_all fire_one
    fire_all_fires d h k = rw (h, k, fire_all, fire_one)

  fire_all-Fired :
      (e : Engine) (p : NotifyPrefs) (its : List ActivityItem)
      → ((v : Json) → accepts v ≡ true)
      → Fired e p its (fire_all now accepts keeps e p its)
  unfolding fire_all
  fire_all-Fired e p [] all = record {
    done = refl;
    shown = ground (arith, append-nil e.shown);
    cursor = refl;
  }
  fire_all-Fired e p (it ∷ its) all = elim (Bool-cases (should_fire e.visible p it)) [
    | inl fires ↦
        let (d, logged) = append_fired-some accepts e.device (fired_entry now it) all in
        let rest = fire_all-Fired (fired_state e d p it) p its all in
        subst (Fired e p (it ∷ its)) (sym (fire_all_fires e p it its d fires logged)) (record {
          done = rest.done;
          shown = rest.shown ∙ shown_before e p it its fires;
          cursor = rest.cursor;
        })
    | inr quiet ↦
        let rest = fire_all-Fired e p its all in
        subst (Fired e p (it ∷ its)) (sym (fire_all_quiet e p it its quiet))
          (record { done = rest.done; shown = rest.shown ∙ ground arith; cursor = rest.cursor })
  ]

  -- The first run ever, with no cursor stored, notifies and logs nothing: it only sets the cursor.
  pub tick_finish_first_run :
      (e : Engine) (p : NotifyPrefs) (r : Option ActivityResp)
      → e.cursor ≡ 0
      → ((tick_finish now accepts keeps e p r).shown ≡ e.shown)
        × ((tick_finish now accepts keeps e p r).device ≡ e.device)
  unfolding tick_finish process set_cursor
  tick_finish_first_run e p none c = (refl, refl)
  tick_finish_first_run e p (some r) c = ground arith

  -- Behind the loop nothing more is shown, and the cursor moves if storage keeps it.
  advance-Fired :
      (e : Engine) (p : NotifyPrefs) (its : List ActivityItem) (r : Engine × Bool) (c : ℕ)
      → Fired e p its r
      → keeps c ≡ true
      → ((advance now accepts keeps r c).shown ≡ e.shown ++ notices e p its)
        × ((advance now accepts keeps r c).cursor ≡ c)
  unfolding set_cursor
  advance-Fired e p its (e', true) c f k = cc (f.done)
  advance-Fired e p its (e', false) c f k = ground (arith, f.shown)

  module _ (e : Engine) (p : NotifyPrefs) (r : ActivityResp) (logs : (v : Json) → accepts v ≡ true)
      (cursors : (c : ℕ) → keeps c ≡ true) (running : 0 < e.cursor) where
    abbrev fresh : List ActivityItem
    fresh = fresh_items e.cursor r.items

    process_idle : fresh ≡ [] → process now accepts keeps e p r ≡ e
    unfolding process
    process_idle h = ground arith

    process_busy :
        (it : ActivityItem) (its : List ActivityItem)
        → fresh ≡ it ∷ its
        → process now accepts keeps e p r
          ≡ advance now accepts keeps
              (fire_all now accepts keeps e p (it ∷ its))
              (next_cursor r.latest_at (it ∷ its))
    unfolding process
    process_busy it its h = ground arith

    process-shown :
        (its : List ActivityItem)
        → fresh ≡ its
        → ((process now accepts keeps e p r).shown ≡ e.shown ++ notices e p its)
          × ((process now accepts keeps e p r).cursor
              ≡ (if is_empty its then e.cursor else next_cursor r.latest_at its))
    process-shown [] h = rw (process_idle h) (ground (arith, append-nil e.shown), refl)
    process-shown (it ∷ its) h =
        rw (process_busy it its h)
          (advance-Fired e p (it ∷ its) _ _ (fire_all-Fired e p (it ∷ its) logs) (cursors _))

    pub tick_finish-notices :
        (tick_finish now accepts keeps e p (some r)).shown ≡ e.shown ++ notices e p fresh
    unfolding tick_finish
    tick_finish-notices = (process-shown fresh refl).0

    tick_finish-cursor :
        (tick_finish now accepts keeps e p (some r)).cursor
        ≡ (if is_empty fresh then e.cursor else next_cursor r.latest_at fresh)
    unfolding tick_finish
    tick_finish-cursor = (process-shown fresh refl).1

-- No item of the list is newer than the cursor.
abbrev pub IsCovered : ℕ → List ActivityItem → Type 0
IsCovered c its = All (λ it. it.created_at ≤ c) its

none_newer :
    (c : ℕ) (its : List ActivityItem)
    → IsCovered c its
    → filter (λ it. ltb c it.created_at) its ≡ []
none_newer c [] h = refl
none_newer c (it ∷ its) (e, h) = ground (arith, none_newer c its h)

fresh_items_covered : (c : ℕ) (its : List ActivityItem) → IsCovered c its → fresh_items c its ≡ []
unfolding fresh_items sort_by
fresh_items_covered c its h = rw (none_newer c its h)

IsCovered-weaken : (c n : ℕ) (its : List ActivityItem) → c ≤ n → IsCovered c its → IsCovered n its
IsCovered-weaken c n [] h k = tt
IsCovered-weaken c n (it ∷ its) h (e, k) = (omega arith, IsCovered-weaken c n its h k)

next_cursor-suc : (latest : ℕ) (its : List ActivityItem) → next_cursor (suc latest) its ≡ suc latest
unfolding next_cursor
next_cursor-suc latest its = ground arith

-- The cursor behind a tick leaves no item of the same answer fresh.
next_fresh :
    (c latest : ℕ) (its newer : List ActivityItem)
    → fresh_items c its ≡ newer
    → IsCovered latest its
    → fresh_items (if is_empty newer then c else next_cursor latest newer) its ≡ []
next_fresh c latest its [] h k = h
next_fresh c zero its (it ∷ newer) h k =
    cc (fresh_items_covered c its (IsCovered-weaken 0 c its (omega arith) k))
next_fresh c (suc latest) its (it ∷ newer) h k =
    rw (next_cursor-suc latest (it ∷ newer)) (fresh_items_covered (suc latest) its k)

-- The cursor behind a tick is not 0.
next_cursor-pos :
    (c latest : ℕ) (its newer : List ActivityItem)
    → 0 < c
    → fresh_items c its ≡ newer
    → IsCovered latest its
    → 0 < (if is_empty newer then c else next_cursor latest newer)
unfolding next_cursor
next_cursor-pos c latest its [] p h k = p
next_cursor-pos c zero its (it ∷ newer) p h k =
    absurd (cc (fresh_items_covered c its (IsCovered-weaken 0 c its (omega arith) k)))
next_cursor-pos c (suc latest) its (it ∷ newer) p h k = ground arith

module _ (now later : ℕ) (accepts : Json → Bool) (keeps : ℕ → Bool) where
  -- With a cursor stored and a storage that takes what is written, an answer whose `latest_at`
  -- covers its items notifies once: when the next tick gets the same answer again, it shows
  -- nothing more.
  pub tick_finish_again :
      (e : Engine) (p q : NotifyPrefs) (r : ActivityResp)
      → ((v : Json) → accepts v ≡ true)
      → ((c : ℕ) → keeps c ≡ true)
      → 0 < e.cursor
      → IsCovered r.latest_at r.items
      → (tick_finish later accepts keeps
          (tick_finish now accepts keeps e p (some r))
          q
          (some r)).shown
        ≡ (tick_finish now accepts keeps e p (some r)).shown
  tick_finish_again e p q r logs cursors running covered =
      let e' = tick_finish now accepts keeps e p (some r) in
      let moved = tick_finish-cursor now accepts keeps e p r logs cursors running in
      let again : fresh_items e'.cursor r.items ≡ [] =
        rw moved (next_fresh e.cursor r.latest_at r.items _ refl covered) in
      let pos : 0 < e'.cursor =
        rw moved (next_cursor-pos e.cursor r.latest_at r.items _ running refl covered) in
      tick_finish-notices later accepts keeps e' q r logs cursors pos
      ∙ rw again (ground (arith, append-nil e'.shown))
