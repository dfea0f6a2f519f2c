-- ===== src/NotifyEngine.antt =====
-- web/lib/notifyEngine.ts: the poll of the activity feed that fires notifications.
-- `tick` is split at its `await`: `tick_begin` runs up to the fetch, `tick_finish` from the answer on,
-- and `waiting` holds the preferences that the ticks between the two have read.
pub mod Firing
pub mod Due
pub mod Runs
use clawhum.Prelude.{
  ℕ, zero, suc, ◌+◌, Bool, true, false, not, ◌&&◌, ◌||◌, Option, none, some, List, [], ◌∷◌, ◌++◌,
  if◌then◌else◌, ◌==◌, ltb, leb, filter, is_empty,
}
use clawhum.Prelude.Text.{Text, codes}
use clawhum.Prelude.Sort.{sort_by}
use clawhum.Json.{Json}
use clawhum.NotifyPrefs.{
  NotifyKind, match_kind, delivery_kind, NotifyPrefs, FiredEntry, Device, load_prefs, append_fired,
}

pub record ActivityItem : Type 0 where
  pub id : Text
  pub kind : NotifyKind
  pub title : Text
  pub subtitle : Text
  pub ok : Bool
  pub created_at : ℕ
  pub href : Text

-- `latest_at` is 0 where it is missing.
pub record ActivityResp : Type 0 where
  pub items : List ActivityItem
  pub latest_at : ℕ

-- A browser notification, with the id in its tag.
pub record Shown : Type 0 where
  pub title : Text
  pub body : Text
  pub tag : Text

pub record Engine : Type 0 where
  pub device : Device
  pub cursor : ℕ
  pub visible : Bool
  pub granted : Bool
  pub shown : List Shown
  pub pings : ℕ
  pub started : Bool
  pub inflight : Bool
  pub waiting : List NotifyPrefs

unfoldable pub kind_wanted : NotifyPrefs → NotifyKind → Bool
kind_wanted p match_kind = p.kinds.match
kind_wanted p delivery_kind = p.kinds.delivery

unfoldable pub should_fire : Bool → NotifyPrefs → ActivityItem → Bool
unfolding kind_wanted
should_fire visible p item =
    if not p.enabled
    then false
    else if not (kind_wanted p item.kind)
    then false
    else not (p.only_when_hidden && visible)

unfoldable pub item_title : ActivityItem → Text
item_title item = elim item.kind [
  | match_kind ↦ codes "clawhum: " ++ item.title
  | delivery_kind ↦ codes "webhook: " ++ item.title
]

-- `item.subtitle || (item.ok ? "ok" : "failed")`
unfoldable pub item_body : ActivityItem → Text
item_body item =
    if is_empty item.subtitle
    then (if item.ok then codes "ok" else codes "failed")
    else item.subtitle

unfoldable pub fired_entry : ℕ → ActivityItem → FiredEntry
fired_entry now item = record {
  id = item.id;
  kind = item.kind;
  title = item_title item;
  body = item_body item;
  at = now;
  href = item.href;
}

unfoldable pub notification : ActivityItem → Shown
notification item = record {
  title = item_title item;
  body = item_body item;
  tag = codes "clawhum-" ++ item.id;
}

abbrev pub by_age : ActivityItem → ActivityItem → Bool
by_age a b = leb a.created_at b.created_at

-- The items newer than the cursor, the oldest first.
unfoldable pub fresh_items : ℕ → List ActivityItem → List ActivityItem
fresh_items cursor items = sort_by by_age (filter (λ it. ltb cursor it.created_at) items)

unfoldable pub last_created : List ActivityItem → ℕ
last_created [] = 0
last_created (it ∷ []) = it.created_at
last_created (it ∷ it' ∷ its) = last_created (it' ∷ its)

-- `data.latest_at || fresh[fresh.length - 1].created_at`
unfoldable pub next_cursor : ℕ → List ActivityItem → ℕ
next_cursor latest fresh = if latest == 0 then last_created fresh else latest

-- `now` is the clock, `accepts` and `keeps` say whether `setItem` takes a log and a cursor.
module _ (now : ℕ) (accepts : Json → Bool) (keeps : ℕ → Bool) where
  -- `none`: `appendFired` threw.
  unfoldable pub fire_one : Engine → NotifyPrefs → ActivityItem → Option Engine
  fire_one e p item = elim (append_fired accepts e.device (fired_entry now item)) [
    | none ↦ none
    | some d ↦ some (record e {
      device = d;
      shown = if e.granted then e.shown ++ notification item ∷ [] else e.shown;
      pings = if p.sound then suc e.pings else e.pings;
    })
  ]

  -- The loop; the flag says that an item threw, and then the later ones were not reached.
  unfoldable pub fire_all : Engine → NotifyPrefs → List ActivityItem → Engine × Bool
  fire_all e p [] = (e, false)
  fire_all e p (it ∷ its) = elim (should_fire e.visible p it) [
    | false ↦ fire_all e p its
    | true ↦ elim (fire_one e p it) [ none ↦ (e, true) | some e' ↦ fire_all e' p its ]
  ]

  unfoldable pub set_cursor : Engine → ℕ → Engine
  set_cursor e c = if keeps c then record e { cursor = c } else e

  unfoldable pub tick_begin : Engine → Engine
  tick_begin e =
      if e.inflight
      then e
      else if not (load_prefs e.device).enabled
      then e
      else record e { inflight = true; waiting = e.waiting ++ load_prefs e.device ∷ [] }

  -- Behind the loop: the cursor is set unless an item threw.
  abbrev pub advance : Engine × Bool → ℕ → Engine
  advance (e, true) c = e
  advance (e, false) c = set_cursor e c

  unfoldable pub process : Engine → NotifyPrefs → ActivityResp → Engine
  process e p r =
      let fresh = fresh_items e.cursor r.items in
      if is_empty fresh
      then (if (e.cursor == 0) && not (r.latest_at == 0) then set_cursor e r.latest_at else e)
      else if e.cursor == 0
      then set_cursor e (next_cursor r.latest_at fresh)
      else advance (fire_all e p fresh) (next_cursor r.latest_at fresh)

  abbrev pub settle : Engine → Engine
  settle e = record e { inflight = false }

  -- `none`: the fetch failed, or its answer was refused or could not be read.
  unfoldable pub tick_finish : Engine → NotifyPrefs → Option ActivityResp → Engine
  tick_finish e p none = settle e
  tick_finish e p (some r) = settle (process e p r)

  unfoldable pub start_engine : Engine → Engine
  start_engine e = if e.started then e else tick_begin (record e { started = true })

  unfoldable pub stop_engine : Engine → Engine
  stop_engine e = record e { started = false }
