-- ===== src/NotifyEngine/Due.antt =====
-- Which items one tick of web/lib/notifyEngine.ts notifies of, and in which order.
use mathlib.Core.List.{Perm}
use clawhum.Prelude.{
  ℕ, ◌≤◌, ◌<◌, Bool, true, false, ◌&&◌, some, List, [], ◌∷◌, ◌++◌, map, if◌then◌else◌, ltb, filter,
  is_empty, All, IsSelection, filter-IsSelection, ◌≡◌, ◌↔◌, refl, sym, ◌∙◌, ap, arith,
}
use clawhum.Prelude.Text.{codes}
use clawhum.Prelude.Sort.{IsSorted, sort_by-IsSorted, filter-IsSorted, filter-sort_by-perm}
use clawhum.Json.{Json}
use clawhum.NotifyPrefs.{NotifyKind, match_kind, delivery_kind, NotifyPrefs}
use clawhum.NotifyEngine.{
  ActivityItem, ActivityResp, Shown, Engine, kind_wanted, should_fire, item_title, item_body,
  notification, by_age, fresh_items, tick_finish,
}
use clawhum.NotifyEngine.Firing.{tick_finish-notices}

-- The user has asked for items of this kind.
abbrev pub IsWanted : NotifyPrefs → NotifyKind → Type 0
IsWanted p match_kind = p.kinds.match ≡ true
IsWanted p delivery_kind = p.kinds.delivery ≡ true

-- An item that is to be notified of.
pub record IsDue (e : Engine) (p : NotifyPrefs) (it : ActivityItem) : Type 0 where
  pub newer : e.cursor < it.created_at
  pub enabled : p.enabled ≡ true
  pub wanted : IsWanted p it.kind
  pub allowed : (p.only_when_hidden && e.visible) ≡ false

-- The oldest item first.
abbrev pub IsChronological : List ActivityItem → Type 0
IsChronological [] = Unit
IsChronological (it ∷ its) =
    All (λ (x : ActivityItem). it.created_at ≤ x.created_at) its × IsChronological its

-- What the user reads for an item.
abbrev pub notice : ActivityItem → Shown
notice it = record {
  title = elim it.kind [
    | match_kind ↦ codes "clawhum: " ++ it.title
    | delivery_kind ↦ codes "webhook: " ++ it.title
  ];
  body =
      if is_empty it.subtitle then (if it.ok then codes "ok" else codes "failed") else it.subtitle;
  tag = codes "clawhum-" ++ it.id;
}

map-notice : (its : List ActivityItem) → map notification its ≡ map notice its
unfolding notification item_title item_body
map-notice [] = refl
map-notice (it ∷ its) = ap (λ ns. notice it ∷ ns) (map-notice its)

kind_wanted_iff : (p : NotifyPrefs) (k : NotifyKind) → (kind_wanted p k ≡ true) ↔ IsWanted p k
unfolding kind_wanted
kind_wanted_iff p match_kind = (λ h. h, λ h. h)
kind_wanted_iff p delivery_kind = (λ h. h, λ h. h)

abbrev is_due : Engine → NotifyPrefs → ActivityItem → Bool
is_due e p it = ltb e.cursor it.created_at && should_fire e.visible p it

is_due_iff :
    (e : Engine) (p : NotifyPrefs) (it : ActivityItem) → (is_due e p it ≡ true) ↔ IsDue e p it
unfolding should_fire
is_due_iff e p it = (
  λ h. record {
    newer = ground (arith, h);
    enabled = ground (arith, h);
    wanted = (kind_wanted_iff p it.kind).0 (ground (arith, h));
    allowed = ground (arith, h);
  },
  λ d. ground (arith, d.newer, d.enabled, (kind_wanted_iff p it.kind).1 d.wanted, d.allowed),
)

-- The items that the loop lets through, of those that are fresh.
abbrev fired : Engine → NotifyPrefs → List ActivityItem → List ActivityItem
fired e p items = filter (should_fire e.visible p) (fresh_items e.cursor items)

filter-twice :
    (q r : ActivityItem → Bool) (its : List ActivityItem)
    → filter r (filter q its) ≡ filter (λ it. q it && r it) its
filter-twice q r [] = refl
filter-twice q r (it ∷ its) = ground (arith, filter-twice q r its)

fired-Perm :
    (e : Engine) (p : NotifyPrefs) (items : List ActivityItem)
    → Perm (fired e p items) (filter (is_due e p) items)
unfolding fresh_items
fired-Perm e p items =
    let newer = filter (λ (it : ActivityItem). ltb e.cursor it.created_at) items in
    rw (sym (filter-twice (λ it. ltb e.cursor it.created_at) (should_fire e.visible p) items))
      (filter-sort_by-perm by_age (should_fire e.visible p) newer)

by_age_total : (x y : ActivityItem) → by_age x y ≡ false → by_age y x ≡ true
by_age_total x y h = ground (arith, h)

by_age_trans : (x y z : ActivityItem) → by_age x y ≡ true → by_age y z ≡ true → by_age x z ≡ true
by_age_trans x y z h k = ground (arith, h, k)

later :
    (it : ActivityItem) (its : List ActivityItem)
    → All (λ x. by_age it x ≡ true) its
    → All (λ (x : ActivityItem). it.created_at ≤ x.created_at) its
later it [] h = tt
later it (x ∷ its) (h, hs) = (ground (arith, h), later it its hs)

chronological : (its : List ActivityItem) → IsSorted by_age its → IsChronological its
chronological [] h = tt
chronological (it ∷ its) (h, hs) = (later it its h, chronological its hs)

fired-IsChronological :
    (e : Engine) (p : NotifyPrefs) (items : List ActivityItem) → IsChronological (fired e p items)
unfolding fresh_items
fired-IsChronological e p items = chronological (fired e p items) (
    filter-IsSorted by_age (should_fire e.visible p) _
      (sort_by-IsSorted by_age by_age_total by_age_trans _))

-- With a cursor stored and a storage that takes what is written, a tick notifies, behind what it had
-- shown, of exactly the items of the answer that are newer than the cursor and of a wanted kind, while
-- notifications are on and are not held back because the page is visible. It does so the oldest first,
-- each with its title by its kind, its subtitle or its outcome, and its id in the tag; and of none if
-- notifications are not permitted.
pub tick_finish-shown :
    (now : ℕ) (accepts : Json → Bool) (keeps : ℕ → Bool) (e : Engine) (p : NotifyPrefs)
    (r : ActivityResp)
    → ((v : Json) → accepts v ≡ true)
    → ((c : ℕ) → keeps c ≡ true)
    → 0 < e.cursor
    → (due its : List ActivityItem) × IsSelection (IsDue e p) r.items due
      × Perm its due
      × IsChronological its
      × ((tick_finish now accepts keeps e p (some r)).shown
          ≡ e.shown ++ (if e.granted then map notice its else []))
tick_finish-shown now accepts keeps e p r logs cursors running = (
  filter (is_due e p) r.items,
  fired e p r.items,
  filter-IsSelection (IsDue e p) (is_due e p) (is_due_iff e p) r.items,
  fired-Perm e p r.items,
  fired-IsChronological e p r.items,
  tick_finish-notices now accepts keeps e p r logs cursors running
      ∙ ap (λ ns. e.shown ++ (if e.granted then ns else [])) (map-notice (fired e p r.items)),
)
