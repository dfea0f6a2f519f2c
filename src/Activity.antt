-- ===== src/Activity.antt =====
-- The unread badge: getLastSeen of web/lib/activity.ts, the effect of web/app/activity/page.tsx that
-- marks the feed as seen, and useUnreadActivity of web/components/SiteNav.tsx, with the events
-- between the two pages.
pub mod Unread
use clawhum.Prelude.{
  ℕ, Bool, true, false, not, ◌&&◌, ◌||◌, Option, none, some, List, [], ◌∷◌, if◌then◌else◌, ltb,
  filter, or_else, is_empty,
}
use clawhum.Prelude.Text.{Text, trim, lower, includes}

pub data FeedKind : Type 0 where
  match_item delivery_item : FeedKind

pub record FeedItem : Type 0 where
  pub id : Text
  pub kind : FeedKind
  pub title : Text
  pub subtitle : Text
  pub ok : Bool
  pub created_at : ℕ
  pub href : Text

-- `cursor` is the entry of localStorage, and `usable` whether the storage can be read and written (the
-- code catches what it throws).
pub record Badge : Type 0 where
  pub usable : Bool
  pub cursor : Option ℕ
  pub unread : Bool

unfoldable pub get_last_seen : Badge → ℕ
get_last_seen b = if b.usable then or_else b.cursor 0 else 0

-- `check`, with the `latest_at` of an answer that is ok; any other answer changes nothing.
unfoldable pub check : ℕ → Badge → Badge
unfolding get_last_seen
check latest b = record b { unread = ltb 0 latest && ltb (get_last_seen b) latest }

-- The effect of the activity page on its data: the event that it dispatches clears the badge.
unfoldable pub mark_seen : ℕ → Badge → Badge
mark_seen latest b =
    if not (ltb 0 latest) || not b.usable
    then b
    else if ltb (or_else b.cursor 0) latest
    then record b { cursor = some latest; unread = false }
    else b

-- What happens to the badge: the navigation polls, or the activity page shows a feed.
pub data FeedEvent : Type 0 where
  polled : ℕ → FeedEvent
  shown : ℕ → FeedEvent

unfoldable pub run_events : List FeedEvent → Badge → Badge
unfolding check mark_seen
run_events [] b = b
run_events (polled latest ∷ es) b = run_events es (check latest b)
run_events (shown latest ∷ es) b = run_events es (mark_seen latest b)

-- The feed under a search text.
unfoldable pub filter_feed : Text → List FeedItem → List FeedItem
filter_feed q items =
    let needle = lower (trim q) in
    if is_empty needle
    then items
    else filter
        (λ (i : FeedItem). includes (lower i.title) needle || includes (lower i.subtitle) needle)
        items
