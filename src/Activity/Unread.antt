-- ===== src/Activity/Unread.antt =====
-- When the unread badge of web/components/SiteNav.tsx is on.
use clawhum.Prelude.{ℕ, ◌≤◌, ◌<◌, true, false, List, [], ◌∷◌, ltb, All, ◌≡◌, arith}
use clawhum.Activity.{Badge, get_last_seen, check, mark_seen, FeedEvent, polled, shown, run_events}

abbrev pub latest_of : FeedEvent → ℕ
latest_of (polled n) = n
latest_of (shown n) = n

-- Everything up to `n` is seen, and the badge is off.
abbrev IsQuiet : ℕ → Badge → Type 0
IsQuiet n b = (b.usable ≡ true) × (n ≤ get_last_seen b) × (b.unread ≡ false)

check-IsQuiet : (n m : ℕ) (b : Badge) → m ≤ n → IsQuiet n b → IsQuiet n (check m b)
unfolding check get_last_seen
check-IsQuiet n m b l h = ground (arith, h)

mark_seen-IsQuiet : (n m : ℕ) (b : Badge) → IsQuiet n b → IsQuiet n (mark_seen m b)
unfolding mark_seen get_last_seen
mark_seen-IsQuiet n m b h = ground (arith, h)

IsQuiet-run_events :
    (n : ℕ) (es : List FeedEvent) (b : Badge)
    → All (λ e. latest_of e ≤ n) es
    → IsQuiet n b
    → IsQuiet n (run_events es b)
unfolding run_events
IsQuiet-run_events n [] b a h = h
IsQuiet-run_events n (polled m ∷ es) b (l, a) h =
    IsQuiet-run_events n es (check m b) a (check-IsQuiet n m b l h)
IsQuiet-run_events n (shown m ∷ es) b (l, a) h =
    IsQuiet-run_events n es (mark_seen m b) a (mark_seen-IsQuiet n m b h)

mark_seen-newer :
    (n : ℕ) (b : Badge) → b.usable ≡ true → get_last_seen b < n → IsQuiet n (mark_seen n b)
unfolding mark_seen get_last_seen
mark_seen-newer n b u l = ground (arith, u, l)

check-unread :
    (n m : ℕ) (b : Badge)
    → 1 ≤ n
    → n ≤ get_last_seen b
    → (check m b).unread ≡ ltb (get_last_seen b) m
unfolding check
check-unread n m b k l = ground (arith, k, l)

-- Where the storage works: once the activity page has shown a feed that is newer than what was seen
-- before, polls and visits that find nothing newer than it leave the badge off, in any order; and
-- then a poll turns it on exactly when it finds something newer than all that was seen.
pub run_events-quiet :
    (n m : ℕ) (es : List FeedEvent) (b : Badge)
    → b.usable ≡ true
    → get_last_seen b < n
    → All (λ e. latest_of e ≤ n) es
    → let b' = run_events es (mark_seen n b) in
      (b'.unread ≡ false)
      × (n ≤ get_last_seen b')
      × ((check m b').unread ≡ ltb (get_last_seen b') m)
run_events-quiet n m es b u l a =
    let quiet = IsQuiet-run_events n es (mark_seen n b) a (mark_seen-newer n b u l) in
    (quiet.2, quiet.1, check-unread n m (run_events es (mark_seen n b)) (omega (arith, l)) quiet.1)
