-- ===== src/Toast.antt =====
-- web/lib/toast.ts: the toast store.
-- `Store` holds the module's variables `counter`, `toasts` and `listeners`; a listener is a number, and
-- `delivered` records the calls of listeners, the latest last. `now` is the clock's reading;
-- `showToast` reads it twice, and one reading stands for both.
pub mod Dashes
pub mod Validity
use clawhum.Prelude.{
  ℕ, suc, ◌+◌, Bool, true, false, not, ◌&&◌, ◌||◌, Option, none, some, List, [], ◌∷◌, ◌++◌, map,
  if◌then◌else◌, ◌==◌, any, filter, length, take, is_empty, or_else,
}
use clawhum.Prelude.Text.{Text}

pub data ToastVariant : Type 0 where
  info success warning error : ToastVariant

-- The two numbers that the text `t_<time>_<serial>` spells in base 36.
pub record ToastId : Type 0 where
  pub time : ℕ
  pub serial : ℕ

-- `action` is the label of the action's button.
pub record Toast : Type 0 where
  pub id : ToastId
  pub variant : ToastVariant
  pub title : Text
  pub description : Option Text
  pub duration_ms : ℕ
  pub created_at : ℕ
  pub action : Option Text

pub record ToastInput : Type 0 where
  pub variant : Option ToastVariant
  pub title : Text
  pub description : Option Text
  pub duration_ms : Option ℕ
  pub action : Option Text

pub record Store : Type 0 where
  pub counter : ℕ
  pub toasts : List Toast
  pub listeners : List ℕ
  pub delivered : List (ℕ × List Toast)

unfoldable pub default_durations : ToastVariant → ℕ
default_durations info = 4000
default_durations success = 3500
default_durations warning = 6000
default_durations error = 8000

abbrev pub max_toasts : ℕ
max_toasts = 5

-- `s.replace(/\u2014/g, ", ")`
unfoldable pub replace_em : Text → Text
replace_em [] = []
replace_em (c ∷ s) = let rest = replace_em s in if c == 0x2014 then b',' ∷ b' ' ∷ rest else c ∷ rest

-- `s.replace(/\u2013/g, "-")`
unfoldable pub replace_en : Text → Text
replace_en [] = []
replace_en (c ∷ s) = let rest = replace_en s in if c == 0x2013 then b'-' ∷ rest else c ∷ rest

unfoldable pub strip_em_dash : Text → Text
unfolding replace_em replace_en
strip_em_dash s = replace_en (replace_em s)

abbrev pub same_id : ToastId → ToastId → Bool
same_id a b = (a.time == b.time) && (a.serial == b.serial)

-- `emit`: every listener is called with a copy of the toasts.
unfoldable pub emit : Store → Store
emit s = record s { delivered = s.delivered ++ map (λ l. (l, s.toasts)) s.listeners }

unfoldable pub subscribe : Store → ℕ → Store
subscribe s l = record s {
  listeners = if any (λ k. k == l) s.listeners then s.listeners else s.listeners ++ l ∷ [];
  delivered = s.delivered ++ (l, s.toasts) ∷ [];
}

unfoldable pub unsubscribe : Store → ℕ → Store
unsubscribe s l = record s { listeners = filter (λ k. not (k == l)) s.listeners }

-- `input.description ? stripEmDash(input.description) : undefined`
unfoldable pub described : Option Text → Option Text
described none = none
described (some []) = none
described (some (c ∷ s)) = some (strip_em_dash (c ∷ s))

unfoldable pub new_toast : ℕ → ℕ → ToastInput → Toast
unfolding default_durations strip_em_dash described
new_toast now serial input = record {
  id = record { time = now; serial = serial };
  variant = or_else input.variant info;
  title = strip_em_dash input.title;
  description = described input.description;
  duration_ms = or_else input.duration_ms (default_durations (or_else input.variant info));
  created_at = now;
  action = input.action;
}

unfoldable pub get_toasts : Store → List Toast
get_toasts s = s.toasts

unfoldable pub show_toast : Store → ℕ → ToastInput → Store × Toast
unfolding emit
show_toast s now input =
    let t = new_toast now s.counter input in
    (emit (record s { counter = suc s.counter; toasts = take max_toasts (t ∷ s.toasts) }), t)

unfoldable pub dismiss_toast : Store → ToastId → Store × Bool
unfolding emit
dismiss_toast s id =
    let next = filter (λ t. not (same_id t.id id)) s.toasts in
    if length next == length s.toasts then (s, false) else (emit (record s { toasts = next }), true)

unfoldable pub clear_toasts : Store → Store
unfolding emit
clear_toasts s = if is_empty s.toasts then s else emit (record s { toasts = [] })

unfoldable pub reset : Store → Store
reset s = record s { counter = 0; toasts = []; listeners = [] }

-- `toast.info`, `toast.success`, `toast.warning` and `toast.error`.
unfoldable pub toast : ToastVariant → Store → ℕ → Text → ToastInput → Store × Toast
unfolding show_toast
toast v s now title opts = show_toast s now (record opts { variant = some v; title = title })
