-- ===== src/Tests/Toast.antt =====
-- The toast store of web/lib/toast.ts on concrete inputs.
use clawhum.Prelude.{ℕ, none, [], ◌∷◌, ◌≡◌, refl, arith}
use clawhum.Prelude.Text.{codes}
use clawhum.Toast.{
  ToastId, ToastInput, Store, Toast, show_toast, dismiss_toast, clear_toasts, reset, subscribe,
  unsubscribe, info,
}
use clawhum.Toast.Validity.{IsValid, operations-IsValid}

abbrev bubble : ℕ → ℕ → Toast
bubble now serial = record {
  id = record { time = now; serial = serial };
  variant = info;
  title = codes "saved";
  description = none;
  duration_ms = 4000;
  created_at = now;
  action = none;
}

abbrev two_shown : Store
two_shown = record {
  counter = 3;
  toasts = bubble 20 2 ∷ bubble 10 0 ∷ [];
  listeners = 1 ∷ 4 ∷ [];
  delivered = [];
}

two_shown-IsValid : IsValid two_shown
two_shown-IsValid = record { bounded = omega arith; ordered = (omega arith, (omega arith, tt)) }

operations-IsValid_example :
    ((now : ℕ) (input : ToastInput) → IsValid (show_toast two_shown now input).0)
    × ((id : ToastId) → IsValid (dismiss_toast two_shown id).0)
    × IsValid (clear_toasts two_shown)
    × IsValid (reset two_shown)
    × ((l : ℕ) → IsValid (subscribe two_shown l))
    × ((l : ℕ) → IsValid (unsubscribe two_shown l))
operations-IsValid_example = operations-IsValid two_shown two_shown-IsValid

abbrev old_id : ToastId
old_id = record { time = 10; serial = 0 }

dismissed_old : (dismiss_toast two_shown old_id).0.toasts ≡ bubble 20 2 ∷ []
unfolding dismiss_toast
dismissed_old = refl
