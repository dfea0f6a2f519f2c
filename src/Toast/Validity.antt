-- ===== src/Toast/Validity.antt =====
-- The invariant of the toast store, and what each operation of web/lib/toast.ts does to it.
use clawhum.Prelude.{
  ℕ, zero, suc, ◌+◌, ◌≤◌, ◌<◌, Bool, false, not, List, [], ◌∷◌, ◌++◌, map, if◌then◌else◌, any,
  filter, length, take, length-take, length-filter-le, ◌≡◌, refl, arith, Bool-cases, inl, inr,
}
use clawhum.Toast.{
  Toast, ToastId, ToastInput, Store, max_toasts, same_id, emit, subscribe, unsubscribe, new_toast,
  show_toast, dismiss_toast, clear_toasts, reset,
}

-- Newest first: the serial numbers fall along the list, all below `k`.
abbrev pub Falls : ℕ → List Toast → Type 0
Falls k [] = Unit
Falls k (t ∷ ts) = (t.id.serial < k) × Falls t.id.serial ts

pub record IsValid (s : Store) : Type 0 where
  pub bounded : length s.toasts ≤ max_toasts
  pub ordered : Falls s.counter s.toasts

Falls-weaken : (k n : ℕ) (ts : List Toast) → k ≤ n → Falls k ts → Falls n ts
Falls-weaken k n [] h f = tt
Falls-weaken k n (t ∷ ts) h (e, f) = (omega arith, f)

Falls-take : (n k : ℕ) (ts : List Toast) → Falls k ts → Falls k (take n ts)
Falls-take zero k ts f = tt
Falls-take (suc n) k [] f = tt
Falls-take (suc n) k (t ∷ ts) (e, f) = (e, Falls-take n t.id.serial ts f)

Falls-filter : (p : Toast → Bool) (k : ℕ) (ts : List Toast) → Falls k ts → Falls k (filter p ts)
Falls-filter p k [] f = tt
Falls-filter p k (t ∷ ts) (e, f) = elim (Bool-cases (p t)) [
  | inl c ↦ rw c (e, Falls-filter p t.id.serial ts f)
  | inr c ↦ rw c (Falls-weaken t.id.serial k _ (omega arith) (Falls-filter p t.id.serial ts f))
]

module _ (s : Store) (v : IsValid s) where
  show_toast-IsValid : (now : ℕ) (input : ToastInput) → IsValid (show_toast s now input).0
  unfolding show_toast new_toast
  show_toast-IsValid now input = record {
    bounded = omega (arith, length-take {0} 4 s.toasts);
    ordered = (omega arith, Falls-take 4 s.counter s.toasts v.ordered);
  }

  dismiss_toast-IsValid : (id : ToastId) → IsValid (dismiss_toast s id).0
  unfolding dismiss_toast
  dismiss_toast-IsValid id = ground (
    arith,
    length-filter-le (λ (t : Toast). not (same_id t.id id)) s.toasts,
    Falls-filter (λ (t : Toast). not (same_id t.id id)) s.counter s.toasts v.ordered,
  )

  clear_toasts-IsValid : IsValid (clear_toasts s)
  unfolding clear_toasts
  clear_toasts-IsValid = ground arith

  -- Every operation keeps at most five toasts, whose serial numbers fall from the newest to the
  -- oldest and stay below the counter; so no two toasts on screen have one id.
  pub operations-IsValid :
      ((now : ℕ) (input : ToastInput) → IsValid (show_toast s now input).0)
      × ((id : ToastId) → IsValid (dismiss_toast s id).0)
      × IsValid (clear_toasts s)
      × IsValid (reset s)
      × ((l : ℕ) → IsValid (subscribe s l))
      × ((l : ℕ) → IsValid (unsubscribe s l))
  unfolding reset subscribe unsubscribe
  operations-IsValid = (
    show_toast-IsValid,
    dismiss_toast-IsValid,
    clear_toasts-IsValid,
    omega arith,
    (λ l. record { bounded = v.bounded; ordered = v.ordered }),
    (λ l. record { bounded = v.bounded; ordered = v.ordered }),
  )

-- No toast below the serial number `k` has the id of a toast at or above it.
Falls-apart :
    (id : ToastId) (k : ℕ) (ts : List Toast)
    → Falls k ts
    → k ≤ id.serial
    → any (λ t. same_id t.id id) ts ≡ false
Falls-apart id k [] f h = refl
Falls-apart id k (t ∷ ts) (e, f) h =
    let rest = Falls-apart id t.id.serial ts f (omega arith) in ground arith

keep_all :
    (id : ToastId) (ts : List Toast)
    → any (λ t. same_id t.id id) ts ≡ false
    → filter (λ t. not (same_id t.id id)) ts ≡ ts
keep_all id [] h = refl
keep_all id (t ∷ ts) h = ground (arith, keep_all id ts)

-- At most one toast has the id.
length-dismissed :
    (id : ToastId) (k : ℕ) (ts : List Toast)
    → Falls k ts
    → length (filter (λ t. not (same_id t.id id)) ts)
        + (if any (λ t. same_id t.id id) ts then 1 else 0)
      ≡ length ts
length-dismissed id k [] f = refl
length-dismissed id k (t ∷ ts) (e, f) = elim (Bool-cases (same_id t.id id)) [
  | inl c ↦
      let apart = Falls-apart id t.id.serial ts f (ground arith) in
      rw (c, keep_all id ts apart) (omega arith)
  | inr c ↦ rw c (omega (arith, length-dismissed id t.id.serial ts f))
]

-- Dismissing an id of a valid store answers whether a toast has it; it removes that one toast, leaves
-- the others in their order and shows the new list to every listener, or else changes nothing.
pub dismiss_toast-one :
    (s : Store) (id : ToastId)
    → IsValid s
    → ((dismiss_toast s id).1 ≡ any (λ t. same_id t.id id) s.toasts)
      × ((dismiss_toast s id).0.toasts ≡ filter (λ t. not (same_id t.id id)) s.toasts)
      × (length (dismiss_toast s id).0.toasts + (if (dismiss_toast s id).1 then 1 else 0)
          ≡ length s.toasts)
      × ((dismiss_toast s id).0.delivered ≡ (
          if (dismiss_toast s id).1
          then s.delivered ++ map (λ l. (l, (dismiss_toast s id).0.toasts)) s.listeners
          else s.delivered))
unfolding dismiss_toast emit
dismiss_toast-one s id v =
    ground (arith, length-dismissed id s.counter s.toasts v.ordered, keep_all id s.toasts)
