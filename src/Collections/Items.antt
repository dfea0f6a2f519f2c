-- ===== src/Collections/Items.antt =====
-- The items in the editor of web/app/collections/page.tsx.
use clawhum.Prelude.{
  ℕ, zero, suc, ◌≤◌, ◌<◌, Bool, false, List, [], ◌∷◌, length, is_empty, filter, get_elem?, ◌≡◌, ◌∙◌,
  refl, ap, arith, length-append,
}
use clawhum.Prelude.Text.{Text}
use clawhum.Collections.{
  CollectionItem, HistoryItem, Editor, Direction, up, down, max_items, history_to_item,
  add_from_history, drop_at, remove_item, swap_at, move_item, rename_at, rename_item,
}

module _ {ℓ} {A : Type ℓ} where
  count-swap_at :
      (f : A → Bool) (i : ℕ) (xs : List A) → length (filter f (swap_at i xs)) ≡ length (filter f xs)
  count-swap_at f i [] = refl
  count-swap_at f zero (x ∷ []) = refl
  count-swap_at f zero (x ∷ y ∷ xs) = ground arith
  count-swap_at f (suc i) (x ∷ xs) = ground (arith, count-swap_at f i xs)

  length-swap_at : (i : ℕ) (xs : List A) → length (swap_at i xs) ≡ length xs
  length-swap_at i [] = refl
  length-swap_at zero (x ∷ []) = refl
  length-swap_at zero (x ∷ y ∷ xs) = refl
  length-swap_at (suc i) (x ∷ xs) = ap suc (length-swap_at i xs)

  swap_at_twice : (i : ℕ) (xs : List A) → swap_at i (swap_at i xs) ≡ xs
  swap_at_twice i [] = refl
  swap_at_twice zero (x ∷ []) = refl
  swap_at_twice zero (x ∷ y ∷ xs) = refl
  swap_at_twice (suc i) (x ∷ xs) = ap (λ l. x ∷ l) (swap_at_twice i xs)

  get-swap_at :
      (i : ℕ) (xs : List A)
      → suc i < length xs
      → (get_elem? (swap_at i xs) i ≡ get_elem? xs (suc i))
        × (get_elem? (swap_at i xs) (suc i) ≡ get_elem? xs i)
  get-swap_at zero (x ∷ y ∷ xs) h = (refl, refl)
  get-swap_at (suc i) (x ∷ xs) h = get-swap_at i xs (omega arith)
  get-swap_at i [] h = absurd (omega arith)
  get-swap_at zero (x ∷ []) h = absurd (omega arith)

  length-drop_at : (i : ℕ) (xs : List A) → length (drop_at i xs) ≤ length xs
  length-drop_at i [] = omega arith
  length-drop_at zero (x ∷ xs) = omega arith
  length-drop_at (suc i) (x ∷ xs) = omega (arith, length-drop_at i xs)

length-rename_at :
    (i : ℕ) (label : Text) (xs : List CollectionItem) → length (rename_at i label xs) ≡ length xs
length-rename_at i label [] = refl
length-rename_at zero label (x ∷ xs) = refl
length-rename_at (suc i) label (x ∷ xs) = ap suc (length-rename_at i label xs)

down-shape :
    (p : Editor) (i : ℕ)
    → suc i < length p.items
    → move_item i down p ≡ record p { items = swap_at i p.items }
unfolding move_item
down-shape p i h = ground arith

up-shape :
    (p : Editor) (i : ℕ)
    → i < length p.items
    → move_item (suc i) up p ≡ record p { items = swap_at i p.items }
unfolding move_item
up-shape p i h = ground arith

length-move_item :
    (i : ℕ) (dir : Direction) (p : Editor) → length (move_item i dir p).items ≡ length p.items
unfolding move_item
length-move_item zero up p = refl
length-move_item (suc i) up p = ground (arith, length-swap_at i p.items)
length-move_item i down p = ground (arith, length-swap_at i p.items)

-- Moving an item down and then up again, or up and then down, gives back the editor; a move keeps
-- the items and exchanges the item with the one it passes.
pub move_item-back :
    (p : Editor) (i : ℕ)
    → suc i < length p.items
    → let p' = move_item i down p in
      (move_item (suc i) up p' ≡ p)
      × (move_item (suc i) up p ≡ p')
      × (get_elem? p'.items i ≡ get_elem? p.items (suc i))
      × (get_elem? p'.items (suc i) ≡ get_elem? p.items i)
      × ((f : CollectionItem → Bool) → length (filter f p'.items) ≡ length (filter f p.items))
move_item-back p i h =
    rw (down-shape p i h, up-shape p i (omega arith))
      (
        up-shape (record p { items = swap_at i p.items }) i
              (omega (arith, length-swap_at i p.items))
            ∙ ap (λ (l : List CollectionItem). record p { items = l }) (swap_at_twice i p.items),
        refl,
        (get-swap_at i p.items h).0,
        (get-swap_at i p.items h).1,
        λ f. count-swap_at f i p.items,
      )

-- No operation on the items takes them over the limit, and at the limit a further item is refused
-- and the items stay.
pub items-bounded :
    (number_text : ℕ → Text) (p : Editor) (h : HistoryItem) (idx : ℕ) (dir : Direction)
    (label : Text)
    → length p.items ≤ max_items
    → (length (add_from_history number_text h p).items ≤ max_items)
      × (length (remove_item idx p).items ≤ max_items)
      × (length (move_item idx dir p).items ≤ max_items)
      × (length (rename_item idx label p).items ≤ max_items)
unfolding add_from_history remove_item rename_item
items-bounded number_text p h idx dir label b = (
  ground (arith, length-append p.items (history_to_item h ∷ [])),
  omega (arith, length-drop_at idx p.items),
  omega (arith, length-move_item idx dir p),
  omega (arith, length-rename_at idx label p.items),
)

-- The label of an item that is taken from the history is never empty.
pub label-history_to_item : (h : HistoryItem) → is_empty (history_to_item h).label ≡ false
unfolding history_to_item
label-history_to_item h = ground arith
