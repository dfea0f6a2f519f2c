-- ===== src/History/Saving.antt =====
-- What `saveMatch` of web/lib/history.ts leaves in storage.
use clawhum.Prelude.{
  ℕ, zero, suc, ◌+◌, ◌-◌, ◌≤◌, ◌<◌, Bool, true, false, some, List, [], ◌∷◌, ◌++◌, map,
  if◌then◌else◌, length, find, take, take_of_length-le, length-take, length-map, ◌≡◌, refl, sym, ap,
  arith, Bool-cases, inl, inr, ltb, ltb→lt,
}
use clawhum.Prelude.Text.{text_eq_refl}
use clawhum.Model.{StoredMatch}
use clawhum.History.{
  Browser, max_matches, load_matches, pop, pop_excess, drop_waveform, history_post, save_match,
  get_match, has_id,
}

length-pop : (ms : List StoredMatch) → length (pop ms) ≡ length ms - 1
unfolding pop
length-pop [] = omega arith
length-pop (m ∷ []) = omega arith
length-pop (m ∷ n ∷ ms) = omega (arith, length-pop (n ∷ ms))

take-pop : (k : ℕ) (ms : List StoredMatch) → k < length ms → take k (pop ms) ≡ take k ms
unfolding pop
take-pop zero ms h = refl
take-pop (suc k) [] h = absurd (omega arith)
take-pop (suc k) (m ∷ []) h = absurd (omega arith)
take-pop (suc k) (m ∷ n ∷ ms) h = ap (λ l. m ∷ l) (take-pop k (n ∷ ms) (omega arith))

-- With enough fuel the loop keeps the first `MAX` matches.
pop_excess-take :
    (fuel : ℕ) (ms : List StoredMatch)
    → length ms ≤ fuel + max_matches
    → pop_excess fuel ms ≡ take max_matches ms
unfolding pop_excess
pop_excess-take zero ms h = sym (take_of_length-le max_matches ms (omega arith))
pop_excess-take (suc fuel) ms h = elim (Bool-cases (ltb max_matches (length ms))) [
  | inl over ↦ rw (
    over,
    pop_excess-take fuel (pop ms) (omega (arith, length-pop ms)),
    take-pop max_matches ms (ltb→lt _ _ over),
  )
  | inr fine ↦ rw (fine, take_of_length-le max_matches ms (ground arith))
]

-- The newest match first, then the stored ones, `MAX` in all.
abbrev pub latest : Browser → StoredMatch → List StoredMatch
latest b m = take max_matches (m ∷ load_matches b)

module _ (fits : List StoredMatch → Bool) (b : Browser) (m : StoredMatch)
    (window : b.window ≡ true) where
  -- With a window, `saveMatch` stores the new match before the old ones, cut to `MAX`; without
  -- their waveforms where storage refuses that list; and nothing where it refuses both. It posts
  -- the match to the server in every case.
  pub load-save_match :
      (load_matches (save_match fits b m) ≡ (
        if fits (latest b m)
        then (latest b m)
        else if fits (map drop_waveform (latest b m))
        then map drop_waveform (latest b m)
        else load_matches b))
      × ((save_match fits b m).posted ≡ b.posted ++ history_post m ∷ [])
  unfolding save_match load_matches
  load-save_match =
      ground
        (arith, pop_excess-take (suc (length (load_matches b))) (m ∷ load_matches b) (omega arith))

  length-latest : length (latest b m) ≤ max_matches
  length-latest = omega (arith, length-take {0} max_matches (m ∷ load_matches b))

  -- A list that `setItem` may leave stored, whichever of the three it is.
  stored_bound :
      (k n : Bool) (old : List StoredMatch)
      → length old ≤ max_matches
      → length (if k then (latest b m) else if n then map drop_waveform (latest b m) else old)
        ≤ max_matches
  stored_bound true n old h = length-latest
  stored_bound false true old h = rw (length-map (latest b m) drop_waveform) length-latest
  stored_bound false false old h = h

  -- With a window, saving to a stored list within `MAX` keeps it within `MAX`.
  pub length-save_match :
      length (load_matches b) ≤ max_matches
      → length (load_matches (save_match fits b m)) ≤ max_matches
  length-save_match h = rw (load-save_match.0) (stored_bound _ _ (load_matches b) h)

  -- With a window and a storage that accepts the new list without its waveforms, a saved match is
  -- found again by its id, ahead of any older match of that id, and without its waveform if storage
  -- refuses the list with them.
  pub get-save_match :
      fits (map drop_waveform (latest b m)) ≡ true
      → get_match (save_match fits b m) m.query_id
        ≡ some (if fits (latest b m) then m else drop_waveform m)
  unfolding get_match
  get-save_match h = rw (load-save_match.0) (newest (fits (latest b m)))
    where
      newest :
          (k : Bool)
          → find (has_id m.query_id) (
              if k
              then (latest b m)
              else if fits (map drop_waveform (latest b m))
              then map drop_waveform (latest b m)
              else load_matches b)
            ≡ some (if k then m else drop_waveform m)
      newest true = rw (text_eq_refl m.query_id)
      newest false = rw (h, text_eq_refl m.query_id)
