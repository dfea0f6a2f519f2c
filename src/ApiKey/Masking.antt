-- ===== src/ApiKey/Masking.antt =====
-- What `maskKey` of web/lib/apiKey.ts shows of a key.
use clawhum.Prelude.{
  ◌-◌, ◌≤◌, ◌<◌, [], ◌∷◌, ◌++◌, length, length-append, drop, replicate, max, ◌≡◌, refl, arith,
}
use clawhum.Prelude.Text.{Text}
use clawhum.ApiKey.{mask_key}

drop-append : (s t : Text) → drop (length s) (s ++ t) ≡ t
drop-append [] t = refl
drop-append (c ∷ s) t = drop-append s t

-- Of a key longer than four units the mask shows the last four behind at least four stars, one for each
-- other unit if there are more; so it says nothing of the other units but their number.
pub mask_key-append :
    (s t : Text)
    → 0 < length s
    → length t ≡ 4
    → mask_key (s ++ t) ≡ replicate (max 4 (length s)) b'*' ++ t
unfolding mask_key
mask_key-append [] t h k = absurd (omega arith)
mask_key-append (c ∷ s) t h k =
    let n : length (s ++ t) - 3 ≡ length (c ∷ s) = omega (arith, length-append {0} s t) in
    ground (arith, length-append s t, drop-append (c ∷ s) t)

-- A key of at most four units is masked whole.
pub mask_key-short : (key : Text) → length key ≤ 4 → mask_key key ≡ replicate (length key) b'*'
unfolding mask_key
mask_key-short [] h = refl
mask_key-short (c ∷ key) h = ground arith
