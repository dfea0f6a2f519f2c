-- ===== src/Oembed/ShareUrl.antt =====
-- Which urls `parseShareUrl` of web/lib/oembed.ts takes for a share, and what it returns.
use mathlib.Core.Bool.{false≢true}
use mathlib.Core.List.{append-nil, append_assoc}
use clawhum.Prelude.{
  ℕ, zero, suc, ◌≤◌, ◌<◌, true, false, ◌||◌, Option, none, some, List, [], ◌∷◌, ◌++◌, ◌==◌, ltb,
  all, length, is_empty, replicate, All, ◌≡◌, ◌⊎◌, refl, ap, ◌∙◌, arith, Option-cases, inl, inr,
}
use clawhum.Prelude.Text.{Text, codes, text_eq, eq_iff, text_eq_refl}
use clawhum.Prelude.Uri.{
  is_alnum, is_unreserved, encode_uri_component, encode_uri_component-unreserved,
}
use clawhum.Oembed.Paths.{path_text, path_parts-shape}
use clawhum.Oembed.{
  is_share_char, is_share_id, ParsedShareUrl, Url, drop_slashes, split_slash, path_parts,
  share_of_parts, wrong_origin, share_of_url, parse_share_url,
}

share_char-unreserved : (c : ℕ) → is_share_char c ≡ true → is_unreserved c ≡ true
unfolding is_unreserved
share_char-unreserved c h = ground arith

share_char-ne-slash : (c : ℕ) → is_share_char c ≡ true → (c == b'/') ≡ false
unfolding is_alnum
share_char-ne-slash c h = ground arith

all-unreserved : (s : Text) → all is_share_char s ≡ true → All (λ c. is_unreserved c ≡ true) s
all-unreserved [] h = tt
all-unreserved (c ∷ s) h = (share_char-unreserved c (ground arith), all-unreserved s (ground arith))

-- A share id is its own encoding as a part of a url.
pub encode-share_id : (id : Text) → is_share_id id ≡ true → encode_uri_component id ≡ some id
unfolding is_share_id
encode-share_id id h = encode_uri_component-unreserved id (all-unreserved id (ground arith))

-- No origin is expected, or this one is; an empty text expects none.
abbrev pub IsExpected : Option Text → Text → Type 0
IsExpected none origin = Unit
IsExpected (some e) origin = (e ≡ []) ⊎ (origin ≡ e)

IsExpected-wrong_origin :
    (expected : Option Text) (origin : Text)
    → wrong_origin expected origin ≡ false
    → IsExpected expected origin
unfolding wrong_origin
IsExpected-wrong_origin none origin h = tt
IsExpected-wrong_origin (some []) origin h = inl refl
IsExpected-wrong_origin (some (c ∷ e)) origin h = inr (ground (arith, eq_iff origin (c ∷ e)))

-- The url that was read, and what was required of it.
pub record IsShareOf (parse_url : Text → Option Url) (raw : Text) (expected : Option Text)
    (p : ParsedShareUrl) : Type 0 where
  pub url : Url
  pub parsed : parse_url raw ≡ some url
  pub short : (0 < length raw) × (length raw ≤ 2048)
  pub scheme : (url.protocol ≡ codes "http:") ⊎ (url.protocol ≡ codes "https:")
  pub same_origin : p.origin ≡ url.origin
  pub expected_origin : IsExpected expected url.origin
  pub path :
      (a : ℕ) × ((b : ℕ) × ((k : ℕ) × (url.pathname ++ codes "/"
            ≡ path_text (codes "r") p.id a b (suc k))))
  pub canonical : is_share_id p.id ≡ true
  pub plain : encode_uri_component p.id ≡ some p.id

share_of_parts-some :
    (origin : Text) (parts : List Text) (p : ParsedShareUrl)
    → share_of_parts origin parts ≡ some p
    → (p.origin ≡ origin) × (parts ≡ codes "r" ∷ p.id ∷ []) × (is_share_id p.id ≡ true)
unfolding share_of_parts
share_of_parts-some origin (r ∷ id ∷ []) p h = ground (arith, eq_iff r (codes "r"))
share_of_parts-some origin [] p h = cc
share_of_parts-some origin (_ ∷ []) p h = cc
share_of_parts-some origin (_ ∷ _ ∷ _ ∷ _) p h = cc

share_of_url-some :
    (expected : Option Text) (u : Url) (p : ParsedShareUrl)
    → share_of_url expected u ≡ some p
    → ((u.protocol ≡ codes "http:") ⊎ (u.protocol ≡ codes "https:"))
      × (wrong_origin expected u.origin ≡ false)
      × (share_of_parts u.origin (path_parts u.pathname) ≡ some p)
unfolding share_of_url
share_of_url-some expected u p h =
    ground (arith, eq_iff u.protocol (codes "http:"), eq_iff u.protocol (codes "https:"))

raw_length :
    (raw : Text)
    → (is_empty raw || ltb 2048 (length raw)) ≡ false
    → (0 < length raw) × (length raw ≤ 2048)
raw_length [] h = cc
raw_length (c ∷ raw) h = ground arith

-- A url is taken for a share only if it is not longer than 2048 units, parses with the scheme http or
-- https and has the expected origin, where a nonempty one is expected, and if its path, but for
-- slashes at its ends and repeated ones, is `r/` and a canonical id; that id needs no encoding.
pub parse_share_url-IsShareOf :
    (parse_url : Text → Option Url) (raw : Text) (expected : Option Text) (p : ParsedShareUrl)
    → parse_share_url parse_url raw expected ≡ some p
    → IsShareOf parse_url raw expected p
unfolding parse_share_url
parse_share_url-IsShareOf parse_url raw expected p h = elim (Option-cases (parse_url raw)) [
  | inl e ↦ absurd (ground arith)
  | inr (u, e) ↦
      let found : share_of_url expected u ≡ some p = ground arith in
      let (scheme, origin, parts) = share_of_url-some expected u p found in
      let (same, path, canonical) = share_of_parts-some u.origin (path_parts u.pathname) p parts in
      record {
        url = u;
        parsed = e;
        short = raw_length raw (ground arith);
        scheme = scheme;
        same_origin = same;
        expected_origin = IsExpected-wrong_origin expected u.origin origin;
        path = path_parts-shape u.pathname (codes "r") p.id path;
        canonical = canonical;
        plain = encode-share_id p.id canonical;
      }
]

drop_slashes-slashes : (n : ℕ) → drop_slashes (replicate n b'/') ≡ []
unfolding drop_slashes
drop_slashes-slashes zero = refl
drop_slashes-slashes (suc n) = rw (drop_slashes-slashes n)

drop_slashes-id :
    (id : Text) (n : ℕ) → all is_share_char id ≡ true → drop_slashes (id ++ replicate n b'/') ≡ id
unfolding drop_slashes
drop_slashes-id [] n h = drop_slashes-slashes n
drop_slashes-id (c ∷ id) n h = ground (arith, share_char-ne-slash c, drop_slashes-id id n)

split_slash-id :
    (cur id : Text) → all is_share_char id ≡ true → split_slash cur id ≡ (cur ++ id) ∷ []
unfolding split_slash
split_slash-id cur [] h = rw append-nil
split_slash-id cur (c ∷ id) h =
    ground (
      arith,
      share_char-ne-slash c,
      split_slash-id (cur ++ c ∷ []) id,
      append_assoc cur (c ∷ []) id,
    )

drop_slashes-path :
    (c : ℕ) (id : Text) (n : ℕ)
    → all is_share_char (c ∷ id) ≡ true
    → drop_slashes (codes "/r/" ++ ((c ∷ id) ++ replicate n b'/')) ≡ codes "/r/" ++ (c ∷ id)
unfolding drop_slashes
drop_slashes-path c id n h = ground (arith, share_char-ne-slash c, drop_slashes-id id n)

path_parts-share :
    (c : ℕ) (id : Text) (n : ℕ)
    → all is_share_char (c ∷ id) ≡ true
    → path_parts (codes "/r/" ++ ((c ∷ id) ++ replicate n b'/')) ≡ codes "r" ∷ (c ∷ id) ∷ []
unfolding path_parts
path_parts-share c id n h = rw (drop_slashes-path c id n h, split_path) refl
  where
    split_path : split_slash [] (codes "/r/" ++ (c ∷ id)) ≡ [] ∷ codes "r" ∷ (c ∷ id) ∷ []
    split_path = unfold split_slash in ground (arith, split_slash-id [] (c ∷ id) h)

-- Every http or https url of at most 2048 units, of the expected origin, whose path is `/r/` and
-- a canonical id, with any number of slashes behind it, is taken for the share of that id.
pub parse_share_url-share :
    (parse_url : Text → Option Url) (raw : Text) (expected : Option Text) (u : Url) (id : Text)
    (n : ℕ)
    → parse_url raw ≡ some u
    → (is_empty raw || ltb 2048 (length raw)) ≡ false
    → (text_eq u.protocol (codes "http:") || text_eq u.protocol (codes "https:")) ≡ true
    → wrong_origin expected u.origin ≡ false
    → u.pathname ≡ codes "/r/" ++ (id ++ replicate n b'/')
    → is_share_id id ≡ true
    → parse_share_url parse_url raw expected ≡ some (record { id = id; origin = u.origin })
unfolding parse_share_url share_of_url share_of_parts is_share_id
parse_share_url-share parse_url raw expected u [] n parsed short scheme origin path canonical =
    absurd (false≢true canonical)
parse_share_url-share parse_url raw expected u (c ∷ id) n parsed short scheme origin path
      canonical =
    let shared : all is_share_char (c ∷ id) ≡ true = ground arith in
    let parts : path_parts u.pathname ≡ codes "r" ∷ (c ∷ id) ∷ [] =
      ap path_parts path ∙ path_parts-share c id n shared in
    rw (parsed, short, origin, parts, text_eq_refl (codes "r"), canonical) (ground arith)
