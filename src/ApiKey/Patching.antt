-- ===== src/ApiKey/Patching.antt =====
-- What the patched `fetch` of web/lib/apiKey.ts sends, and to whom.
use clawhum.Prelude.{
  true, false, not, ◌||◌, Option, none, some, [], ◌∷◌, ◌++◌, if◌then◌else◌, is_empty, or_else, ◌≡◌,
  arith, Bool-cases, Option-cases, inl, inr, refl, sym, ◌∙◌,
}
use clawhum.Prelude.Text.{Text, text_eq, text_eq_refl, eq_of_text_eq}
use clawhum.ApiKey.{
  Device, get_api_key, set_api_key, Headers, FetchInput, FetchInit, input_url, header_name,
  has_header, base_headers, init_or_empty, is_local, patched_init,
}

-- The first value of a header.
abbrev pub header_value : Headers → Text → Option Text
header_value [] n = none
header_value ((k, v) ∷ hs) n = let rest = header_value hs n in if text_eq k n then some v else rest

header_value-append :
    (hs : Headers) (n v : Text)
    → header_value (hs ++ (n, v) ∷ []) n ≡ some (or_else (header_value hs n) v)
header_value-append [] n v = rw (text_eq_refl n)
header_value-append ((k, w) ∷ hs) n v = ground (arith, header_value-append hs n v)

header_value-has :
    (hs : Headers) (n v : Text)
    → has_header hs n ≡ true
    → header_value hs n ≡ some (or_else (header_value hs n) v)
unfolding has_header
header_value-has [] n v h = cc
header_value-has ((k, w) ∷ hs) n v h = ground (arith, header_value-has hs n v)

header_value-append_other :
    (hs : Headers) (n v m : Text)
    → text_eq n m ≡ false
    → header_value (hs ++ (n, v) ∷ []) m ≡ header_value hs m
header_value-append_other [] n v m h = rw h refl
header_value-append_other ((k, w) ∷ hs) n v m h =
    ground (arith, header_value-append_other hs n v m h)

header_value-none : (hs : Headers) (n : Text) → has_header hs n ≡ false → header_value hs n ≡ none
unfolding has_header
header_value-none [] n h = refl
header_value-none ((k, w) ∷ hs) n h = ground (arith, header_value-none hs n)

header_value-some :
    (hs : Headers) (n : Text) → has_header hs n ≡ true → (v : Text) × (header_value hs n ≡ some v)
header_value-some hs n h = elim (Option-cases (header_value hs n)) [
  | inl e ↦ absurd (cc (header_value-has hs n [] h))
  | inr found ↦ found
]

-- A call that is not to the own API, or with no key saved, goes through unchanged: the saved key
-- is not added to it.
pub patched_init_unchanged :
    (headers_of : Headers → Option Headers) (value_of : Text → Option Text) (d : Device)
    (origin : Text) (input : FetchInput) (init : Option FetchInit)
    → (not (is_local origin (input_url input)) || is_empty (get_api_key d)) ≡ true
    → patched_init headers_of value_of d origin input init ≡ init
unfolding patched_init
patched_init_unchanged headers_of value_of d origin input init h = ground arith

-- The key that a call carries: the caller's own, or else what the headers keep of the saved one.
abbrev pub sent_key : Option Text → Option Text → Option Text
sent_key (some own) saved = some own
sent_key none saved = saved

-- The call carries the key under its name and, under any other name, what the caller's headers have;
-- its method is the caller's. Where it carries none, it goes through unchanged.
abbrev pub IsSent : Option FetchInit → Headers → Option Text → Option FetchInit → Type 0
IsSent init own none init' = init' ≡ init
IsSent init own (some key) init' =
    (hs : Headers) × (init' ≡ some (record (init_or_empty init) { headers = some hs }))
    × ((n : Text)
        → header_value hs n ≡ (if text_eq header_name n then some key else header_value own n))

module _ (headers_of : Headers → Option Headers) (value_of : Text → Option Text) (d : Device)
    (origin : Text) (input : FetchInput) (init : Option FetchInit) (own : Headers)
    (local : is_local origin (input_url input) ≡ true) (saved : is_empty (get_api_key d) ≡ false)
    (taken : headers_of (base_headers input init) ≡ some own) where
  named :
      (key n : Text)
      → header_value own header_name ≡ some key
      → header_value own n ≡ (if text_eq header_name n then some key else header_value own n)
  named key n h = elim (Bool-cases (text_eq header_name n)) [
    | inl e ↦ rw (e, sym (eq_of_text_eq header_name n e)) h
    | inr e ↦ rw e refl
  ]

  added :
      (key n : Text)
      → header_value own header_name ≡ none
      → header_value (own ++ (header_name, key) ∷ []) n
        ≡ (if text_eq header_name n then some key else header_value own n)
  added key n h = elim (Bool-cases (text_eq header_name n)) [
    | inl e ↦
        rw (e, sym (eq_of_text_eq header_name n e)) (header_value-append own header_name key ∙ cc h)
    | inr e ↦ rw e (header_value-append_other own header_name key n e)
  ]

  own-IsSent :
      has_header own header_name ≡ true
      → IsSent init own
          (sent_key (header_value own header_name) (value_of (get_api_key d)))
          (patched_init headers_of value_of d origin input init)
  unfolding patched_init
  own-IsSent h =
      let (key, found) = header_value-some own header_name h in
      rw (found, patched_init, local, saved, taken, h) (own, refl, λ n. named key n found)

  saved-IsSent :
      has_header own header_name ≡ false
      → (v : Option Text) → value_of (get_api_key d) ≡ v
      → IsSent init own
          (sent_key (header_value own header_name) v)
          (patched_init headers_of value_of d origin input init)
  unfolding patched_init
  saved-IsSent h none e =
      rw (header_value-none own header_name h, patched_init, local, saved, taken, h, e) refl
  saved-IsSent h (some key) e =
      let missing = header_value-none own header_name h in
      rw (missing, patched_init, local, saved, taken, h, e)
        (own ++ (header_name, key) ∷ [], refl, λ n. added key n missing)

  -- A call to the own API with a key saved, whose own headers are accepted, carries the caller's own key
  -- header if it has one, and otherwise what the headers keep of the saved key; every other header
  -- and the method are the caller's. Where the headers do not accept the saved key, and the caller
  -- has none, the call goes through unchanged.
  pub patched_init-IsSent :
      IsSent init own
        (sent_key (header_value own header_name) (value_of (get_api_key d)))
        (patched_init headers_of value_of d origin input init)
  patched_init-IsSent = elim (Bool-cases (has_header own header_name)) [
    | inl h ↦ own-IsSent h
    | inr h ↦ saved-IsSent h (value_of (get_api_key d)) refl
  ]

-- On a device whose storage works, a saved key is read back, and saving the empty key forgets it.
pub get-set_api_key :
    (d : Device) (key : Text)
    → d.window ≡ true
    → d.works ≡ true
    → get_api_key (set_api_key d key) ≡ key
unfolding get_api_key set_api_key
get-set_api_key d [] w k = ground arith
get-set_api_key d (c ∷ key) w k = ground arith
