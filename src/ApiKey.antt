-- ===== src/ApiKey.antt =====
-- web/lib/apiKey.ts: the saved key, its mask, and the patched `fetch`.
-- `Device` holds whether there is a window, the stored key, whether localStorage works (its calls throw
-- where it does not), and the events dispatched.
pub mod Masking
pub mod Patching
use clawhum.Prelude.{
  ℕ, suc, ◌+◌, ◌-◌, Bool, true, false, not, ◌&&◌, ◌||◌, Option, none, some, List, [], ◌∷◌, ◌++◌,
  if◌then◌else◌, leb, length, drop, replicate, is_empty, max, any, or_else,
}
use clawhum.Prelude.Text.{Text, codes, text_eq, starts_with, lower}

pub record Device : Type 0 where
  pub window : Bool
  pub key : Option Text
  pub works : Bool
  pub events : ℕ

unfoldable pub get_api_key : Device → Text
get_api_key d = if not d.window || not d.works then [] else or_else d.key []

unfoldable pub set_api_key : Device → Text → Device
set_api_key d key =
    if not d.window || not d.works
    then d
    else record d { key = if is_empty key then none else some key; events = suc d.events }

unfoldable pub mask_key : Text → Text
mask_key key =
    if is_empty key
    then []
    else if leb (length key) 4
    then replicate (length key) b'*'
    else replicate (max 4 (length key - 4)) b'*' ++ drop (length key - 4) key

-- Request headers: names in lower case, with their values.
abbrev pub Headers : Type 0
Headers = List (Text × Text)

-- `RequestInfo | URL`
pub data FetchInput : Type 0 where
  url_text : Text → FetchInput
  url_object : Text → FetchInput
  request : Text → Headers → FetchInput

-- The `init` of a call; `headers` is `none` where the key is missing.
pub record FetchInit : Type 0 where
  pub headers : Option Headers
  pub method : Option Text

unfoldable pub input_url : FetchInput → Text
input_url (url_text s) = s
input_url (url_object s) = s
input_url (request s hs) = s

abbrev pub header_name : Text
header_name = codes "x-api-key"

unfoldable pub has_header : Headers → Text → Bool
has_header [] n = false
has_header ((k, v) ∷ hs) n = text_eq k n || has_header hs n

-- `init?.headers || (input instanceof Request ? input.headers : undefined)`
abbrev pub own_headers : Option FetchInit → Headers
own_headers none = []
own_headers (some i) = or_else i.headers []

unfoldable pub base_headers : FetchInput → Option FetchInit → Headers
base_headers (url_text s) init = own_headers init
base_headers (url_object s) init = own_headers init
base_headers (request s hs) none = hs
base_headers (request s hs) (some i) = or_else i.headers hs

abbrev pub init_or_empty : Option FetchInit → FetchInit
init_or_empty none = record { headers = none; method = none }
init_or_empty (some i) = i

unfoldable pub is_local : Text → Text → Bool
is_local origin url = starts_with url (codes "/api/") || starts_with url (origin ++ codes "/api/")

-- The `init` with which the patched `fetch` calls the original one; where `Headers` throws, the `catch`
-- leaves the caller's own. `headers_of` is `new Headers(_)` of what the caller gives, and `value_of` the
-- value that `set` keeps of a text; each is `none` where it throws.
unfoldable pub patched_init :
    (Headers → Option Headers)
    → (Text → Option Text)
    → Device
    → Text
    → FetchInput
    → Option FetchInit
    → Option FetchInit
patched_init headers_of value_of d origin input init =
    let key = get_api_key d in
    if not (is_local origin (input_url input))
    then init
    else if is_empty key
    then init
    else elim (headers_of (base_headers input init)) [
      | none ↦ init
      | some headers ↦
          if has_header headers header_name
          then some (record (init_or_empty init) { headers = some headers })
          else elim (value_of key) [
            | none ↦ init
            | some value ↦ some (record (init_or_empty init) {
              headers = some (headers ++ (header_name, value) ∷ []);
            })
          ]
    ]
