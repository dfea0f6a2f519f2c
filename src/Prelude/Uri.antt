-- ===== src/Prelude/Uri.antt =====
-- `encodeURIComponent` over UTF-16 code units: `none` where a surrogate stands alone (a URIError).
use Prim.Native.Nat.{ℕ, ◌+◌, ◌-◌, ◌*◌, ◌/◌, ◌%◌}
use mathlib.Core.Path.{◌≡◌, refl}
use mathlib.Core.Bool.{Bool, true, false, ◌&&◌, ◌||◌}
use mathlib.Core.List.{[], ◌∷◌, ◌++◌}
use mathlib.Core.Option.{Option, none, some}
use native.Mathlib.Omega.{arith}
use clawhum.Prelude.Tests.{if◌then◌else◌, ltb, leb, ◌==◌}
use clawhum.Prelude.Lists.{All}
use clawhum.Prelude.Text.{Text}

unfoldable pub is_alnum : ℕ → Bool
is_alnum c = (leb b'0' c && leb c b'9') || (leb b'A' c && leb c b'Z') || (leb b'a' c && leb c b'z')

-- A-Z a-z 0-9 - _ . ! ~ * ' ( )
unfoldable pub is_unreserved : ℕ → Bool
unfolding is_alnum
is_unreserved c =
    is_alnum c
    || c == b'-'
    || c == b'_'
    || c == b'.'
    || c == b'!'
    || c == b'~'
    || c == b'*'
    || c == 39
    || c == b'('
    || c == b')'

abbrev pub hex_digit : ℕ → ℕ
hex_digit d = if ltb d 10 then b'0' + d else b'A' + (d - 10)

abbrev pub percent : ℕ → Text
percent byte = b'%' ∷ hex_digit (byte / 16) ∷ hex_digit (byte % 16) ∷ []

-- The UTF-8 bytes of a code point that takes more than one unit of ASCII.
abbrev pub utf8 : ℕ → Text
utf8 p =
    if ltb p 0x80
    then percent p
    else if ltb p 0x800
    then percent (0xc0 + p / 64) ++ percent (0x80 + p % 64)
    else if ltb p 0x10000
    then percent (0xe0 + p / 4096) ++ (percent (0x80 + p / 64 % 64) ++ percent (0x80 + p % 64))
    else percent (0xf0 + p / 262144)
      ++ (percent (0x80 + p / 4096 % 64)
          ++ (percent (0x80 + p / 64 % 64) ++ percent (0x80 + p % 64)))

unfoldable pub is_high : ℕ → Bool
is_high c = leb 0xd800 c && leb c 0xdbff

unfoldable pub is_low : ℕ → Bool
is_low c = leb 0xdc00 c && leb c 0xdfff

abbrev pub after : Text → Option Text → Option Text
after s none = none
after s (some t) = some (s ++ t)

-- What a unit that begins no pair turns into.
unfoldable pub encode_unit : ℕ → Option Text
encode_unit c =
    if is_unreserved c then some (c ∷ []) else if is_high c || is_low c then none else some (utf8 c)

-- The units read so far end in a high surrogate, or not.
unfoldable pub encode_from : Option ℕ → Text → Option Text
encode_from none [] = some []
encode_from (some h) [] = none
encode_from none (c ∷ s) =
    let rest = encode_from (if is_high c then some c else none) s in
    if is_high c then rest else elim (encode_unit c) [ none ↦ none | some t ↦ after t rest ]
encode_from (some h) (c ∷ s) =
    let rest = encode_from none s in
    if is_low c then after (utf8 (0x10000 + (h - 0xd800) * 1024 + (c - 0xdc00))) rest else none

unfoldable pub encode_uri_component : Text → Option Text
unfolding encode_from encode_unit is_unreserved is_high is_low
encode_uri_component s = encode_from none s

unreserved-not_high : (c : ℕ) → is_unreserved c ≡ true → is_high c ≡ false
unfolding is_unreserved is_high
unreserved-not_high c h = ground arith

encode_unit-unreserved : (c : ℕ) → is_unreserved c ≡ true → encode_unit c ≡ some (c ∷ [])
unfolding encode_unit
encode_unit-unreserved c h = rw h

encode_from-unreserved :
    (s : Text) → All (λ c. is_unreserved c ≡ true) s → encode_from none s ≡ some s
unfolding encode_from
encode_from-unreserved [] h = refl
encode_from-unreserved (c ∷ s) (e, h) =
    ground (arith, unreserved-not_high c e, encode_unit-unreserved c e, encode_from-unreserved s h)

-- A text of unreserved units is its own encoding.
pub encode_uri_component-unreserved :
    (s : Text) → All (λ c. is_unreserved c ≡ true) s → encode_uri_component s ≡ some s
unfolding encode_uri_component
encode_uri_component-unreserved s h = encode_from-unreserved s h
