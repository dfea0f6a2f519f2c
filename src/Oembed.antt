-- ===== src/Oembed.antt =====
-- web/lib/oembed.ts: share urls, the embed snippet and the size clamp.
-- The parser of the URL class is the parameter `parse_url`, and the conversion of a text to a number
-- is the parameter `number_of`.
pub mod Paths
pub mod ShareUrl
pub mod Snippet
pub mod Size
use clawhum.Prelude.{
  ℕ, Bool, true, false, not, ◌&&◌, ◌||◌, Option, none, some, List, [], ◌∷◌, ◌++◌, if◌then◌else◌,
  ◌==◌, ltb, leb, all, filter, length, is_empty, min, max,
}
use clawhum.Prelude.Text.{Text, codes, text_eq}
use clawhum.Prelude.Uri.{is_alnum, encode_uri_component}

abbrev pub is_share_char : ℕ → Bool
is_share_char c = is_alnum c || c == b'_' || c == b'-'

-- `SHARE_ID_RE`
unfoldable pub is_share_id : Text → Bool
is_share_id id = all is_share_char id && leb 4 (length id) && leb (length id) 64

pub record ParsedShareUrl : Type 0 where
  pub id : Text
  pub origin : Text

-- The fields of a `URL` that are read.
pub record Url : Type 0 where
  pub protocol : Text
  pub origin : Text
  pub pathname : Text

-- `s.replace(/\/+$/, "")`
unfoldable pub drop_slashes : Text → Text
drop_slashes [] = []
drop_slashes (c ∷ s) =
    let rest = drop_slashes s in if c == b'/' && is_empty rest then [] else c ∷ rest

-- `s.split("/")`; `cur` is the part being read.
unfoldable pub split_slash : Text → Text → List Text
split_slash cur [] = cur ∷ []
split_slash cur (c ∷ s) =
    let rest = split_slash (if c == b'/' then [] else cur ++ c ∷ []) s in
    if c == b'/' then cur ∷ rest else rest

unfoldable pub path_parts : Text → List Text
path_parts p = filter (λ s. not (is_empty s)) (split_slash [] (drop_slashes p))

-- The checks on the parts: exactly `r` and a share id.
unfoldable pub share_of_parts : Text → List Text → Option ParsedShareUrl
share_of_parts origin (r ∷ id ∷ []) =
    if not (text_eq r (codes "r"))
    then none
    else if not (is_share_id id)
    then none
    else some (record { id = id; origin = origin })
share_of_parts origin [] = none
share_of_parts origin (_ ∷ []) = none
share_of_parts origin (_ ∷ _ ∷ _ ∷ _) = none

-- `expectedOrigin && u.origin !== expectedOrigin`: an empty origin expects nothing.
unfoldable pub wrong_origin : Option Text → Text → Bool
wrong_origin none origin = false
wrong_origin (some e) origin = not (is_empty e) && not (text_eq origin e)

unfoldable pub share_of_url : Option Text → Url → Option ParsedShareUrl
share_of_url expected u =
    if not (text_eq u.protocol (codes "http:")) && not (text_eq u.protocol (codes "https:"))
    then none
    else if wrong_origin expected u.origin
    then none
    else share_of_parts u.origin (path_parts u.pathname)

module _ (parse_url : Text → Option Url) where
  unfoldable pub parse_share_url : Text → Option Text → Option ParsedShareUrl
  parse_share_url raw expected =
      if is_empty raw || ltb 2048 (length raw)
      then none
      else elim (parse_url raw) [ none ↦ none | some u ↦ share_of_url expected u ]

-- The snippet, with `encoded` in the address and `id` in the title.
abbrev pub embed_html : Text → Text → Text → Text → Text → Text
embed_html origin encoded id width height =
    codes "<iframe src=\""
    ++ (origin
        ++ (codes "/r/"
            ++ (encoded
                ++ (codes "/embed\" width=\""
                    ++ (width
                        ++ (codes "\" height=\""
                            ++ (height
                                ++ (codes
                                      "\" frameborder=\"0\" loading=\"lazy\" allow=\"clipboard-write\" "
                                    ++ (codes
                                          "referrerpolicy=\"no-referrer-when-downgrade\" title=\"clawhum shared match "
                                        ++ (id
                                            ++ codes
                                                "\" style=\"border:0;border-radius:2px;max-width:100%;\"></iframe>"))))))))))

-- `show` is `String` of a number; `none` is the URIError of `encodeURIComponent`.
unfoldable pub build_embed_html : (ℕ → Text) → Text → Text → ℕ → ℕ → Option Text
build_embed_html show origin id width height = elim (encode_uri_component id) [
  | none ↦ none
  | some encoded ↦ some (embed_html origin encoded id (show width) (show height))
]

pub record ClampSizeOptions : Type 0 where
  pub default_width : ℕ
  pub default_height : ℕ
  pub min_width : ℕ
  pub max_width : ℕ
  pub min_height : ℕ
  pub max_height : ℕ

abbrev pub default_size : ClampSizeOptions
default_size = record {
  default_width = 480;
  default_height = 360;
  min_width = 240;
  max_width = 960;
  min_height = 180;
  max_height = 720;
}

-- What a dimension converts to: NaN or infinite, at most 0, or positive with this floor.
pub data Number : Type 0 where
  not_finite : Number
  not_positive : Number
  positive : ℕ → Number

-- `string | number | null | undefined`
pub data Dim : Type 0 where
  missing : Dim
  text : Text → Dim
  number : Number → Dim

unfoldable pub floor_or : Number → ℕ → ℕ
floor_or not_finite fallback = fallback
floor_or not_positive fallback = fallback
floor_or (positive n) fallback = n

module _ (number_of : Text → Number) where
  unfoldable pub parse_dim : Dim → ℕ → ℕ
  unfolding floor_or
  parse_dim missing fallback = fallback
  parse_dim (text []) fallback = fallback
  parse_dim (text (c ∷ s)) fallback = floor_or (number_of (c ∷ s)) fallback
  parse_dim (number n) fallback = floor_or n fallback

  unfoldable pub clamp_size : Dim → Dim → ClampSizeOptions → ℕ × ℕ
  unfolding parse_dim
  clamp_size maxwidth maxheight opts = (
    min opts.max_width (max opts.min_width (parse_dim maxwidth opts.default_width)),
    min opts.max_height (max opts.min_height (parse_dim maxheight opts.default_height)),
  )
