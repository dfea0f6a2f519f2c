-- ===== src/EmbedPolicy.antt =====
-- The embed origin allowlist: web/app/api/oembed/route.ts (`GET`) and web/middleware.ts.
-- What the API answers for a share, and the parser of urls and of numbers, are parameters. That
-- `headers.set` takes every value is assumed.
pub mod Route
pub mod Framing
use clawhum.Prelude.{
  ℕ, Bool, true, false, not, ◌&&◌, ◌||◌, Option, none, some, List, [], ◌∷◌, ◌++◌, if◌then◌else◌,
  ◌==◌, ltb, any, filter, head?, is_empty, length, or_else,
}
use clawhum.Prelude.Text.{Text, codes, text_eq, lower, join}
use clawhum.Prelude.TextSet.{has}
use clawhum.Prelude.Uri.{encode_uri_component}
use clawhum.Oembed.{
  ParsedShareUrl, Url, Number, Dim, missing, text, parse_share_url, build_embed_html, clamp_size,
  default_size,
}

pub record SharedResult : Type 0 where
  pub title : Text
  pub artist : Option Text

-- `embed_allowed_origins` is `none` where it is no array.
pub record SharedPayload : Type 0 where
  pub id : Text
  pub results : List SharedResult
  pub embed_allowed_origins : Option (List Text)

-- The parts of the request that `GET` reads; a query parameter or header that is absent is `none`.
pub record OembedRequest : Type 0 where
  pub origin : Text
  pub format : Option Text
  pub url : Option Text
  pub maxwidth : Option Text
  pub maxheight : Option Text
  pub caller_origin : Option Text

pub record OembedBody : Type 0 where
  pub provider_url : Text
  pub title : Text
  pub author_name : Option Text
  pub html : Text
  pub width : ℕ
  pub height : ℕ
  pub thumbnail_url : Text

-- `error status message`, `success cors body`, or the handler throws.
pub data Response : Type 0 where
  error : ℕ → Text → Response
  success : Text → OembedBody → Response
  failure : Response

-- `a || b` on texts.
abbrev pub text_or : Option Text → Text → Text
text_or none d = d
text_or (some []) d = d
text_or (some (c ∷ s)) d = c ∷ s

abbrev pub dim : Option Text → Dim
dim none = missing
dim (some t) = text t

-- `corsOrigin`, or `none` where the caller is refused.
unfoldable pub cors_origin : List Text → Option Text → Option Text
cors_origin [] caller = some (codes "*")
cors_origin (a ∷ allowed) none = some a
cors_origin (a ∷ allowed) (some []) = some a
cors_origin (a ∷ allowed) (some (c ∷ s)) = if has (a ∷ allowed) (c ∷ s) then some (c ∷ s) else none

abbrev pub by_artist : Option Text → Text
by_artist none = []
by_artist (some []) = []
by_artist (some (c ∷ s)) = codes " by " ++ (c ∷ s)

abbrev pub nonempty : Option Text → Option Text
nonempty none = none
nonempty (some []) = none
nonempty (some (c ∷ s)) = some (c ∷ s)

unfoldable pub share_title : SharedPayload → Text
share_title p = elim p.results [
  | [] ↦ codes "clawhum shared match " ++ p.id
  | r ∷ _ ↦ r.title ++ (by_artist r.artist ++ codes " on clawhum")
]

unfoldable pub share_author : SharedPayload → Option Text
share_author p = elim p.results [ [] ↦ none | r ∷ _ ↦ nonempty r.artist ]

module _ (number_of : Text → Number) (show : ℕ → Text) where
  -- The body, once the caller is admitted; `none` is a URIError.
  unfoldable pub oembed_body : OembedRequest → ParsedShareUrl → SharedPayload → Option OembedBody
  oembed_body req parsed p =
      let size = clamp_size number_of (dim req.maxwidth) (dim req.maxheight) default_size in
      elim (build_embed_html show req.origin parsed.id size.0 size.1) [
        | none ↦ none
        | some html ↦ elim (encode_uri_component parsed.id) [
          | none ↦ none
          | some encoded ↦ some (record {
            provider_url = req.origin;
            title = share_title p;
            author_name = share_author p;
            html = html;
            width = size.0;
            height = size.1;
            thumbnail_url = req.origin ++ (codes "/r/" ++ (encoded ++ codes "/opengraph-image"));
          })
        ]
      ]

  -- From the share that was found to the response.
  unfoldable pub serve_share : OembedRequest → ParsedShareUrl → SharedPayload → Response
  serve_share req parsed p =
      elim (cors_origin (or_else p.embed_allowed_origins []) req.caller_origin) [
        | none ↦ error 403 (codes "origin not permitted to embed this share")
        | some cors ↦ elim (oembed_body req parsed p) [
          | none ↦ failure
          | some body ↦ success cors body
        ]
      ]

module _ (parse_url : Text → Option Url) (number_of : Text → Number) (show : ℕ → Text)
    (fetch_share : Text → Option SharedPayload) where
  unfoldable pub serve_url : OembedRequest → Text → Response
  serve_url req raw = elim (parse_share_url parse_url raw (some req.origin)) [
    | none ↦ error 404 (codes "url does not point to a clawhum share")
    | some parsed ↦ elim (fetch_share parsed.id) [
      | none ↦ error 404 (codes "shared match not found")
      | some p ↦ serve_share number_of show req parsed p
    ]
  ]

  -- `GET`
  unfoldable pub get_oembed : OembedRequest → Response
  get_oembed req =
      if not (text_eq (lower (text_or req.format (codes "json"))) (codes "json"))
      then error 501 (codes "only format=json is supported")
      else elim (nonempty req.url) [
        | none ↦ error 400 (codes "missing url parameter")
        | some raw ↦ serve_url req raw
      ]

-- The headers that the middleware may set on the embed page.
pub record FrameHeaders : Type 0 where
  pub content_type_options : Text
  pub content_security_policy : Option Text
  pub frame_options : Option Text

-- `[^/]+` and what follows it.
unfoldable pub break_slash : Text → Text × Text
break_slash [] = ([], [])
break_slash (c ∷ s) =
    let rest = break_slash s in if c == b'/' then ([], c ∷ s) else (c ∷ rest.0, rest.1)

-- The rest of the text behind a prefix.
unfoldable pub strip_prefix : Text → Text → Option Text
strip_prefix [] s = some s
strip_prefix (_ ∷ _) [] = none
strip_prefix (a ∷ p) (c ∷ s) = let rest = strip_prefix p s in if a == c then rest else none

abbrev pub id_before_embed : Text × Text → Option Text
id_before_embed (id, rest) =
    if not (is_empty id) && (text_eq rest (codes "/embed") || text_eq rest (codes "/embed/"))
    then some id
    else none

-- `pathname.match(/^\/r\/([^/]+)\/embed\/?$/)`
unfoldable pub embed_id : Text → Option Text
embed_id p = elim (strip_prefix (codes "/r/") p) [
  | none ↦ none
  | some s ↦ id_before_embed (break_slash s)
]

abbrev pub next_headers : FrameHeaders
next_headers = record {
  content_type_options = codes "nosniff";
  content_security_policy = none;
  frame_options = none;
}

-- The nonempty texts of `embed_allowed_origins`; an entry that is no text is `none`.
unfoldable pub usable_origins : List (Option Text) → List Text
usable_origins [] = []
usable_origins (none ∷ os) = usable_origins os
usable_origins (some [] ∷ os) = usable_origins os
usable_origins (some (c ∷ s) ∷ os) = (c ∷ s) ∷ usable_origins os

unfoldable pub restrict_frames : List Text → FrameHeaders
restrict_frames [] = next_headers
restrict_frames (a ∷ allowed) = record {
  content_type_options = codes "nosniff";
  content_security_policy = some (
      codes "frame-ancestors "
      ++ (join (codes " ") (a ∷ allowed) ++ codes "; default-src 'self' 'unsafe-inline' data:"));
  frame_options = some (if is_empty allowed then codes "ALLOW-FROM " ++ a else codes "SAMEORIGIN");
}

-- `fetch_origins` is the API's answer for an encoded id: none where the call fails or is refused,
-- and the allowlist, `none` where it is no array.
unfoldable pub middleware : (Text → Option (Option (List (Option Text)))) → Text → FrameHeaders
middleware fetch_origins pathname = elim (embed_id pathname) [
  | none ↦ next_headers
  | some id ↦ elim (encode_uri_component id) [
    | none ↦ next_headers
    | some encoded ↦ elim (fetch_origins encoded) [
      | none ↦ next_headers
      | some origins ↦ restrict_frames (usable_origins (or_else origins []))
    ]
  ]
]
