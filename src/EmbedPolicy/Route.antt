-- ===== src/EmbedPolicy/Route.antt =====
-- Whom `GET` of web/app/api/oembed/route.ts serves.
use clawhum.Prelude.{
  ℕ, ◌≤◌, true, false, Option, none, some, List, [], ◌∷◌, ◌++◌, or_else, is_empty, ◌≡◌, ◌↔◌, refl,
  ◌∙◌, arith, Option-cases, inl, inr,
}
use clawhum.Prelude.Text.{Text, codes, text_eq, lower, text_eq_refl}
use clawhum.Prelude.TextSet.{has}
use clawhum.Prelude.Uri.{encode_uri_component}
use clawhum.Oembed.{
  ParsedShareUrl, Url, Number, parse_share_url, build_embed_html, clamp_size, default_size,
  embed_html,
}
use clawhum.Oembed.ShareUrl.{parse_share_url-IsShareOf}
use clawhum.Oembed.Size.{clamp_size_bounds}
use clawhum.EmbedPolicy.{
  SharedPayload, OembedRequest, OembedBody, error, success, text_or, dim, cors_origin, nonempty,
  oembed_body, serve_share, serve_url, get_oembed, share_title, share_author,
}

-- The value of Access-Control-Allow-Origin: any origin without an allowlist; with one, an origin of
-- the list, the caller's own where it names one and the first otherwise.
abbrev pub IsCors : List Text → Option Text → Text → Type 0
IsCors [] caller cors = cors ≡ codes "*"
IsCors (a ∷ allowed) caller cors =
    (has (a ∷ allowed) cors ≡ true) × (cors ≡ or_else (nonempty caller) a)

cors_origin-IsCors :
    (allowed : List Text) (caller : Option Text) (cors : Text)
    → cors_origin allowed caller ≡ some cors
    → IsCors allowed caller cors
unfolding cors_origin
cors_origin-IsCors [] caller cors h = ground arith
cors_origin-IsCors (a ∷ allowed) none cors h = (ground (arith, text_eq_refl a), ground arith)
cors_origin-IsCors (a ∷ allowed) (some []) cors h = (ground (arith, text_eq_refl a), ground arith)
cors_origin-IsCors (a ∷ allowed) (some (c ∷ s)) cors h = (ground arith, ground arith)

-- The caller names an origin that a nonempty allowlist does not hold.
abbrev pub IsRefused : List Text → Option Text → Type 0
IsRefused allowed caller =
    (is_empty allowed ≡ false) × ((c : Text) × (nonempty caller ≡ some c) × (has allowed c ≡ false))

cors_origin-IsRefused :
    (allowed : List Text) (caller : Option Text)
    → (cors_origin allowed caller ≡ none) ↔ IsRefused allowed caller
unfolding cors_origin
cors_origin-IsRefused [] caller = (λ h. cc, λ r. cc (r.0))
cors_origin-IsRefused (a ∷ allowed) none = (λ h. cc, λ r. cc (r.1.1))
cors_origin-IsRefused (a ∷ allowed) (some []) = (λ h. cc, λ r. cc (r.1.1))
cors_origin-IsRefused (a ∷ allowed) (some (c ∷ s)) =
    (λ h. (refl, (c ∷ s, refl, ground arith)), λ (_, (d, e, f)). ground arith)

-- A share is reached: the format is JSON, and the url names a share of this origin that the API has.
pub record Reaches (parse_url : Text → Option Url) (fetch_share : Text → Option SharedPayload)
    (req : OembedRequest) (parsed : ParsedShareUrl) (p : SharedPayload) : Type 0 where
  pub json : text_eq (lower (text_or req.format (codes "json"))) (codes "json") ≡ true
  pub raw : Text
  pub given : nonempty req.url ≡ some raw
  pub share : parse_share_url parse_url raw (some req.origin) ≡ some parsed
  pub found : fetch_share parsed.id ≡ some p

-- What is served to an admitted caller.
pub record IsServed (p : SharedPayload) (req : OembedRequest) (cors : Text) (body : OembedBody)
    : Type 0 where
  pub admitted : IsCors (or_else p.embed_allowed_origins []) req.caller_origin cors
  pub width : (240 ≤ body.width) × (body.width ≤ 960)
  pub height : (180 ≤ body.height) × (body.height ≤ 720)

module _ (number_of : Text → Number) (show : ℕ → Text) (req : OembedRequest)
    (parsed : ParsedShareUrl) (p : SharedPayload) where
  abbrev size : ℕ × ℕ
  size = clamp_size number_of (dim req.maxwidth) (dim req.maxheight) default_size

  abbrev body : OembedBody
  body = record {
    provider_url = req.origin;
    title = share_title p;
    author_name = share_author p;
    html = embed_html req.origin parsed.id parsed.id (show size.0) (show size.1);
    width = size.0;
    height = size.1;
    thumbnail_url = req.origin ++ (codes "/r/" ++ (parsed.id ++ codes "/opengraph-image"));
  }

  -- A canonical id always makes a body.
  oembed_body-some :
      encode_uri_component parsed.id ≡ some parsed.id
      → oembed_body number_of show req parsed p ≡ some body
  unfolding oembed_body build_embed_html
  oembed_body-some plain = ground arith

  oembed_body-IsServed :
      (cors : Text)
      → IsCors (or_else p.embed_allowed_origins []) req.caller_origin cors
      → IsServed p req cors body
  oembed_body-IsServed cors c =
      let b =
        clamp_size_bounds number_of (dim req.maxwidth) (dim req.maxheight) default_size
          (omega arith) in
      record { admitted = c; width = (b.0, b.1); height = (b.2, b.3) }

  serve-refused :
      cors_origin (or_else p.embed_allowed_origins []) req.caller_origin ≡ none
      → serve_share number_of show req parsed p
        ≡ error 403 (codes "origin not permitted to embed this share")
  unfolding serve_share
  serve-refused h = rw (h, serve_share)

  serve-admitted :
      encode_uri_component parsed.id ≡ some parsed.id
      → (cors : Text)
      → cors_origin (or_else p.embed_allowed_origins []) req.caller_origin ≡ some cors
      → serve_share number_of show req parsed p ≡ success cors body
  unfolding serve_share
  serve-admitted plain cors h = rw (h, oembed_body-some plain, serve_share)

module _ (parse_url : Text → Option Url) (number_of : Text → Number) (show : ℕ → Text)
    (fetch_share : Text → Option SharedPayload) (req : OembedRequest) (parsed : ParsedShareUrl)
    (p : SharedPayload) where
  get_oembed-serve_share :
      Reaches parse_url fetch_share req parsed p
      → get_oembed parse_url number_of show fetch_share req
        ≡ serve_share number_of show req parsed p
  unfolding get_oembed serve_url
  get_oembed-serve_share r = ground (arith, r.json, r.given, r.share, r.found)

  -- Once a share is reached, a caller whose origin is not on a nonempty allowlist gets 403.
  pub get_oembed-refused :
      Reaches parse_url fetch_share req parsed p
      → IsRefused (or_else p.embed_allowed_origins []) req.caller_origin
      → get_oembed parse_url number_of show fetch_share req
        ≡ error 403 (codes "origin not permitted to embed this share")
  get_oembed-refused r f =
      get_oembed-serve_share r
      ∙ serve-refused number_of show req parsed p ((cors_origin-IsRefused _ _).1 f)

  -- Once a share is reached, any other caller gets the embed, for the admitted origin and with a size
  -- inside the limits.
  pub get_oembed-served :
      Reaches parse_url fetch_share req parsed p
      → ¬ IsRefused (or_else p.embed_allowed_origins []) req.caller_origin
      → (cors : Text) × ((b : OembedBody) × (get_oembed parse_url number_of show fetch_share req
            ≡ success cors b)
          × IsServed p req cors b)
  get_oembed-served r f = elim (Option-cases (cors_origin _ _)) [
    | inl e ↦ absurd (f ((cors_origin-IsRefused _ _).0 e))
    | inr (cors, e) ↦ (
      cors,
      (
        body number_of show req parsed p,
        get_oembed-serve_share r ∙ serve-admitted number_of show req parsed p (plain r) cors e,
        oembed_body-IsServed number_of show req parsed p cors (cors_origin-IsCors _ _ cors e),
      ),
    )
  ]
    where
      plain :
          Reaches parse_url fetch_share req parsed p
          → encode_uri_component parsed.id ≡ some parsed.id
      plain q = (parse_share_url-IsShareOf parse_url q.raw (some req.origin) parsed q.share).plain

-- Only a share that is reached is served, to a caller that its allowlist does not refuse.
pub get_oembed-Reaches :
    (parse_url : Text → Option Url) (number_of : Text → Number) (show : ℕ → Text)
    (fetch_share : Text → Option SharedPayload) (req : OembedRequest) (cors : Text) (b : OembedBody)
    → get_oembed parse_url number_of show fetch_share req ≡ success cors b
    → (parsed : ParsedShareUrl) × ((p : SharedPayload) × Reaches parse_url fetch_share req parsed p
        × IsCors (or_else p.embed_allowed_origins []) req.caller_origin cors)
unfolding get_oembed serve_url serve_share
get_oembed-Reaches parse_url number_of show fetch_share req cors b h =
    elim (Option-cases (nonempty req.url)) [
      | inl e ↦ absurd (ground arith)
      | inr (raw, given) ↦ elim (Option-cases (parse_share_url parse_url raw (some req.origin))) [
        | inl e ↦ absurd (ground arith)
        | inr (parsed, share) ↦ elim (Option-cases (fetch_share parsed.id)) [
          | inl e ↦ absurd (ground arith)
          | inr (p, found) ↦ (
            parsed,
            (
              p,
              record {
                json = ground arith;
                raw = raw;
                given = given;
                share = share;
                found = found;
              },
              cors_origin-IsCors _ _ cors (ground arith),
            ),
          )
        ]
      ]
    ]
