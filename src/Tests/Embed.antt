-- ===== src/Tests/Embed.antt =====
-- Share urls, embeds and the allowlist on concrete inputs.
use clawhum.Prelude.{
  ℕ, true, Option, none, some, List, [], ◌∷◌, if◌then◌else◌, ◌==◌, or_else, replicate, ◌≡◌, refl,
}
use clawhum.Prelude.Text.{Text, codes, text_eq, lower}
use clawhum.Prelude.TextSet.{has}
use clawhum.Prelude.Uri.{is_alnum, is_unreserved, encode_uri_component}
use clawhum.Oembed.{
  ParsedShareUrl, Url, Number, not_finite, positive, parse_share_url, share_of_url, share_of_parts,
  path_parts, split_slash, drop_slashes, is_share_id, wrong_origin, build_embed_html,
}
use clawhum.Oembed.ShareUrl.{IsShareOf, parse_share_url-IsShareOf}
use clawhum.Oembed.Snippet.{markup, template_markup, markup-build_embed_html}
use clawhum.EmbedPolicy.{
  SharedPayload, OembedRequest, OembedBody, error, success, get_oembed, middleware,
}
use clawhum.EmbedPolicy.Route.{
  IsCors, IsRefused, Reaches, IsServed, get_oembed-refused, get_oembed-served, get_oembed-Reaches,
}
use clawhum.EmbedPolicy.Framing.{embed_path, IsAllowlist, IsFramedBy, middleware-IsFramedBy}

abbrev site : Text
site = codes "https://hum.app"

abbrev share_url : Text
share_url = codes "https://hum.app/r/ab-12"

abbrev share_parsed : Url
share_parsed = record { protocol = codes "https:"; origin = site; pathname = codes "/r/ab-12" }

-- A parser that knows one url.
abbrev parse_url : Text → Option Url
parse_url t = if text_eq t share_url then some share_parsed else none

abbrev share : ParsedShareUrl
share = record { id = codes "ab-12"; origin = site }

share_found : parse_share_url parse_url share_url (some site) ≡ some share
unfolding parse_share_url share_of_url share_of_parts path_parts split_slash drop_slashes
    is_share_id is_alnum wrong_origin text_eq
share_found = refl

parse_share_url-IsShareOf_example : IsShareOf parse_url share_url (some site) share
parse_share_url-IsShareOf_example =
    parse_share_url-IsShareOf parse_url share_url (some site) share share_found

-- Digits as one mark for each unit.
abbrev show : ℕ → Text
show n = replicate n b'1'

markup-build_embed_html_example :
    (html : Text) × (build_embed_html show site (codes "ab-12") 3 2 ≡ some html)
    × (markup html ≡ template_markup)
unfolding is_share_id is_alnum
markup-build_embed_html_example =
    markup-build_embed_html show site (codes "ab-12") 3 2 refl refl refl refl

abbrev number_of : Text → Number
number_of t = if text_eq t (codes "300") then positive 300 else not_finite

abbrev short_show : ℕ → Text
short_show n = if n == 300 then codes "300" else codes "360"

abbrev payload : SharedPayload
payload = record {
  id = codes "ab-12";
  results = [];
  embed_allowed_origins = some (codes "https://a.org" ∷ codes "https://b.org" ∷ []);
}

abbrev fetch_share : Text → Option SharedPayload
fetch_share id = if text_eq id (codes "ab-12") then some payload else none

abbrev request_from : Text → OembedRequest
request_from caller = record {
  origin = site;
  format = none;
  url = some share_url;
  maxwidth = some (codes "300");
  maxheight = none;
  caller_origin = some caller;
}

reached : (caller : Text) → Reaches parse_url fetch_share (request_from caller) share payload
unfolding text_eq lower
reached caller = record {
  json = refl;
  raw = share_url;
  given = refl;
  share = share_found;
  found = refl;
}

get_oembed-refused_example :
    get_oembed parse_url number_of short_show fetch_share (request_from (codes "https://c.org"))
    ≡ error 403 (codes "origin not permitted to embed this share")
unfolding text_eq
get_oembed-refused_example =
    get_oembed-refused parse_url number_of short_show fetch_share
      (request_from (codes "https://c.org")) share payload (reached (codes "https://c.org"))
      (refl, (codes "https://c.org", refl, refl))

b_listed : has (or_else payload.embed_allowed_origins []) (codes "https://b.org") ≡ true
unfolding text_eq
b_listed = refl

b_admitted :
    ¬ IsRefused
      (or_else payload.embed_allowed_origins [])
      (request_from (codes "https://b.org")).caller_origin
b_admitted (_, (c, named, refused)) = cc (b_listed)

get_oembed-served_example :
    (cors : Text) × ((b : OembedBody) × (get_oembed parse_url number_of short_show fetch_share
          (request_from (codes "https://b.org"))
        ≡ success cors b)
      × IsServed payload (request_from (codes "https://b.org")) cors b)
get_oembed-served_example =
    get_oembed-served parse_url number_of short_show fetch_share
      (request_from (codes "https://b.org")) share payload (reached (codes "https://b.org"))
      b_admitted

b_served :
    (cors : Text) × ((b : OembedBody) × (get_oembed parse_url number_of short_show fetch_share
          (request_from (codes "https://b.org"))
        ≡ success cors b)
      × IsServed payload (request_from (codes "https://b.org")) cors b)
b_served =
    get_oembed-served parse_url number_of short_show fetch_share
      (request_from (codes "https://b.org")) share payload (reached (codes "https://b.org"))
      b_admitted

get_oembed-Reaches_example :
    (parsed : ParsedShareUrl) × ((p : SharedPayload) × Reaches parse_url fetch_share
        (request_from (codes "https://b.org"))
        parsed
        p
      × IsCors
          (or_else p.embed_allowed_origins [])
          (request_from (codes "https://b.org")).caller_origin
          b_served.0)
get_oembed-Reaches_example =
    get_oembed-Reaches parse_url number_of short_show fetch_share
      (request_from (codes "https://b.org")) b_served.0 b_served.1.0 b_served.1.1

abbrev origins : List (Option Text)
origins = some (codes "https://a.org") ∷ none ∷ some [] ∷ []

abbrev fetch_origins : Text → Option (Option (List (Option Text)))
fetch_origins id = if text_eq id (codes "ab-12") then some (some origins) else none

middleware-IsFramedBy_example :
    (allowed : List Text) × IsAllowlist origins allowed
    × IsFramedBy allowed (middleware fetch_origins (embed_path (codes "ab-12") true))
unfolding text_eq encode_uri_component is_unreserved is_alnum
middleware-IsFramedBy_example =
    middleware-IsFramedBy fetch_origins (codes "ab-12") (codes "ab-12") true (some origins) refl
      refl refl refl
