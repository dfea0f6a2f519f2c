-- ===== src/Oembed/Snippet.antt =====
-- The markup characters of the snippet that `buildEmbedHtml` of web/lib/oembed.ts builds.
use clawhum.Prelude.{
  ℕ, Bool, true, ◌||◌, some, [], ◌∷◌, ◌==◌, all, filter, filter-append, ◌≡◌, refl, arith,
}
use clawhum.Prelude.Text.{Text, codes}
use clawhum.Prelude.Uri.{is_alnum}
use clawhum.Oembed.{is_share_char, is_share_id, embed_html, build_embed_html}
use clawhum.Oembed.ShareUrl.{encode-share_id}

-- The characters that open or close a tag or an attribute's value.
abbrev pub is_markup : ℕ → Bool
is_markup c = c == b'<' || c == b'>' || c == b'"'

abbrev pub markup : Text → Text
markup s = filter is_markup s

-- The tags and the nine quoted attributes of the template.
abbrev pub template_markup : Text
template_markup = codes "<\"\"\"\"\"\"\"\"\"\"\"\"\"\"\"\"\"\"><>"

markup-share_id : (s : Text) → all is_share_char s ≡ true → markup s ≡ []
unfolding is_alnum
markup-share_id [] h = refl
markup-share_id (c ∷ s) h = ground (arith, markup-share_id s)

-- For a canonical id, and an origin and numbers that hold no markup character, the snippet is built
-- and its markup characters are those of the template, so the id cannot open a tag or an attribute.
pub markup-build_embed_html :
    (show : ℕ → Text) (origin id : Text) (w h : ℕ)
    → is_share_id id ≡ true
    → markup origin ≡ []
    → markup (show w) ≡ []
    → markup (show h) ≡ []
    → (html : Text) × (build_embed_html show origin id w h ≡ some html)
      × (markup html ≡ template_markup)
unfolding build_embed_html is_share_id
markup-build_embed_html show origin id w h canonical o ws hs = (
  embed_html origin id id (show w) (show h),
  rw (encode-share_id id canonical, build_embed_html) refl,
  simp (filter-append, o, ws, hs, markup-share_id id (ground arith)),
)
