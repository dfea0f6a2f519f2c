-- ===== src/EmbedPolicy/Framing.antt =====
-- Which pages the middleware of web/middleware.ts lets frame a share.
use clawhum.Prelude.{
  ℕ, ap, Bool, true, false, not, Option, none, some, List, [], ◌∷◌, ◌++◌, if◌then◌else◌, ◌==◌,
  or_else, is_empty, all, ◌≡◌, refl, arith,
}
use clawhum.Prelude.Text.{Text, codes, text_eq, join}
use clawhum.Prelude.Uri.{encode_uri_component}
use clawhum.EmbedPolicy.{
  FrameHeaders, break_slash, strip_prefix, embed_id, usable_origins, restrict_frames, middleware,
}

-- The path of the embed page of an id, with or without a slash at the end.
abbrev pub embed_path : Text → Bool → Text
embed_path id closed = codes "/r/" ++ (id ++ (if closed then codes "/embed/" else codes "/embed"))

abbrev pub no_slash : Text → Bool
no_slash s = all (λ c. not (c == b'/')) s

break_slash-id :
    (id rest : Text) → no_slash id ≡ true → break_slash (id ++ b'/' ∷ rest) ≡ (id, b'/' ∷ rest)
unfolding break_slash
break_slash-id [] rest h = refl
break_slash-id (c ∷ id) rest h = ground (arith, break_slash-id id rest)

embed_id-embed_path :
    (id : Text) (closed : Bool)
    → is_empty id ≡ false
    → no_slash id ≡ true
    → embed_id (embed_path id closed) ≡ some id
unfolding embed_id strip_prefix text_eq
embed_id-embed_path id true e h = rw (break_slash-id id (codes "embed/") h, e)
embed_id-embed_path id false e h = rw (break_slash-id id (codes "embed") h, e)

-- `allowed` are the nonempty texts among the entries of an allowlist, in their order.
pub data IsAllowlist : List (Option Text) → List Text → Type 0 where
  ended : IsAllowlist [] []
  listed :
      (c : ℕ) (s : Text) {os : List (Option Text)} {allowed : List Text}
      → IsAllowlist os allowed
      → IsAllowlist (some (c ∷ s) ∷ os) ((c ∷ s) ∷ allowed)
  empty :
      {os : List (Option Text)} {allowed : List Text}
      → IsAllowlist os allowed
      → IsAllowlist (some [] ∷ os) allowed
  no_text :
      {os : List (Option Text)} {allowed : List Text}
      → IsAllowlist os allowed
      → IsAllowlist (none ∷ os) allowed

usable_origins-IsAllowlist : (os : List (Option Text)) → IsAllowlist os (usable_origins os)
unfolding usable_origins
usable_origins-IsAllowlist [] = ended
usable_origins-IsAllowlist (none ∷ os) = no_text (usable_origins-IsAllowlist os)
usable_origins-IsAllowlist (some [] ∷ os) = empty (usable_origins-IsAllowlist os)
usable_origins-IsAllowlist (some (c ∷ s) ∷ os) = listed c s (usable_origins-IsAllowlist os)

-- The words of a text, between single spaces.
abbrev pub spaced : List Text → Text
spaced [] = []
spaced (t ∷ []) = t
spaced (t ∷ u ∷ ts) = t ++ b' ' ∷ spaced (u ∷ ts)

-- What the headers say of frames: nothing where no origin is allowed; and otherwise that only these
-- origins may frame the page, with the older header for the same origin, or for the one that is
-- allowed.
abbrev pub IsFramedBy : List Text → FrameHeaders → Type 0
IsFramedBy [] h = (h.content_security_policy ≡ none) × (h.frame_options ≡ none)
IsFramedBy (a ∷ []) h =
    (h.content_security_policy
      ≡ some
          (codes "frame-ancestors " ++ (a ++ codes "; default-src 'self' 'unsafe-inline' data:")))
    × (h.frame_options ≡ some (codes "ALLOW-FROM " ++ a))
IsFramedBy (a ∷ b ∷ os) h =
    (h.content_security_policy
      ≡ some (
          codes "frame-ancestors "
          ++ (spaced (a ∷ b ∷ os) ++ codes "; default-src 'self' 'unsafe-inline' data:")))
    × (h.frame_options ≡ some (codes "SAMEORIGIN"))

join-spaced : (ts : List Text) → join (codes " ") ts ≡ spaced ts
unfolding join
join-spaced [] = refl
join-spaced (t ∷ []) = refl
join-spaced (t ∷ u ∷ ts) = ap (λ s. t ++ b' ' ∷ s) (join-spaced (u ∷ ts))

restrict_frames-IsFramedBy : (allowed : List Text) → IsFramedBy allowed (restrict_frames allowed)
unfolding restrict_frames
restrict_frames-IsFramedBy [] = (refl, refl)
restrict_frames-IsFramedBy (a ∷ []) = (rw (join-spaced (a ∷ [])) refl, refl)
restrict_frames-IsFramedBy (a ∷ b ∷ os) = (rw (join-spaced (a ∷ b ∷ os)) refl, refl)

-- The branch of the middleware for the embed page of an id.
framed :
    (fetch_origins : Text → Option (Option (List (Option Text)))) (id encoded : Text)
    (closed : Bool) (origins : Option (List (Option Text)))
    → is_empty id ≡ false
    → no_slash id ≡ true
    → encode_uri_component id ≡ some encoded
    → fetch_origins encoded ≡ some origins
    → middleware fetch_origins (embed_path id closed)
      ≡ restrict_frames (usable_origins (or_else origins []))
unfolding middleware
framed fetch_origins id encoded closed origins e h k f =
    ground (arith, embed_id-embed_path id closed e h)

-- For the embed page of an id without slashes that can be encoded and for which the API answers, with
-- or without a slash at the end of the path: the policy lets exactly the nonempty texts of the
-- answer's allowlist frame the page, in their order, and the older header names the one origin, or
-- the same origin where there are several; and where there are none, no header restricts the
-- frames.
pub middleware-IsFramedBy :
    (fetch_origins : Text → Option (Option (List (Option Text)))) (id encoded : Text)
    (closed : Bool) (origins : Option (List (Option Text)))
    → is_empty id ≡ false
    → no_slash id ≡ true
    → encode_uri_component id ≡ some encoded
    → fetch_origins encoded ≡ some origins
    → (allowed : List Text) × IsAllowlist (or_else origins []) allowed
      × IsFramedBy allowed (middleware fetch_origins (embed_path id closed))
middleware-IsFramedBy fetch_origins id encoded closed origins e h k f =
    let allowed = usable_origins (or_else origins []) in
    (
      allowed,
      usable_origins-IsAllowlist (or_else origins []),
      rw (framed fetch_origins id encoded closed origins e h k f)
          (restrict_frames-IsFramedBy allowed),
    )
