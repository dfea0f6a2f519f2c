-- ===== src/Tags.antt =====
-- `normaliseTags` of web/lib/history.ts.
pub mod Laws
use clawhum.Prelude.{
  ℕ, Bool, true, false, ◌||◌, Option, none, some, List, [], ◌∷◌, ◌++◌, if◌then◌else◌, is_empty,
  take,
}
use clawhum.Prelude.Text.{Text, is_space, trim, lower}
use clawhum.Prelude.TextSet.{has}

-- `s.replace(/\s+/g, "-")`; `inside` says that the run of spaces has had its dash.
unfoldable pub dash_spaces : Bool → Text → Text
unfolding is_space
dash_spaces inside [] = []
dash_spaces inside (c ∷ s) =
    let rest = dash_spaces (is_space c) s in
    if is_space c then (if inside then rest else b'-' ∷ rest) else c ∷ rest

unfoldable pub normal_tag : Text → Text
unfolding dash_spaces trim lower
normal_tag s = take 32 (dash_spaces false (lower (trim s)))

-- The loop; `seen` and `out` are its variables.
unfoldable pub normalise_from : List Text → List Text → List (Option Text) → List Text
unfolding normal_tag
normalise_from seen out [] = out
normalise_from seen out (none ∷ tags) = normalise_from seen out tags
normalise_from seen out (some raw ∷ tags) =
    let v = normal_tag raw in
    let skip = is_empty raw || is_empty v || has seen v in
    normalise_from (if skip then seen else seen ++ v ∷ []) (if skip then out else out ++ v ∷ [])
      tags

unfoldable pub normalise_tags : List (Option Text) → List Text
unfolding normalise_from
normalise_tags tags = normalise_from [] [] tags
