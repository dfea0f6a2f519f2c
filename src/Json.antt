-- ===== src/Json.antt =====
-- JSON values as `JSON.parse` gives them, the tests that the code makes on them, and a localStorage
-- entry read through `JSON.parse`. A number is a natural number. An object's keys are distinct.
use clawhum.Prelude.{
  ℕ, Bool, true, false, not, Option, none, some, List, [], ◌∷◌, if◌then◌else◌, ◌==◌, is_empty, ◌≡◌,
  refl, ap,
}
use clawhum.Prelude.Text.{Text, text_eq}

mutual
  pub data Json : Type 0 where
    null : Json
    bool : Bool → Json
    num : ℕ → Json
    str : Text → Json
    arr : Items → Json
    obj : Fields → Json

  pub data Items : Type 0 where
    nil : Items
    cons : Json → Items → Items

  pub data Fields : Type 0 where
    end : Fields
    field : Text → Json → Fields → Fields

abbrev pub items : Items → List Json
items nil = []
items (cons v vs) = v ∷ items vs

abbrev pub of_items : List Json → Items
of_items [] = nil
of_items (v ∷ vs) = cons v (of_items vs)

pub items-of_items : (vs : List Json) → items (of_items vs) ≡ vs
items-of_items [] = refl
items-of_items (v ∷ vs) = ap (λ l. v ∷ l) (items-of_items vs)

unfoldable pub field_of : Fields → Text → Option Json
unfolding text_eq
field_of end k = none
field_of (field j v fs) k = let rest = field_of fs k in if text_eq j k then some v else rest

-- `v.k`, with `undefined` as `none`; only an object has properties of the names that the code reads.
unfoldable pub get : Option Json → Text → Option Json
unfolding field_of
get (some (obj fs)) k = field_of fs k
get (some (arr vs)) k = none
get (some (str s)) k = none
get (some (num n)) k = none
get (some (bool b)) k = none
get (some null) k = none
get none k = none

-- `Boolean(v)`
unfoldable pub truthy : Option Json → Bool
truthy none = false
truthy (some null) = false
truthy (some (bool b)) = b
truthy (some (num n)) = not (n == 0)
truthy (some (str s)) = not (is_empty s)
truthy (some (arr vs)) = true
truthy (some (obj fs)) = true

-- `v && typeof v === "object"`
unfoldable pub is_object : Option Json → Bool
is_object (some (arr vs)) = true
is_object (some (obj fs)) = true
is_object (some null) = false
is_object (some (bool b)) = false
is_object (some (num n)) = false
is_object (some (str s)) = false
is_object none = false

-- `typeof v === "boolean" ? v : d`
unfoldable pub bool_or : Option Json → Bool → Bool
bool_or (some (bool b)) d = b
bool_or (some null) d = d
bool_or (some (num n)) d = d
bool_or (some (str s)) d = d
bool_or (some (arr vs)) d = d
bool_or (some (obj fs)) d = d
bool_or none d = d

-- `typeof v === "string"`
unfoldable pub is_text : Option Json → Bool
is_text (some (str s)) = true
is_text (some null) = false
is_text (some (bool b)) = false
is_text (some (num n)) = false
is_text (some (arr vs)) = false
is_text (some (obj fs)) = false
is_text none = false

-- An entry of localStorage: missing or empty, not JSON, or the value that it parses to.
pub data Cell : Type 0 where
  absent : Cell
  malformed : Cell
  parsed : Json → Cell
