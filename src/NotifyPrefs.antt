-- ===== src/NotifyPrefs.antt =====
-- web/lib/notifyPrefs.ts: the notification preferences and the log of fired notifications.
-- `Device` is what the functions act on; `events` counts the events that they dispatch. `accepts` says
-- whether `setItem` takes a value; where it does not, the function throws, which is `none`.
pub mod Prefs
pub mod Fired
use clawhum.Prelude.{
  ℕ, suc, ◌+◌, Bool, true, false, not, ◌&&◌, Option, none, some, List, [], ◌∷◌, ◌++◌, if◌then◌else◌,
  any, filter, take,
}
use clawhum.Prelude.Text.{Text, codes, text_eq}
use clawhum.Json.{
  Json, bool, num, str, arr, obj, end, field, items, of_items, field_of, get, truthy, is_object,
  bool_or, is_text, Cell, absent, malformed, parsed,
}

pub data NotifyKind : Type 0 where
  match_kind delivery_kind : NotifyKind

pub record Kinds : Type 0 where
  pub match : Bool
  pub delivery : Bool

pub record NotifyPrefs : Type 0 where
  pub enabled : Bool
  pub kinds : Kinds
  pub sound : Bool
  pub only_when_hidden : Bool

abbrev pub default_prefs : NotifyPrefs
default_prefs = record {
  enabled = false;
  kinds = record { match = true; delivery = true };
  sound = false;
  only_when_hidden = true;
}

pub record FiredEntry : Type 0 where
  pub id : Text
  pub kind : NotifyKind
  pub title : Text
  pub body : Text
  pub at : ℕ
  pub href : Text

abbrev pub fired_max : ℕ
fired_max = 50

pub record Device : Type 0 where
  pub window : Bool
  pub prefs : Cell
  pub fired : Cell
  pub events : ℕ

-- What `JSON.stringify` writes of the preferences and of an entry.
unfoldable pub prefs_json : NotifyPrefs → Json
prefs_json p = obj (
    field (codes "enabled") (bool p.enabled) (
      field (codes "kinds")
        (obj (
          field (codes "match") (bool p.kinds.match)
            (field (codes "delivery") (bool p.kinds.delivery) end)))
        (field (codes "sound") (bool p.sound)
          (field (codes "onlyWhenHidden") (bool p.only_when_hidden) end))))

unfoldable pub kind_text : NotifyKind → Text
kind_text match_kind = codes "match"
kind_text delivery_kind = codes "delivery"

unfoldable pub entry_json : FiredEntry → Json
unfolding kind_text
entry_json e = obj (
    field (codes "id") (str e.id) (
      field (codes "kind") (str (kind_text e.kind)) (
        field (codes "title") (str e.title) (
          field (codes "body") (str e.body)
            (field (codes "at") (num e.at) (field (codes "href") (str e.href) end))))))

-- `safeParse(raw, fallback)`
unfoldable pub safe_parse : Cell → Json → Json
safe_parse absent fallback = fallback
safe_parse malformed fallback = fallback
safe_parse (parsed v) fallback = if is_object (some v) then v else fallback

-- `p.kinds && typeof p.kinds[k] === "boolean" ? p.kinds[k] : d`
abbrev pub kind_or : Option Json → Text → Bool → Bool
kind_or kinds k d = if truthy kinds then bool_or (get kinds k) d else d

unfoldable pub merge_prefs : Option Json → NotifyPrefs
unfolding get truthy bool_or
merge_prefs p = record {
  enabled = bool_or (get p (codes "enabled")) default_prefs.enabled;
  kinds = record {
    match = kind_or (get p (codes "kinds")) (codes "match") default_prefs.kinds.match;
    delivery = kind_or (get p (codes "kinds")) (codes "delivery") default_prefs.kinds.delivery;
  };
  sound = bool_or (get p (codes "sound")) default_prefs.sound;
  only_when_hidden = bool_or (get p (codes "onlyWhenHidden")) default_prefs.only_when_hidden;
}

unfoldable pub load_prefs : Device → NotifyPrefs
load_prefs d =
    if not d.window then default_prefs else merge_prefs (some (safe_parse d.prefs (obj end)))

-- The entries that are objects with a text as id and as title.
unfoldable pub is_entry : Json → Bool
unfolding is_object is_text get
is_entry v =
    is_object (some v)
    && is_text (get (some v) (codes "id"))
    && is_text (get (some v) (codes "title"))

abbrev pub array_entries : Json → List Json
array_entries (arr vs) = take fired_max (filter is_entry (items vs))
array_entries Json.null = []
array_entries (bool b) = []
array_entries (num n) = []
array_entries (str s) = []
array_entries (obj fs) = []

unfoldable pub load_fired : Device → List Json
unfolding safe_parse is_entry
load_fired d = if not d.window then [] else array_entries (safe_parse d.fired (arr (of_items [])))

-- `e.id === id`
abbrev pub is_same_text : Option Json → Text → Bool
is_same_text (some (str s)) t = text_eq s t
is_same_text (some Json.null) t = false
is_same_text (some (bool b)) t = false
is_same_text (some (num n)) t = false
is_same_text (some (arr vs)) t = false
is_same_text (some (obj fs)) t = false
is_same_text none t = false

unfoldable pub has_entry_id : Text → Json → Bool
unfolding get
has_entry_id id v = is_same_text (get (some v) (codes "id")) id

unfoldable pub clear_fired : Device → Device
clear_fired d = if not d.window then d else record d { fired = absent; events = suc d.events }

module _ (accepts : Json → Bool) where
  unfoldable pub save_prefs : Device → NotifyPrefs → Option Device
  save_prefs d p =
      if not d.window
      then some d
      else if accepts (prefs_json p)
      then some (record d { prefs = parsed (prefs_json p); events = suc d.events })
      else none

  -- What `appendFired` writes.
  abbrev pub next_fired : Device → FiredEntry → List Json
  next_fired d e = take fired_max (entry_json e ∷ load_fired d)

  unfoldable pub append_fired : Device → FiredEntry → Option Device
  append_fired d e =
      if not d.window
      then some d
      else if any (has_entry_id e.id) (load_fired d)
      then some d
      else if accepts (arr (of_items (next_fired d e)))
      then some
          (record d { fired = parsed (arr (of_items (next_fired d e))); events = suc d.events })
      else none
