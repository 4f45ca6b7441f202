-- ===== src/Egress.antt =====
-- packages/sdk/src/obligations.ts: the obligations that a reply's payload passes before it leaves
-- the agent. Objects are lists of members with one value for a key; regular expressions, splitting
-- into words and JSON text are parameters.
pub mod Paths
pub mod Absent
pub mod Redacted
pub mod Guard
pub mod Guarded
mod Tests
use arp.Common.{
  ℕ, suc, String, Bool, true, false, not, ◌&&◌, Option, none, some, List, [], ◌∷◌, includes, take,
  length, string_eq, ◌==◌, if◌then◌else◌, or_else,
}
use arp.Text.{split, join, truthy}
use arp.Spec.{Json, null, num, str, arr, obj, Items, nil, cons, Members, end, member, Obligation}
use arp.Message.{find_member, text_of}

-- `out[k] = v`, the rest as it was: `{ ...members, [k]: v }`
unfoldable pub set_member : String → Json → Members → Members
set_member k v end = member k v end
set_member k v (member j w ms) =
    let rest = set_member k v ms in if j == k then member j v ms else member j w rest

-- `delete members[k]`
unfoldable pub delete_member : String → Members → Members
delete_member k end = end
delete_member k (member j w ms) =
    let rest = delete_member k ms in if j == k then rest else member j w rest

-- the value of a key, replaced by f of it
unfoldable pub update_member : String → (Json → Json) → Members → Members
update_member k f end = end
update_member k f (member j w ms) =
    let rest = update_member k f ms in if j == k then member j (f w) rest else member j w rest

unfoldable pub map_items : (Json → Json) → Items → Items
map_items f nil = nil
map_items f (cons j js) = cons (f j) (map_items f js)

-- f of a value, or of each item where the value is an array
abbrev pub through : (Json → Json) → Json → Json
through f (arr js) = arr (map_items f js)
through f j = f j

-- f of the members of a plain object; any other value stays
abbrev pub in_object : (Members → Members) → Json → Json
in_object f (obj ms) = obj (f ms)
in_object f j = j

-- `deletePath` of a plain object
unfoldable pub delete_at : List String → Members → Members
unfolding delete_member update_member map_items
delete_at [] ms = ms
delete_at (h ∷ []) ms = delete_member h ms
delete_at (h ∷ g ∷ rest) ms = update_member h (through (in_object (delete_at (g ∷ rest)))) ms

-- `deletePath`
abbrev pub delete_path : List String → Json → Json
delete_path path j = in_object (delete_at path) j

unfoldable pub redact_fields : List String → Json → Json
unfolding delete_at
redact_fields [] j = j
redact_fields (p ∷ ps) j = redact_fields ps (delete_path (split b'.' p) j)

unfoldable pub keep_members : List String → Members → Members
keep_members fields end = end
keep_members fields (member k v ms) =
    let rest = keep_members fields ms in if includes fields k then member k v rest else rest

unfoldable pub redact_fields_except : List String → Json → Json
unfolding keep_members
redact_fields_except [] (obj ms) = obj end
redact_fields_except (f ∷ fs) (obj ms) = obj (keep_members (f ∷ fs) ms)
redact_fields_except fields j = j

-- the texts of an array
unfoldable pub texts_of : Items → List String
texts_of nil = []
texts_of (cons (str s) js) = s ∷ texts_of js
texts_of (cons j js) = texts_of js

abbrev pub string_array : Option Json → List String
string_array (some (arr js)) = texts_of js
string_array _ = []

-- `walkStrings`
unfoldable mutual
  pub walk_strings : (String → String) → Json → Json
  walk_strings f (str s) = str (f s)
  walk_strings f (arr js) = arr (walk_items f js)
  walk_strings f (obj ms) = obj (walk_members f ms)
  walk_strings f null = null
  walk_strings f (Json.bool b) = Json.bool b
  walk_strings f (num n) = num n

  walk_items : (String → String) → Items → Items
  walk_items f nil = nil
  walk_items f (cons j js) = cons (walk_strings f j) (walk_items f js)

  walk_members : (String → String) → Members → Members
  walk_members f end = end
  walk_members f (member k v ms) = member k (walk_strings f v) (walk_members f ms)

-- `addMarker`
unfoldable pub add_marker : String → Json → Json → Json
unfolding set_member
add_marker k v (obj ms) = obj (set_member k v ms)
add_marker k v j = obj (member "value" j (member k v end))

items_length : Items → ℕ
items_length nil = 0
items_length (cons j js) = suc (items_length js)

abbrev counted : Json → Members → Members
counted n rest = member "count" n (member "aggregate" (str "count") rest)

abbrev marked : Members
marked = member "_obligation" (str "aggregate_only") end

abbrev no_rows : Json
no_rows = obj (member "aggregate" (str "count") (member "count" (num 1) marked))

-- the first array of an object, by its key
first_array : Members → Json
first_array end = no_rows
first_array (member k (arr js) ms) = obj (
    set_member "_obligation" (str "aggregate_only")
      (member k (obj (counted (num (items_length js)) end)) end))
first_array (member k v ms) = first_array ms

unfoldable pub aggregate_only : Json → Json
unfolding first_array items_length set_member
aggregate_only (arr js) = obj (counted (num (items_length js)) marked)
aggregate_only (obj ms) = first_array ms
aggregate_only j = no_rows

-- `replace` is none where the pattern does not compile; a max_words that is no number is 50
pub record Services : Type 0 where
  pub stringify : Json → String
  pub words : String → List String
  pub replace : String → String → Option (String → String)

abbrev number_of : Option Json → Option ℕ
number_of (some (num n)) = some n
number_of _ = none

module _ (s : Services) where
  abbrev text_for : Json → String
  text_for (str t) = t
  text_for j = s.stringify j

  unfoldable pub summarize_only : ℕ → Json → Json
  summarize_only max j = obj (
      member "summary" (str (join " " (take max (s.words (text_for j)))))
        (member "_obligation" (str "summarize_only") (member "max_words" (num max) end)))

  unfoldable pub redact_regex : String → String → Json → Json
  unfolding walk_strings walk_items walk_members
  redact_regex pattern replacement j = elim (s.replace pattern replacement) [
    | none ↦ j
    | some f ↦ walk_strings f j
  ]

  -- one obligation; the types that are enforced elsewhere, and unknown ones, change nothing
  unfoldable pub apply_one : Obligation → Json → Json
  unfolding redact_fields redact_fields_except redact_regex summarize_only aggregate_only add_marker
      texts_of
  apply_one o j =
      if o.type == "redact_fields"
      then redact_fields (string_array (find_member "fields" o.params)) j
      else if o.type == "redact_fields_except"
      then redact_fields_except (string_array (find_member "fields" o.params)) j
      else if o.type == "redact_regex"
      then elim (truthy (text_of (find_member "pattern" o.params))) [
        | none ↦ j
        | some pattern ↦
            redact_regex pattern
              (or_else (text_of (find_member "replacement" o.params)) "[redacted]") j
      ]
      else if o.type == "summarize_only"
      then summarize_only (or_else (number_of (find_member "max_words" o.params)) 50) j
      else if o.type == "aggregate_only"
      then aggregate_only j
      else if o.type == "insert_watermark"
      then add_marker "_watermark" (obj o.params) j
      else if o.type == "no_downstream_share"
      then add_marker "_no_downstream_share" (Json.bool true) j
      else j

  unfoldable pub apply_obligations : List Obligation → Json → Json
  unfolding apply_one
  apply_obligations [] j = j
  apply_obligations (o ∷ os) j = apply_obligations os (apply_one o j)
