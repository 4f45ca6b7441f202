-- ===== src/Egress/Paths.antt =====
-- Paths in a payload (packages/sdk/src/obligations.ts): whether a value stands at one,
-- and members after another was deleted.
use arp.Common.{
  ◌≡◌, String, Bool, false, ◌||◌, Option, none, some, is_some, List, [], ◌∷◌, includes, string_eq,
  ◌==◌, if◌then◌else◌, arith,
}
use arp.Spec.{Json, arr, obj, Items, nil, cons, Members, end, member}
use arp.Message.{find_member}
use arp.Egress.{delete_member, update_member, keep_members}

unfoldable pub any_item : (Json → Bool) → Items → Bool
any_item f nil = false
any_item f (cons j js) = f j || any_item f js

-- f of a value, or of some item where the value is an array
abbrev pub within : (Json → Bool) → Json → Bool
within f (arr js) = any_item f js
within f j = f j

abbrev pub found : (Json → Bool) → Option Json → Bool
found f none = false
found f (some v) = f v

abbrev pub on_object : (Members → Bool) → Json → Bool
on_object f (obj ms) = f ms
on_object f j = false

unfoldable pub has_at : List String → Members → Bool
unfolding any_item find_member
has_at [] ms = false
has_at (h ∷ []) ms = is_some (find_member h ms)
has_at (h ∷ g ∷ rest) ms = found (within (on_object (has_at (g ∷ rest)))) (find_member h ms)

-- whether a value stands at the path, in some object of the array where a field's value is one
abbrev pub has_path : List String → Json → Bool
has_path path j = on_object (has_at path) j

pub find-delete :
    (k h : String) (ms : Members)
    → find_member k (delete_member h ms) ≡ (if h == k then none else find_member k ms)
unfolding find_member delete_member
find-delete k h end = ground arith
find-delete k h (member j w ms) = ground (
  arith,
  find-delete k h ms,
  string_eq.agrees_iff h k,
  string_eq.agrees_iff j h,
  string_eq.agrees_iff j k,
)

abbrev pub map_option : (Json → Json) → Option Json → Option Json
map_option f none = none
map_option f (some v) = some (f v)

pub find-update :
    (k h : String) (f : Json → Json) (ms : Members)
    → find_member k (update_member h f ms)
      ≡ (if h == k then map_option f (find_member k ms) else find_member k ms)
unfolding find_member update_member
find-update k h f end = ground arith
find-update k h f (member j w ms) = ground (
  arith,
  find-update k h f ms,
  string_eq.agrees_iff h k,
  string_eq.agrees_iff j h,
  string_eq.agrees_iff j k,
)

pub find-keep :
    (k : String) (fields : List String) (ms : Members)
    → find_member k (keep_members fields ms)
      ≡ (if includes fields k then find_member k ms else none)
unfolding find_member keep_members
find-keep k fields end = ground arith
find-keep k fields (member j w ms) = ground (arith, find-keep k fields ms, string_eq.agrees_iff j k)
