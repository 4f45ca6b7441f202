-- ===== src/Message.antt =====
-- Messages as packages/transport/src/types.ts declares them, and how packages/runtime/src/runtime.ts
-- reads one: its connection, whether it is a response, and the request that it asks to be decided.
use arp.Common.{
  ℕ, String, Bool, true, false, ◌||◌, Option, none, some, string_eq, ◌==◌, if◌then◌else◌, or_else,
}
use arp.Text.{ends_with, after_last, before_first, after_first}
use arp.Spec.{Json, str, arr, obj, Members, end, member}

pub record Message : Type 0 where
  pub id : String
  pub type : String
  pub thid : Option String
  pub created_time : Option ℕ
  pub body : Option Members

pub record Meta : Type 0 where
  pub peer_did : String
  pub received_at_ms : ℕ

pub record Entity : Type 0 where
  pub type : String
  pub id : String
  pub attrs : Option Json

pub record Request : Type 0 where
  pub action : String
  pub resource : Entity
  pub context : Json

unfoldable pub find_member : String → Members → Option Json
find_member k end = none
find_member k (member j v ms) = let rest = find_member k ms in if j == k then some v else rest

abbrev pub text_of : Option Json → Option String
text_of (some (str s)) = some s
text_of _ = none

abbrev pub body_of : Message → Members
body_of msg = or_else msg.body end

unfoldable pub extract_connection_id : Message → Option String
unfolding find_member
extract_connection_id msg = text_of (find_member "connection_id" (body_of msg))

unfoldable pub infer_action_from_type : String → String
unfolding after_last
infer_action_from_type type = or_else (after_last b'/' type) type

unfoldable pub is_response_type : String → Bool
unfolding ends_with
is_response_type type = ends_with "/response" type || ends_with "/reply" type

-- `typeof v === 'object' && v !== null`
abbrev is_object : Json → Bool
is_object (obj ms) = true
is_object (arr js) = true
is_object _ = false

abbrev pub object_of : Option Json → Option Json
object_of none = none
object_of (some v) = if is_object v then some v else none

abbrev pub entity : String → String → Option Json → Entity
entity type id attrs = record { type = type; id = id; attrs = attrs }

-- `spec.split(':', 2)`: the parts before and after the first colon, the second up to the next one
unfoldable pub split_resource : String → Entity
unfolding before_first after_first
split_resource spec = elim (after_first b':' spec) [
  | none ↦ entity spec spec none
  | some rest ↦
      entity (or_else (before_first b':' spec) spec) (or_else (before_first b':' rest) rest) none
]

abbrev typed_entity : Option String → Option String → Option Json → Entity
typed_entity (some type) (some id) attrs = entity type id attrs
typed_entity _ _ attrs = entity "Resource" "default" none

unfoldable pub coerce_resource : Option Json → Entity
unfolding split_resource find_member
coerce_resource (some (str spec)) = split_resource spec
coerce_resource (some (obj ms)) =
    typed_entity (text_of (find_member "type" ms)) (text_of (find_member "id" ms))
      (object_of (find_member "attrs" ms))
coerce_resource _ = entity "Resource" "default" none

-- `DEFAULT_REQUEST_MAPPER`
unfoldable pub default_request_mapper : Message → Request
unfolding find_member infer_action_from_type coerce_resource
default_request_mapper msg = record {
  action = or_else (text_of (find_member "action" (body_of msg))) (infer_action_from_type msg.type);
  resource = coerce_resource (find_member "resource" (body_of msg));
  context = or_else (object_of (find_member "context" (body_of msg))) (obj end);
}
