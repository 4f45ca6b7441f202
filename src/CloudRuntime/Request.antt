-- ===== src/CloudRuntime/Request.antt =====
-- The request that a message asks to be decided (packages/cloud-runtime/src/dispatch.ts,
-- mapRequest), with the scopes of action-map.ts. The map that buildMap reads off the bundled
-- catalog by regular expressions is an argument.
use arp.Common.{
  String, Bool, not, ◌&&◌, ◌||◌, Option, none, some, is_some, string_eq, if◌then◌else◌, or_else,
}
use arp.Common.JsMap.{JsMap, get}
use arp.Text.{ends_with, truthy}
use arp.Spec.{obj, Members, end}
use arp.Message.{
  Message, Entity, Request, find_member, text_of, body_of, object_of, entity,
  infer_action_from_type, coerce_resource,
}

pub record ScopeResourceTemplate : Type 0 where
  pub type : String
  pub id_param : Option String
  pub literal_id : Option String

pub record ScopeMapping : Type 0 where
  pub cedar_action : String
  pub resource : Option ScopeResourceTemplate

abbrev pub ActionMap : Type 0
ActionMap = JsMap String ScopeMapping

unfoldable pub scope_id_to_cedar_action : ActionMap → String → String
scope_id_to_cedar_action m action = elim (get action m) [
  | none ↦ action
  | some scope ↦ scope.cedar_action
]

unfoldable pub scope_id_to_resource_template : ActionMap → String → Option ScopeResourceTemplate
scope_id_to_resource_template m action = elim (get action m) [
  | none ↦ none
  | some scope ↦ scope.resource
]

-- the type's suffix makes it a response, in the cloud's dispatch
unfoldable pub is_response : String → Bool
is_response type = ends_with "/response" type || ends_with ".response" type

-- no action (or an empty one), a text, and no resource
unfoldable pub is_plain_text : Members → Bool
is_plain_text body =
    not (is_some (truthy (text_of (find_member "action" body))))
    && is_some (text_of (find_member "text" body))
    && not (is_some (find_member "resource" body))

-- `tpl.idParam ? body[tpl.idParam] : tpl.literalId`, where it is a text
abbrev template_id : ScopeResourceTemplate → Members → Option String
template_id tpl body = elim (truthy tpl.id_param) [
  | none ↦ tpl.literal_id
  | some param ↦ text_of (find_member param body)
]

-- the entity of a scope's template, `none` where its id is no text
unfoldable pub template_entity : ScopeResourceTemplate → Members → Option Entity
template_entity tpl body = elim (template_id tpl body) [
  | none ↦ none
  | some id ↦ some (entity tpl.type id none)
]

-- the entity of an action's scope, or the default one
unfoldable pub scope_resource : ActionMap → Option String → Members → Entity
unfolding scope_id_to_resource_template template_entity
scope_resource m none body = coerce_resource none
scope_resource m (some action) body = elim (scope_id_to_resource_template m action) [
  | none ↦ coerce_resource none
  | some tpl ↦ or_else (template_entity tpl body) (coerce_resource none)
]

unfoldable pub map_request : ActionMap → Message → Request
unfolding is_plain_text scope_resource scope_id_to_cedar_action
map_request m msg =
    let body = body_of msg in
    let explicit = text_of (find_member "action" body) in
    let plain = is_plain_text body in
    let raw =
      or_else explicit (if plain then "relay_to_principal" else infer_action_from_type msg.type) in
    record {
      action = scope_id_to_cedar_action m raw;
      resource =
          if plain then entity "Principal" "self" none else elim (find_member "resource" body) [
            | some given ↦ coerce_resource (some given)
            | none ↦ scope_resource m (truthy explicit) body
          ];
      context = or_else (object_of (find_member "context" body)) (obj end);
    }
