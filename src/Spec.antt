-- ===== src/Spec.antt =====
-- The shared wire types of packages/spec/src/schemas: JSON values, obligations and connection
-- tokens (connection-token.ts), with the token's schema test. The regular expressions and the date
-- format that the schema names are parameters, since the schema library evaluates them.
use arp.Common.{
  ℕ, String, Bool, true, Option, ◌&&◌, List, [], ◌∷◌, ltb, length, string_eq, ◌==◌, not,
}
use arp.Common.JsMap.{JsMap}

-- A JSON value. Numbers are the non-negative integers that the modelled code produces.
mutual
  pub data Json : Type 0 where
    null : Json
    bool : Bool → Json
    num : ℕ → Json
    str : String → Json
    arr : Items → Json
    obj : Members → Json

  pub data Items : Type 0 where
    nil : Items
    cons : Json → Items → Items

  pub data Members : Type 0 where
    end : Members
    member : String → Json → Members → Members

pub record Obligation : Type 0 where
  pub type : String
  pub params : Members

pub record ConnectionToken : Type 0 where
  pub connection_id : String
  pub issuer : String
  pub subject : String
  pub audience : String
  pub purpose : String
  pub cedar_policies : List String
  pub obligations : List Obligation
  pub scope_catalog_version : String
  pub expires : String
  pub sigs : JsMap String String
  -- beyond the schema, which strips it: a token from elsewhere may have it
  pub replaces : Option String

-- The tests that the schema delegates: the identifier pattern, the DID pattern, ISO 8601.
pub record FieldTests : Type 0 where
  pub is_connection_id : String → Bool
  pub is_did : String → Bool
  pub is_datetime : String → Bool

abbrev pub non_empty : String → Bool
non_empty s = not (s == "")

pub all_non_empty : List String → Bool
all_non_empty [] = true
all_non_empty (s ∷ ss) = non_empty s && all_non_empty ss

all_obligations : List Obligation → Bool
all_obligations [] = true
all_obligations (o ∷ os) = non_empty o.type && all_obligations os

all_sigs : JsMap String String → Bool
all_sigs [] = true
all_sigs ((k, v) ∷ m) = non_empty v && all_sigs m

-- `ConnectionTokenSchema.safeParse(t).success` for a value with the token's fields
unfoldable pub token_ok : FieldTests → ConnectionToken → Bool
unfolding all_non_empty all_obligations all_sigs
token_ok f t =
    f.is_connection_id t.connection_id
    && f.is_did t.issuer
    && f.is_did t.subject
    && f.is_did t.audience
    && non_empty t.purpose
    && (ltb 0 (length t.cedar_policies) && all_non_empty t.cedar_policies)
    && all_obligations t.obligations
    && f.is_datetime t.expires
    && (ltb 1 (length t.sigs) && all_sigs t.sigs)
