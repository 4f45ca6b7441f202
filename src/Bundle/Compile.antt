-- ===== src/Bundle/Compile.antt =====
-- `compileBundle` of packages/scope-catalog/src/bundle-compiler.ts. What the
-- compiler of one scope returns, or throws, is a parameter.
use arp.Common.{ℕ, String, Option, none, some, List, [], ◌∷◌, ◌++◌, string_eq, length}
use arp.Common.JsMap.{JsMap, get}
use arp.Spec.{Obligation}
use arp.Bundle.{
  ScopeTemplate, Catalog, Result, ok, err, BundleError, scope_failed, scope_error, Expansion,
  detect_conflicts, expand_implications, index_catalog,
}
use arp.Bundle.Params.{resolve_params}

pub record CompiledBundle : Type 0 where
  pub policies : List String
  pub obligations : List Obligation
  pub expanded_scope_ids : List String

-- How `compileScope` ends: a policy, a `ScopeCompileError`, or another exception.
pub data Compiled (E : Type 0) : Type 0 where
  policy : String → Compiled E
  compile_error : E → Compiled E
  other_error : E → Compiled E

module _ {B E V : Type 0}
    (compile_scope : ScopeTemplate B → String → JsMap String V → Compiled E) where
  abbrev pub push_policy : Compiled E → String → List String → Result (BundleError E) (List String)
  push_policy (policy p) id policies = ok (policies ++ p ∷ [])
  push_policy (compile_error e) id policies = err (scope_error e)
  push_policy (other_error e) id policies = err (scope_failed id e)

  -- The loop over the order; `none` where a parameter walk runs out of its rounds.
  unfoldable pub compile_from :
      ℕ
      → Catalog B
      → JsMap String (JsMap String V)
      → JsMap String String
      → String
      → List String
      → List String
      → List Obligation
      → Option (Result (BundleError E) (List String × List Obligation))
  compile_from fuel idx pm by audience [] policies obligations = some (ok (policies, obligations))
  compile_from fuel idx pm by audience (id ∷ ids) policies obligations = elim (get id idx) [
    | none ↦ compile_from fuel idx pm by audience ids policies obligations
    | some scope ↦ elim (resolve_params fuel pm by scope.id) [
      | none ↦ none
      | some params ↦ elim (push_policy (compile_scope scope audience params) id policies) [
        | err e ↦ some (err e)
        | ok policies' ↦
            compile_from fuel idx pm by audience ids policies'
              (obligations ++ scope.obligations_forced)
      ]
    ]
  ]

  unfoldable pub compile_order :
      Catalog B
      → JsMap String (JsMap String V)
      → String
      → Expansion
      → Option (Result (BundleError E) CompiledBundle)
  compile_order idx pm audience x =
      elim (compile_from (length x.order) idx pm x.implied_by audience x.order [] []) [
        | none ↦ none
        | some (err e) ↦ some (err e)
        | some (ok (policies, obligations)) ↦ some (
            ok (record {
              policies = policies;
              obligations = obligations;
              expanded_scope_ids = x.order;
            }))
      ]

  unfoldable pub compile_bundle :
      List (ScopeTemplate B)
      → List String
      → JsMap String (JsMap String V)
      → String
      → Option (Result (BundleError E) CompiledBundle)
  unfolding compile_order compile_from
  compile_bundle catalog scope_ids params_map audience =
      let idx = index_catalog catalog in
      elim (expand_implications idx {E = E} scope_ids) [
        | none ↦ none
        | some (err e) ↦ some (err e)
        | some (ok x) ↦ elim (detect_conflicts idx {E = E} x.order) [
          | some e ↦ some (err e)
          | none ↦ compile_order idx params_map audience x
        ]
      ]
