-- ===== src/Bundle/Tests.antt =====
-- A catalog of three scopes with a cycle of implications, and the theorems at it.
use arp.Common.{◌≡◌, refl, String, none, some, List, [], ◌∷◌, string_eq, or_else, length}
use arp.Common.JsMap.{JsMap, get, set}
use arp.Bundle.{
  ScopeTemplate, Catalog, Result, ok, BundleError, Expansion, expand, seeds, pending, children,
  note_parent, expand_implications, index_catalog, detect_conflicts,
}
use arp.Bundle.Closure.{Correct, expand_implications_lem}
use arp.Bundle.Params.{walk, grandparent, add_inherited, resolve_params, resolve_params_lem}
use arp.Bundle.Conflicts.{IsConflictFree, NamesConflict, detect_conflicts_lem}
use arp.Bundle.Compile.{CompiledBundle, Compiled, policy, compile_bundle}
use arp.Bundle.Compiled.{compile_bundle_lem, BundleCorrect}

abbrev scope : String → List String → ScopeTemplate String
scope id implies = record {
  id = id;
  implies = implies;
  conflicts_with = [];
  obligations_forced = [];
  body = id;
}

abbrev catalog : List (ScopeTemplate String)
catalog = scope "read" ("list" ∷ []) ∷ scope "list" ("meta" ∷ []) ∷ scope "meta" ("read" ∷ []) ∷ []

abbrev idx : Catalog String
idx = index_catalog catalog

abbrev params : JsMap String (JsMap String String)
params = ("read", ("project", "p1") ∷ []) ∷ []

abbrev stub : ScopeTemplate String → String → JsMap String String → Compiled String
stub s audience own = policy (or_else (get "project" own) "none")

abbrev expansion : Expansion
expansion = record {
  order = "read" ∷ "list" ∷ "meta" ∷ [];
  implied_by = ("list", "read") ∷ ("meta", "list") ∷ [];
}

expands : expand_implications idx {E = String} ("read" ∷ []) ≡ some (ok expansion)
unfolding expand_implications index_catalog expand seeds pending set get children note_parent
expands = refl

inherits : resolve_params 3 params expansion.implied_by "meta" ≡ some (("project", "p1") ∷ [])
unfolding resolve_params walk get grandparent add_inherited set
inherits = refl

expand_implications_lem_example :
    (r : Result (BundleError String) Expansion) × (expand_implications idx ("read" ∷ []) ≡ some r)
    × Correct idx ("read" ∷ []) r
expand_implications_lem_example = expand_implications_lem idx ("read" ∷ [])

resolve_params_lem_example :
    (r : JsMap String String) × (resolve_params
        (length expansion.order)
        params
        expansion.implied_by
        "read"
      ≡ some r)
    × ((k : String) (v : String)
        → get k (or_else (get "read" params) []) ≡ some v
        → get k r ≡ some v)
resolve_params_lem_example =
    resolve_params_lem {E = String} idx ("read" ∷ []) expansion params "read" expands

detect_conflicts_lem_example :
    (detect_conflicts idx {E = String} ("read" ∷ "list" ∷ []) ≡ none
      → IsConflictFree idx ("read" ∷ "list" ∷ []))
    × ((e : BundleError String)
        → detect_conflicts idx ("read" ∷ "list" ∷ []) ≡ some e
        → NamesConflict idx ("read" ∷ "list" ∷ []) e)
detect_conflicts_lem_example = detect_conflicts_lem idx ("read" ∷ "list" ∷ [])

compile_bundle_lem_example :
    (r : Result (BundleError String) CompiledBundle) × (compile_bundle stub catalog
        ("read" ∷ [])
        params
        "did:web:agent"
      ≡ some r)
    × BundleCorrect stub (index_catalog catalog) ("read" ∷ []) params "did:web:agent" r
compile_bundle_lem_example = compile_bundle_lem stub catalog ("read" ∷ []) params "did:web:agent"
