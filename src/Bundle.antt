-- ===== src/Bundle.antt =====
-- packages/scope-catalog/src/bundle-compiler.ts: expanding `implies`, refusing conflicts, and
-- compiling every expanded scope. The scope template is that of packages/spec; the compiler of one
-- scope (packages/scope-catalog/src/compiler.ts) is a parameter here.
pub mod Fuel
pub mod Closure
pub mod Ranks
pub mod Parents
pub mod Params
pub mod Conflicts
pub mod Compile
pub mod Compiled
mod Tests
use arp.Common.{
  ℕ, zero, suc, ◌+◌, String, Bool, true, false, not, Option, none, some, List, [], ◌∷◌, ◌++◌, map,
  string_eq, ◌==◌, if◌then◌else◌, includes, keep, length, or_else, ◌&&◌, is_some,
}
use arp.Common.JsMap.{JsMap, get, set, has}
use arp.Spec.{Obligation}

-- The fields of `ScopeTemplate` that the bundle compiler reads; `body` is the rest (the Cedar
-- template and the parameter declarations), which it passes to the scope compiler.
pub record ScopeTemplate (B : Type 0) : Type 0 where
  pub id : String
  pub implies : List String
  pub conflicts_with : List String
  pub obligations_forced : List Obligation
  pub body : B

pub data Result (E A : Type 0) : Type 0 where
  ok : A → Result E A
  err : E → Result E A

-- `BundleCompileError` (unknown scope, conflict, failed scope), and the scope compiler's own error.
pub data BundleError (E : Type 0) : Type 0 where
  unknown_scope : String → BundleError E
  conflict : String → String → BundleError E
  scope_failed : String → E → BundleError E
  scope_error : E → BundleError E

abbrev pub Catalog : Type 0 → Type 0
Catalog B = JsMap String (ScopeTemplate B)

-- an entry of the work queue: the scope and the scope that pulled it in
abbrev pub Queued : Type 0
Queued = String × Option String

pub record Expansion : Type 0 where
  pub order : List String
  pub implied_by : JsMap String String

index_from : {B : Type 0} → Catalog B → List (ScopeTemplate B) → Catalog B
index_from m [] = m
index_from m (s ∷ ss) = index_from (set s.id s m) ss

unfoldable pub index_catalog : {B : Type 0} → List (ScopeTemplate B) → Catalog B
unfolding index_from
index_catalog = index_from []

-- `for (const implied of scope.implies) if (!visited.has(implied)) queue.push(…)`
unfoldable pub children : String → List String → List String → List Queued
children parent visited implies =
    map (λ j. (j, some parent)) (keep (λ j. not (includes visited j)) implies)

-- `if (parent !== null && !impliedBy.has(id)) impliedBy.set(id, parent)`
unfoldable pub note_parent : String → Option String → JsMap String String → JsMap String String
note_parent id none by = by
note_parent id (some parent) by = if has id by then by else set id parent by

-- how many implications the scopes outside `visited` have
unfoldable pub pending : {B : Type 0} → Catalog B → List String → ℕ
pending [] visited = 0
pending ((k, s) ∷ m) visited =
    (if includes visited k then 0 else length s.implies) + pending m visited

unfoldable pub seeds : List String → List Queued
seeds ids = map (λ id. (id, none)) ids

module _ {B : Type 0} (idx : Catalog B) where
  -- The `while` loop of `expandImplications`, on fuel; `none` means that the fuel ran out.
  unfoldable pub expand :
      {E : Type 0}
      → ℕ
      → List Queued
      → List String
      → List String
      → JsMap String String
      → Option (Result (BundleError E) Expansion)
  expand fuel [] visited order by = some (ok (record { order = order; implied_by = by }))
  expand zero (x ∷ queue) visited order by = none
  expand (suc fuel) ((id, parent) ∷ queue) visited order by = elim (includes visited id) [
    | true ↦ expand fuel queue visited order by
    | false ↦ elim (get id idx) [
      | none ↦ some (err (unknown_scope id))
      | some scope ↦
          let visited' = visited ++ id ∷ [] in
          expand fuel (queue ++ children id visited' scope.implies) visited' (order ++ id ∷ [])
            (note_parent id parent by)
    ]
  ]

  unfoldable pub expand_implications :
      {E : Type 0} → List String → Option (Result (BundleError E) Expansion)
  expand_implications ids = expand (length ids + pending idx []) (seeds ids) [] [] []

  -- the inner loop of `detectConflicts`, for one scope
  unfoldable pub first_conflict : List String → List String → Option String
  first_conflict expanded [] = none
  first_conflict expanded (c ∷ cs) =
      let rest = first_conflict expanded cs in if includes expanded c then some c else rest

  unfoldable pub detect_from : {E : Type 0} → List String → List String → Option (BundleError E)
  detect_from expanded [] = none
  detect_from expanded (id ∷ ids) = elim (get id idx) [
    | none ↦ detect_from expanded ids
    | some scope ↦ elim (first_conflict expanded scope.conflicts_with) [
      | none ↦ detect_from expanded ids
      | some c ↦ some (conflict id c)
    ]
  ]

  -- `none` where the set is free of conflicts
  unfoldable pub detect_conflicts : {E : Type 0} → List String → Option (BundleError E)
  unfolding detect_from first_conflict
  detect_conflicts expanded = detect_from expanded expanded
