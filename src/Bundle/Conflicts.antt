-- ===== src/Bundle/Conflicts.antt =====
-- `detectConflicts` of packages/scope-catalog/src/bundle-compiler.ts: which sets of scopes it passes.
use mathlib.Core.Path.{subst}
use mathlib.Core.Option.{some-injective}
use arp.Common.{
  ◌≡◌, String, true, false, inl, inr, none, some, Option-cases, List, [], ◌∷◌, arith, string_eq,
  includes,
}
use arp.Common.JsMap.{get}
use arp.Bundle.{
  ScopeTemplate, Catalog, BundleError, conflict, first_conflict, detect_from, detect_conflicts,
}

module _ {B : Type 0} (idx : Catalog B) where
  -- no scope of the set names another scope of the set as a conflict
  abbrev pub IsConflictFree : List String → Type 0
  IsConflictFree expanded =
      (i c : String) (s : ScopeTemplate B)
      → includes expanded i ≡ true
      → get i idx ≡ some s
      → includes s.conflicts_with c ≡ true
      → includes expanded c ≡ false

  first_conflict-none :
      (expanded cs : List String) (c : String)
      → first_conflict idx expanded cs ≡ none
      → includes cs c ≡ true
      → includes expanded c ≡ false
  unfolding first_conflict
  first_conflict-none expanded [] c h m = cc
  first_conflict-none expanded (d ∷ cs) c h m =
      ground (arith, first_conflict-none expanded cs c, string_eq.agrees_iff d c)

  first_conflict-some :
      (expanded cs : List String) (c : String)
      → first_conflict idx expanded cs ≡ some c
      → (includes cs c ≡ true) × (includes expanded c ≡ true)
  unfolding first_conflict
  first_conflict-some expanded [] c h = cc
  first_conflict-some expanded (d ∷ cs) c h =
      ground (arith, first_conflict-some expanded cs c, string_eq.agrees_iff d c)

module _ {B E : Type 0} (idx : Catalog B) where
  detect_none :
      (expanded ids : List String) (i c : String) (s : ScopeTemplate B)
      → detect_from idx {E = E} expanded ids ≡ none
      → includes ids i ≡ true
      → get i idx ≡ some s
      → includes s.conflicts_with c ≡ true
      → includes expanded c ≡ false
  unfolding detect_from
  detect_none expanded [] i c s h m g n = cc
  detect_none expanded (d ∷ ids) i c s h m g n = ground (
    arith,
    string_eq.agrees_iff d i,
    detect_none expanded ids i c s,
    first_conflict-none idx expanded s.conflicts_with c,
  )

  -- what a refusal names: two expanded scopes, the first of which lists the second
  abbrev pub NamesConflict : List String → BundleError E → Type 0
  NamesConflict expanded (conflict i c) =
      (s : ScopeTemplate B) × (includes expanded i ≡ true)
      × (get i idx ≡ some s)
      × (includes s.conflicts_with c ≡ true)
      × (includes expanded c ≡ true)
  NamesConflict expanded _ = ⊥

  detect_some :
      (expanded ids : List String) (e : BundleError E)
      → ((i : String) → includes ids i ≡ true → includes expanded i ≡ true)
      → detect_from idx expanded ids ≡ some e
      → NamesConflict expanded e
  unfolding detect_from
  detect_some expanded [] e sub h = cc
  detect_some expanded (d ∷ ids) e sub h = elim (Option-cases (get d idx)) [
    | inl missing ↦
        detect_some expanded ids e (λ i m. sub i (ground arith)) (rw (missing, detect_from) at h)
    | inr (s, found) ↦ elim (Option-cases (first_conflict idx expanded s.conflicts_with)) [
      | inl clear ↦
          detect_some expanded ids e (λ i m. sub i (ground arith))
            (rw (found, clear, detect_from) at h)
      | inr (c, hit) ↦
          let (listed, present) = first_conflict-some idx expanded s.conflicts_with c hit in
          subst (NamesConflict expanded) (some-injective _ e (rw (found, hit, detect_from) at h))
            (s, sub d (ground (arith, string_eq.agrees_iff d d)), found, listed, present)
    ]
  ]

  -- The check passes only a set in which no scope lists another one as a conflict, and refuses only
  -- by naming two scopes of the set, the first of which lists the second.
  pub detect_conflicts_lem :
      (expanded : List String)
      → (detect_conflicts idx {E = E} expanded ≡ none → IsConflictFree idx expanded)
        × ((e : BundleError E) → detect_conflicts idx expanded ≡ some e → NamesConflict expanded e)
  unfolding detect_conflicts
  detect_conflicts_lem expanded = (
    λ h i c s m g n. detect_none expanded expanded i c s h m g n,
    λ e h. detect_some expanded expanded e (λ i m. m) h,
  )
