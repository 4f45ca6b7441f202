-- ===== src/Bundle/Fuel.antt =====
-- The expansion loop ends: each round either drops a queue entry or visits a new scope, whose
-- implications are then no longer pending.
use arp.Common.{
  ℕ, zero, suc, ◌+◌, ◌≤◌, ◌≡◌, refl, String, false, not, inl, inr, none, some, Bool-cases,
  Option-cases, List, [], ◌∷◌, ◌++◌, map, arith, string_eq, ◌==◌, includes, includes-append, keep,
  length, length-append, length-keep,
}
use arp.Common.JsMap.{JsMap, get}
use arp.Bundle.{
  ScopeTemplate, Catalog, Queued, Result, err, BundleError, unknown_scope, Expansion, children,
  note_parent, expand, pending, seeds, expand_implications,
}

length-map {ℓ κ} :
    {A : Type ℓ} {B : Type κ} (f : A → B) (xs : List A) → length (map f xs) ≡ length xs
length-map f [] = refl
length-map f (x ∷ xs) = omega (arith, length-map f xs)

length-children :
    (parent : String) (visited implies : List String)
    → length (children parent visited implies) ≤ length implies
unfolding children
length-children parent visited implies = omega (
  arith,
  length-map {A = String} {B = Queued} (λ j. (j, some parent))
      (keep (λ j. not (includes visited j)) implies),
  length-keep (λ j. not (includes visited j)) implies,
)

module _ {B : Type 0} where
  pending-grow :
      (m : Catalog B) (visited : List String) (id : String)
      → pending m (visited ++ id ∷ []) ≤ pending m visited
  unfolding pending
  pending-grow [] visited id = omega arith
  pending-grow ((k, s) ∷ m) visited id =
      ground (arith, pending-grow m visited id, includes-append visited (id ∷ []) k)

  pending-visit :
      (m : Catalog B) (visited : List String) (id : String) (scope : ScopeTemplate B)
      → get id m ≡ some scope
      → includes visited id ≡ false
      → pending m (visited ++ id ∷ []) + length scope.implies ≤ pending m visited
  unfolding pending get
  pending-visit [] visited id scope g n = cc
  pending-visit ((k, s) ∷ m) visited id scope g n = elim (Bool-cases (k == id)) [
    | inl same ↦ ground (
      arith,
      string_eq.agrees_iff k id,
      string_eq.agrees_iff id k,
      pending-grow m visited id,
      includes-append visited (id ∷ []) k,
    )
    | inr other ↦ ground (
      arith,
      string_eq.agrees_iff k id,
      pending-visit m visited id scope,
      includes-append visited (id ∷ []) k,
    )
  ]

module _ {B E : Type 0} where
  expand_total :
      (idx : Catalog B) (fuel : ℕ) (queue : List Queued) (visited order : List String)
      (by : JsMap String String)
      → length queue + pending idx visited ≤ fuel
      → (r : Result (BundleError E) Expansion) × (expand idx fuel queue visited order by ≡ some r)
  unfolding expand
  expand_total idx fuel [] visited order by h = (_, refl)
  expand_total idx zero (x ∷ queue) visited order by h = absurd (omega arith)
  expand_total idx (suc fuel) ((id, parent) ∷ queue) visited order by h =
      elim (Bool-cases (includes visited id)) [
        | inl seen ↦
            let (r, p) = expand_total idx fuel queue visited order by (omega arith) in
            (r, rw (seen, expand) p)
        | inr new ↦ elim (Option-cases (get id idx)) [
          | inl missing ↦ (err (unknown_scope id), rw (new, missing, expand))
          | inr (scope, found) ↦
              let visited' = visited ++ id ∷ [] in
              let (r, p) =
                expand_total idx fuel (queue ++ children id visited' scope.implies) visited'
                  (order ++ id ∷ []) (note_parent id parent by)
                  (omega (
                    arith,
                    length-append queue (children id visited' scope.implies),
                    length-children id visited' scope.implies,
                    pending-visit idx visited id scope found new,
                  )) in
              (r, rw (new, found, expand) p)
        ]
      ]

  -- The fuel of `expand_implications` is enough for every seed and every catalog, with cycles too:
  -- the expansion always returns.
  pub expand_implications_total :
      (idx : Catalog B) (ids : List String)
      → (r : Result (BundleError E) Expansion) × (expand_implications idx ids ≡ some r)
  unfolding expand_implications seeds
  expand_implications_total idx ids =
      expand_total idx _ _ [] [] []
        (omega (arith, length-map {A = String} {B = Queued} (λ id. (id, none)) ids))
