-- ===== src/Bundle/Parents.antt =====
-- Which parents `expandImplications` of packages/scope-catalog/src/bundle-compiler.ts records.
use mathlib.Core.Path.{subst}
use arp.Common.{
  ℕ, zero, suc, ◌≡◌, ◌⊎◌, String, true, inl, inr, Option, none, some, Bool-cases, Option-cases,
  List, [], ◌∷◌, ◌++◌, arith, string_eq, ◌==◌, includes, includes-append, All, All-append,
}
use arp.Common.JsMap.{JsMap, get, has, get-set}
use arp.Bundle.{
  ScopeTemplate, Catalog, Queued, ok, Expansion, children, note_parent, expand, seeds,
  expand_implications,
}

module _ {B : Type 0} (idx : Catalog B) (ids : List String) where
  -- the scope of the catalog implies the other one
  abbrev pub Implies : String → String → Type 0
  Implies p k = (s : ScopeTemplate B) × (get p idx ≡ some s) × (includes s.implies k ≡ true)

  -- a recorded parent implies its child, and every scope of the order that was not asked for has one
  pub record IsInherited (order : List String) (by : JsMap String String) : Type 0 where
    pub parents_imply : (k p : String) → get k by ≡ some p → Implies p k
    pub recorded :
        (k : String) → includes order k ≡ true → (includes ids k ≡ true) ⊎ (has k by ≡ true)

  abbrev Justified : Queued → Type 0
  Justified (id, none) = includes ids id ≡ true
  Justified (id, some p) = Implies p id

  Justified-seeds :
      (js : List String) → All (λ j. includes ids j ≡ true) js → All Justified (seeds js)
  unfolding seeds
  Justified-seeds [] h = tt
  Justified-seeds (j ∷ js) (a, h) = (a, Justified-seeds js h)

  Justified-children :
      (id : String) (scope : ScopeTemplate B) (w js : List String)
      → get id idx ≡ some scope
      → All (λ j. includes scope.implies j ≡ true) js
      → All Justified (children id w js)
  unfolding children
  Justified-children id scope w [] found h = tt
  Justified-children id scope w (j ∷ js) found (a, h) = elim (Bool-cases (includes w j)) [
    | inl seen ↦ rw seen (Justified-children id scope w js found h)
    | inr new ↦ rw new ((scope, found, a), Justified-children id scope w js found h)
  ]

  concat_cases :
      (v : List String) (id i : String)
      → includes (v ++ id ∷ []) i ≡ true
      → (includes v i ≡ true) ⊎ (id ≡ i)
  concat_cases v id i h = ground (arith, includes-append v (id ∷ []) i, string_eq.agrees_iff id i)

  IsInherited-note :
      (v : List String) (id : String) (parent : Option String) (by : JsMap String String)
      → Justified (id, parent)
      → IsInherited v by
      → IsInherited (v ++ id ∷ []) (note_parent id parent by)
  unfolding note_parent
  IsInherited-note v id none by asked r = record {
    parents_imply = r.parents_imply;
    recorded = λ k h. elim (concat_cases v id k h) [
      | inl old ↦ r.recorded k old
      | inr same ↦ inl (rw (← same) asked)
    ];
  }
  IsInherited-note v id (some q) by implied r = elim (Bool-cases (has id by)) [
    | inl noted ↦ rw noted (record {
      parents_imply = r.parents_imply;
      recorded = λ k h. elim (concat_cases v id k h) [
        | inl old ↦ r.recorded k old
        | inr same ↦ inr (rw (← same) noted)
      ];
    })
    | inr fresh ↦ rw fresh (record {
      parents_imply = λ k p g. elim (Bool-cases (id == k)) [
        | inl same ↦
            let here : id ≡ k = (string_eq.agrees_iff id k).0 same in
            let parent_is : q ≡ p = ground (arith, get-set id k q by) in
            subst (λ x. Implies x k) parent_is (subst (λ x. Implies q x) here implied)
        | inr other ↦ r.parents_imply k p (ground (arith, get-set id k q by))
      ];
      recorded = λ k h. elim (concat_cases v id k h) [
        | inl old ↦ elim (r.recorded k old) [
          | inl asked ↦ inl asked
          | inr has_one ↦ inr (ground (arith, get-set id k q by))
        ]
        | inr same ↦ inr (ground (arith, get-set id k q by, string_eq.agrees_iff id k))
      ];
    })
  ]

  each_included :
      (js ks : List String)
      → ((j : String) → includes js j ≡ true → includes ks j ≡ true)
      → All (λ j. includes ks j ≡ true) js
  each_included [] ks h = tt
  each_included (j ∷ js) ks h = (
    h j (ground (arith, string_eq.agrees_iff j j)),
    each_included js ks (λ i m. h i (ground arith)),
  )

module _ {B E : Type 0} (idx : Catalog B) (ids : List String) where
  expand-IsInherited :
      (fuel : ℕ) (queue : List Queued) (visited : List String) (by : JsMap String String)
      (x : Expansion)
      → All (Justified idx ids) queue
      → IsInherited idx ids visited by
      → expand idx {E = E} fuel queue visited visited by ≡ some (ok x)
      → IsInherited idx ids x.order x.implied_by
  unfolding expand
  expand-IsInherited fuel [] visited by x q r p =
      let made : Expansion = record { order = visited; implied_by = by } in
      let same : made ≡ x = cc p in
      subst (λ (y : Expansion). IsInherited idx ids y.order y.implied_by) same r
  expand-IsInherited zero (y ∷ queue) visited by x q r p = cc
  expand-IsInherited (suc fuel) ((id, parent) ∷ queue) visited by x (why, q) r p =
      elim (Bool-cases (includes visited id)) [
        | inl old ↦ expand-IsInherited fuel queue visited by x q r (rw (old, expand) at p)
        | inr new ↦ elim (Option-cases (get id idx)) [
          | inl missing ↦ cc (p, missing, new)
          | inr (scope, found) ↦
              let visited' = visited ++ id ∷ [] in
              expand-IsInherited fuel (queue ++ children id visited' scope.implies) visited'
                (note_parent id parent by) x
                (All-append (Justified idx ids) queue (children id visited' scope.implies) q (
                  Justified-children idx ids id scope visited' scope.implies found
                    (each_included idx ids scope.implies scope.implies (λ j m. m))))
                (IsInherited-note idx ids visited id parent by why r) (rw (new, found, expand) at p)
        ]
      ]

  pub expand_implications-IsInherited :
      (x : Expansion)
      → expand_implications idx {E = E} ids ≡ some (ok x)
      → IsInherited idx ids x.order x.implied_by
  unfolding expand_implications
  expand_implications-IsInherited x p =
      expand-IsInherited _ (seeds ids) [] [] x
        (Justified-seeds idx ids ids (each_included idx ids ids ids (λ j m. m)))
        (record { parents_imply = λ k q g. unfold get in cc; recorded = λ k h. cc }) p
