-- ===== src/Bundle/Ranks.antt =====
-- A scope that was pulled in stands behind the scope that pulled it in, so a walk from child to
-- parent goes strictly towards the front of the order.
use mathlib.Core.Path.{subst}
use arp.Common.{
  ℕ, zero, suc, ◌<◌, ◌≡◌, String, true, false, inl, inr, Option, none, some, Bool-cases,
  Option-cases, List, [], ◌∷◌, ◌++◌, arith, string_eq, ◌==◌, if◌then◌else◌, includes,
  includes-append, length, All, All-append,
}
use arp.Common.JsMap.{JsMap, get, has, set, get-set}
use arp.Bundle.{
  Catalog, Queued, ok, Expansion, children, note_parent, expand, seeds, expand_implications,
}

-- the place of a scope in the order
abbrev pub index : List String → String → ℕ
index [] a = 0
index (x ∷ xs) a = if x == a then 0 else suc (index xs a)

index-append_old :
    (xs ys : List String) (a : String) → includes xs a ≡ true → index (xs ++ ys) a ≡ index xs a
index-append_old [] ys a h = cc
index-append_old (x ∷ xs) ys a h = ground (arith, index-append_old xs ys a)

index-append_new :
    (xs : List String) (a : String) → includes xs a ≡ false → index (xs ++ a ∷ []) a ≡ length xs
index-append_new [] a h = ground (arith, string_eq.agrees_iff a a)
index-append_new (x ∷ xs) a h = ground (arith, index-append_new xs a)

pub index-lt-length :
    (xs : List String) (a : String) → includes xs a ≡ true → index xs a < length xs
index-lt-length [] a h = cc
index-lt-length (x ∷ xs) a h = ground (arith, index-lt-length xs a)

-- every recorded parent is in the order, before its child
pub record IsRanked (order : List String) (by : JsMap String String) : Type 0 where
  pub parent_before :
      (k p : String)
      → get k by ≡ some p
      → (includes order k ≡ true) × (includes order p ≡ true) × (index order p < index order k)

abbrev ParentSeen : List String → Queued → Type 0
ParentSeen visited (id, none) = Unit
ParentSeen visited (id, some p) = includes visited p ≡ true

ParentSeen-grow :
    (v : List String) (id : String) (q : List Queued)
    → All (ParentSeen v) q
    → All (ParentSeen (v ++ id ∷ [])) q
ParentSeen-grow v id [] h = tt
ParentSeen-grow v id ((j, none) ∷ q) (a, h) = (tt, ParentSeen-grow v id q h)
ParentSeen-grow v id ((j, some p) ∷ q) (a, h) =
    (ground (arith, includes-append v (id ∷ []) p), ParentSeen-grow v id q h)

ParentSeen-children :
    (id : String) (v w implies : List String)
    → includes v id ≡ true
    → All (ParentSeen v) (children id w implies)
unfolding children
ParentSeen-children id v w [] h = tt
ParentSeen-children id v w (j ∷ implies) h = elim (Bool-cases (includes w j)) [
  | inl seen ↦ rw seen (ParentSeen-children id v w implies h)
  | inr new ↦ rw new (h, ParentSeen-children id v w implies h)
]

ParentSeen-seeds : (ids : List String) → All (ParentSeen []) (seeds ids)
unfolding seeds
ParentSeen-seeds [] = tt
ParentSeen-seeds (i ∷ ids) = (tt, ParentSeen-seeds ids)

IsRanked-grow :
    (v : List String) (id : String) (by : JsMap String String)
    → IsRanked v by
    → IsRanked (v ++ id ∷ []) by
IsRanked-grow v id by r = record {
  parent_before = λ k p g.
      let (a, b, lt) = r.parent_before k p g in
      ground (
        arith,
        includes-append v (id ∷ []) k,
        includes-append v (id ∷ []) p,
        index-append_old v (id ∷ []) k a,
        index-append_old v (id ∷ []) p b,
      );
}

IsRanked-note :
    (v : List String) (id : String) (parent : Option String) (by : JsMap String String)
    → includes v id ≡ false
    → ParentSeen v (id, parent)
    → IsRanked v by
    → IsRanked (v ++ id ∷ []) (note_parent id parent by)
unfolding note_parent
IsRanked-note v id none by new seen r = IsRanked-grow v id by r
IsRanked-note v id (some q) by new seen r = elim (Bool-cases (has id by)) [
  | inl noted ↦ rw noted (IsRanked-grow v id by r)
  | inr fresh ↦ rw fresh (record { parent_before = before })
]
  where
    before :
        (k p : String)
        → get k (set id q by) ≡ some p
        → (includes (v ++ id ∷ []) k ≡ true)
          × (includes (v ++ id ∷ []) p ≡ true)
          × (index (v ++ id ∷ []) p < index (v ++ id ∷ []) k)
    before k p g = elim (Bool-cases (id == k)) [
      | inl same ↦
          let here : id ≡ k = (string_eq.agrees_iff id k).0 same in
          let parent_is : q ≡ p = ground (arith, get-set id k q by) in
          rw (← here) (
            rw (← parent_is) (
              ground (
                arith,
                includes-append v (id ∷ []) id,
                includes-append v (id ∷ []) q,
                string_eq.agrees_iff id id,
                index-append_old v (id ∷ []) q seen,
                index-append_new v id new,
                index-lt-length v q seen,
              )))
      | inr other ↦ (IsRanked-grow v id by r).parent_before k p (ground (arith, get-set id k q by))
    ]

module _ {B E : Type 0} (idx : Catalog B) where
  expand-IsRanked :
      (fuel : ℕ) (queue : List Queued) (visited : List String) (by : JsMap String String)
      (x : Expansion)
      → All (ParentSeen visited) queue
      → IsRanked visited by
      → expand idx {E = E} fuel queue visited visited by ≡ some (ok x)
      → IsRanked x.order x.implied_by
  unfolding expand
  expand-IsRanked fuel [] visited by x q r p =
      let made : Expansion = record { order = visited; implied_by = by } in
      let same : made ≡ x = cc p in subst (λ (y : Expansion). IsRanked y.order y.implied_by) same r
  expand-IsRanked zero (y ∷ queue) visited by x q r p = cc
  expand-IsRanked (suc fuel) ((id, parent) ∷ queue) visited by x (seen, q) r p =
      elim (Bool-cases (includes visited id)) [
        | inl old ↦ expand-IsRanked fuel queue visited by x q r (rw (old, expand) at p)
        | inr new ↦ elim (Option-cases (get id idx)) [
          | inl missing ↦ cc (p, missing, new)
          | inr (scope, found) ↦
              let visited' = visited ++ id ∷ [] in
              expand-IsRanked fuel (queue ++ children id visited' scope.implies) visited'
                (note_parent id parent by) x
                (All-append (ParentSeen visited') queue (children id visited' scope.implies)
                  (ParentSeen-grow visited id queue q)
                  (ParentSeen-children id visited' visited' scope.implies (
                    ground
                      (arith, includes-append visited (id ∷ []) id, string_eq.agrees_iff id id))))
                (IsRanked-note visited id parent by new seen r) (rw (new, found, expand) at p)
        ]
      ]

  pub expand_implications-IsRanked :
      (ids : List String) (x : Expansion)
      → expand_implications idx {E = E} ids ≡ some (ok x)
      → IsRanked x.order x.implied_by
  unfolding expand_implications
  expand_implications-IsRanked ids x p =
      expand-IsRanked _ (seeds ids) [] [] x (ParentSeen-seeds ids)
        (record { parent_before = λ k q g. unfold get in cc }) p
