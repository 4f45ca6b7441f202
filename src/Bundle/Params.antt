-- ===== src/Bundle/Params.antt =====
-- `resolveParamsForScope` of packages/scope-catalog/src/bundle-compiler.ts: a scope's own
-- parameters, completed from the scopes that pulled it in. A parameter object is a map without
-- `undefined` values.
use mathlib.Core.Path.{subst}
use mathlib.Core.Option.{some-injective}
use arp.Common.{
  ℕ, zero, suc, ◌<◌, ◌≡◌, refl, String, true, false, ◌||◌, inl, inr, Option, none, some, Bool-cases,
  List, [], ◌∷◌, arith, string_eq, ◌==◌, if◌then◌else◌, length, or_else,
}
use arp.Common.JsMap.{JsMap, get, has, set, get-set}
use arp.Bundle.{Catalog, Expansion, expand_implications, ok}
use arp.Bundle.Ranks.{index, index-lt-length, IsRanked, expand_implications-IsRanked}

-- the next parent of the walk: a further implication to another scope
unfoldable pub grandparent : JsMap String String → String → Option String
grandparent by parent = elim (get parent by) [
  | none ↦ none
  | some g ↦ if g == "" || g == parent then none else some g
]

module _ {V : Type 0} where
  -- `for (const [k, v] of Object.entries(parentParams)) if (own[k] === undefined) own[k] = v;`
  unfoldable pub fill : JsMap String V → JsMap String V → JsMap String V
  fill own [] = own
  fill own ((k, v) ∷ ps) = fill (if has k own then own else set k v own) ps

  unfoldable pub add_inherited :
      JsMap String (JsMap String V) → String → JsMap String V → JsMap String V
  unfolding fill
  add_inherited params_map parent own = elim (get parent params_map) [
    | none ↦ own
    | some ps ↦ fill own ps
  ]

  -- The `while (parentId)` loop, on fuel: an empty id ends it too.
  unfoldable pub walk :
      ℕ
      → JsMap String (JsMap String V)
      → JsMap String String
      → Option String
      → JsMap String V
      → Option (JsMap String V)
  walk fuel params_map by none own = some own
  walk zero params_map by (some parent) own = none
  walk (suc fuel) params_map by (some parent) own = elim (parent == "") [
    | true ↦ some own
    | false ↦ walk fuel params_map by (grandparent by parent) (add_inherited params_map parent own)
  ]

  unfoldable pub resolve_params :
      ℕ → JsMap String (JsMap String V) → JsMap String String → String → Option (JsMap String V)
  resolve_params fuel params_map by id =
      walk fuel params_map by (get id by) (or_else (get id params_map) [])

  fill_keeps :
      (own ps : JsMap String V) (k : String) (v : V)
      → get k own ≡ some v
      → get k (fill own ps) ≡ some v
  unfolding fill
  fill_keeps own [] k v h = h
  fill_keeps own ((j, w) ∷ ps) k v h = elim (Bool-cases (has j own)) [
    | inl present ↦ rw present (fill_keeps own ps k v h)
    | inr absent ↦ rw absent (
        fill_keeps (set j w own) ps k v
          (ground (arith, get-set j k w own, string_eq.agrees_iff j k)))
  ]

  walk_keeps :
      (fuel : ℕ) (pm : JsMap String (JsMap String V)) (by : JsMap String String) (p : Option String)
      (own r : JsMap String V) (k : String) (v : V)
      → get k own ≡ some v
      → walk fuel pm by p own ≡ some r
      → get k r ≡ some v
  unfolding walk add_inherited get
  walk_keeps fuel pm by none own r k v h w =
      subst (λ m. get k m ≡ some v) (some-injective own r w) h
  walk_keeps zero pm by (some p) own r k v h w = cc
  walk_keeps (suc fuel) pm by (some p) own r k v h w = elim (Bool-cases (p == "")) [
    | inl empty ↦ subst (λ m. get k m ≡ some v) (some-injective own r (rw (empty, walk) at w)) h
    | inr named ↦
        walk_keeps fuel pm by (grandparent by p) (add_inherited pm p own) r k v
          (inherited_keeps (get p pm)) (rw (named, walk) at w)
  ]
    where
      inherited_keeps :
          (o : Option (JsMap String V))
          → get k (elim o as (λ _. JsMap String V) [ none ↦ own | some ps ↦ fill own ps ]) ≡ some v
      inherited_keeps none = h
      inherited_keeps (some ps) = fill_keeps own ps k v h

  walk_total :
      (fuel : ℕ) (pm : JsMap String (JsMap String V)) (by : JsMap String String)
      (order : List String) (p : Option String) (own : JsMap String V)
      → IsRanked order by
      → ((q : String) → p ≡ some q → index order q < fuel)
      → (r : JsMap String V) × (walk fuel pm by p own ≡ some r)
  unfolding walk
  walk_total fuel pm by order none own ranked lt = (own, refl)
  walk_total zero pm by order (some p) own ranked lt = absurd (omega (arith, lt p refl))
  walk_total (suc fuel) pm by order (some p) own ranked lt = elim (Bool-cases (p == "")) [
    | inl empty ↦ (own, rw (empty, walk))
    | inr named ↦
        let (r, done) =
          walk_total fuel pm by order (grandparent by p) (add_inherited pm p own) ranked next_lt in
        (r, rw (named, walk) done)
  ]
    where
      next_lt : (q : String) → grandparent by p ≡ some q → index order q < fuel
      next_lt q g =
          let found : get p by ≡ some q = unfold grandparent in ground arith in
          let (_, _, before) = ranked.parent_before p q found in omega (arith, lt p refl, before)

-- After any successful expansion the parameters of every scope are resolved with as many rounds as
-- scopes were expanded: the walk up the implications ends, and it keeps each parameter that the
-- caller gave for the scope itself.
pub resolve_params_lem :
    {B E V : Type 0} (idx : Catalog B) (ids : List String) (x : Expansion)
    (params_map : JsMap String (JsMap String V)) (id : String)
    → expand_implications idx {E = E} ids ≡ some (ok x)
    → (r : JsMap String V) × (resolve_params (length x.order) params_map x.implied_by id ≡ some r)
      × ((k : String) (v : V) → get k (or_else (get id params_map) []) ≡ some v → get k r ≡ some v)
unfolding resolve_params
resolve_params_lem {E} idx ids x params_map id p =
    let ranked = expand_implications-IsRanked {E = E} idx ids x p in
    let own = or_else (get id params_map) [] in
    let (r, done) =
      walk_total (length x.order) params_map x.implied_by x.order (get id x.implied_by) own ranked
        (λ q g. let (_, b, _) = ranked.parent_before id q g in index-lt-length x.order q b) in
    (
      r,
      done,
      λ k v h.
          walk_keeps (length x.order) params_map x.implied_by (get id x.implied_by) own r k v h
            done,
    )
