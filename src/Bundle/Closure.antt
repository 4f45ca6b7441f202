-- ===== src/Bundle/Closure.antt =====
-- What `expandImplications` returns: the set of scopes that the requested ones imply, each once,
-- stated by a reachability relation without the work queue.
use mathlib.Core.Path.{subst}
use mathlib.Core.Option.{some-injective}
use arp.Bundle.Fuel.{expand_implications_total}
use arp.Common.{
  ℕ, zero, suc, ◌≡◌, refl, String, Bool, true, false, not, ◌⊎◌, inl, inr, Option, none, some,
  Bool-cases, Option-cases, List, [], ◌∷◌, ◌++◌, arith, string_eq, ◌==◌, ◌||◌, ◌&&◌, includes,
  includes-append, IsDistinct, IsDistinct-concat,
}
use arp.Common.JsMap.{JsMap, get, has}
use arp.Bundle.{
  ScopeTemplate, Catalog, Queued, Result, ok, err, BundleError, unknown_scope, Expansion, children,
  note_parent, expand, seeds, expand_implications,
}

abbrev pub queued : List Queued → String → Bool
queued [] j = false
queued ((i, p) ∷ q) j = i == j || queued q j

queued-append : (q r : List Queued) (j : String) → queued (q ++ r) j ≡ (queued q j || queued r j)
queued-append [] r j = refl
queued-append ((i, p) ∷ q) r j = ground (arith, queued-append q r j)

queued-seeds : (ids : List String) (j : String) → queued (seeds ids) j ≡ includes ids j
unfolding seeds
queued-seeds [] j = refl
queued-seeds (i ∷ ids) j = ground (arith, queued-seeds ids j)

queued-children :
    (parent : String) (visited implies : List String) (j : String)
    → queued (children parent visited implies) j ≡ (includes implies j && not (includes visited j))
unfolding children
queued-children parent visited [] j = refl
queued-children parent visited (i ∷ implies) j =
    ground (arith, queued-children parent visited implies j, string_eq.agrees_iff i j)

includes_concat_cases :
    (v : List String) (id i : String)
    → includes (v ++ id ∷ []) i ≡ true
    → (includes v i ≡ true) ⊎ (id ≡ i)
includes_concat_cases v id i h =
    ground (arith, includes-append v (id ∷ []) i, string_eq.agrees_iff id i)

queued_cases :
    (q : List Queued) (parent : String) (visited implies : List String) (i : String)
    → queued (q ++ children parent visited implies) i ≡ true
    → (queued q i ≡ true) ⊎ (includes implies i ≡ true)
queued_cases q parent visited implies i h = ground (
  arith,
  queued-append q (children parent visited implies) i,
  queued-children parent visited implies i,
)

module _ {B : Type 0} (idx : Catalog B) (ids : List String) where
  -- a requested scope, or one that a reached scope of the catalog implies
  pub data Reaches : String → Type 0 where
    requested : {j : String} → includes ids j ≡ true → Reaches j
    implied :
        {i j : String} {s : ScopeTemplate B}
        → Reaches i
        → get i idx ≡ some s
        → includes s.implies j ≡ true
        → Reaches j

  pub record IsClosure (order : List String) : Type 0 where
    pub distinct : IsDistinct order
    pub known : (i : String) → includes order i ≡ true → has i idx ≡ true
    pub reached : (i : String) → includes order i ≡ true → Reaches i
    pub complete : (i : String) → Reaches i → includes order i ≡ true

  record Invariant (visited : List String) (queue : List Queued) : Type 0 where
    distinct : IsDistinct visited
    known : (i : String) → includes visited i ≡ true → has i idx ≡ true
    reached : (i : String) → includes visited i ≡ true → Reaches i
    waiting : (i : String) → queued queue i ≡ true → Reaches i
    asked : (j : String) → includes ids j ≡ true → (includes visited j || queued queue j) ≡ true
    closed :
        (i j : String) (s : ScopeTemplate B)
        → includes visited i ≡ true
        → get i idx ≡ some s
        → includes s.implies j ≡ true
        → (includes visited j || queued queue j) ≡ true

  Invariant-init : Invariant [] (seeds ids)
  Invariant-init = record {
    distinct = tt;
    known = λ i h. cc;
    reached = λ i h. cc;
    waiting = λ i h. requested (rw (queued-seeds ids i) at h);
    asked = λ j h. rw (queued-seeds ids j) h;
    closed = λ i j s h. cc;
  }

  Invariant-skip :
      (visited : List String) (queue : List Queued) (id : String) (parent : Option String)
      → includes visited id ≡ true
      → Invariant visited ((id, parent) ∷ queue)
      → Invariant visited queue
  Invariant-skip visited queue id parent seen v = record {
    distinct = v.distinct;
    known = v.known;
    reached = v.reached;
    waiting = λ i h. v.waiting i (ground arith);
    asked = λ j h. ground (arith, v.asked j h, string_eq.agrees_iff id j);
    closed = λ i j s h g m. ground (arith, v.closed i j s h g m, string_eq.agrees_iff id j);
  }

  Invariant-visit :
      (visited : List String) (queue : List Queued) (id : String) (parent : Option String)
      (scope : ScopeTemplate B)
      → includes visited id ≡ false
      → get id idx ≡ some scope
      → Invariant visited ((id, parent) ∷ queue)
      → Invariant (visited ++ id ∷ []) (queue ++ children id (visited ++ id ∷ []) scope.implies)
  Invariant-visit visited queue id parent scope new found v = record {
    distinct = IsDistinct-concat visited id v.distinct new;
    known = λ i h. elim (includes_concat_cases visited id i h) [
      | inl old ↦ v.known i old
      | inr same ↦ rw (← same) (ground (arith, found))
    ];
    reached = λ i h. elim (includes_concat_cases visited id i h) [
      | inl old ↦ v.reached i old
      | inr same ↦ rw (← same) at_id
    ];
    waiting = λ i h. elim (queued_cases queue id visited' scope.implies i h) [
      | inl old ↦ v.waiting i (ground arith)
      | inr below ↦ implied at_id found below
    ];
    asked = λ j h. carry j (v.asked j h);
    closed = λ i j s h g m. elim (includes_concat_cases visited id i h) [
      | inl old ↦ carry j (v.closed i j s old g m)
      | inr same ↦
          let here : get id idx ≡ some s = rw same g in
          ground (
            arith,
            queued-append queue (children id visited' scope.implies) j,
            queued-children id visited' scope.implies j,
          )
    ];
  }
    where
      visited' : List String
      visited' = visited ++ id ∷ []

      at_id : Reaches id
      at_id = v.waiting id (ground (arith, string_eq.agrees_iff id id))

      carry :
          (j : String)
          → (includes visited j || queued ((id, parent) ∷ queue) j) ≡ true
          → (includes visited' j || queued (queue ++ children id visited' scope.implies) j) ≡ true
      carry j h = ground (
        arith,
        includes-append visited (id ∷ []) j,
        queued-append queue (children id visited' scope.implies) j,
      )

  done-IsClosure : (visited : List String) → Invariant visited [] → IsClosure visited
  done-IsClosure visited v = record {
    distinct = v.distinct;
    known = v.known;
    reached = v.reached;
    complete = complete;
  }
    where
      complete : (i : String) → Reaches i → includes visited i ≡ true
      complete j (requested h) = ground (arith, v.asked j h)
      complete j (implied {i} {s} r g m) = ground (arith, v.closed i j s (complete i r) g m)

module _ {B E : Type 0} (idx : Catalog B) (ids : List String) where
  -- what an outcome of the expansion must satisfy
  abbrev pub Correct : Result (BundleError E) Expansion → Type 0
  Correct (ok x) = IsClosure idx ids x.order
  Correct (err (unknown_scope id)) = Reaches idx ids id × (get id idx ≡ none)
  Correct (err other) = ⊥

  expand-Correct :
      (fuel : ℕ) (queue : List Queued) (visited : List String) (by : JsMap String String)
      (r : Result (BundleError E) Expansion)
      → Invariant idx ids visited queue
      → expand idx fuel queue visited visited by ≡ some r
      → Correct r
  unfolding expand
  expand-Correct fuel [] visited by r v p =
      subst Correct (some-injective _ r p) (done-IsClosure idx ids visited v)
  expand-Correct zero (x ∷ queue) visited by r v p = cc
  expand-Correct (suc fuel) ((id, parent) ∷ queue) visited by r v p =
      elim (Bool-cases (includes visited id)) [
        | inl seen ↦
            expand-Correct fuel queue visited by r
              (Invariant-skip idx ids visited queue id parent seen v) (rw (seen, expand) at p)
        | inr new ↦ elim (Option-cases (get id idx)) [
          | inl missing ↦
              let failed = some-injective _ r (rw (new, missing, expand) at p) in
              subst Correct failed
                (v.waiting id (ground (arith, string_eq.agrees_iff id id)), missing)
          | inr (scope, found) ↦
              expand-Correct fuel (queue ++ children id (visited ++ id ∷ []) scope.implies)
                (visited ++ id ∷ []) (note_parent id parent by) r
                (Invariant-visit idx ids visited queue id parent scope new found v)
                (rw (new, found, expand) at p)
        ]
      ]

  -- The expansion always returns. On success its order holds exactly the scopes that the requested
  -- ones reach along `implies`, each once and each in the catalog. It fails only on an unknown
  -- scope, which is reached and not in the catalog.
  pub expand_implications_lem :
      (r : Result (BundleError E) Expansion) × (expand_implications idx ids ≡ some r) × Correct r
  unfolding expand_implications
  expand_implications_lem =
      let (r, p) = expand_implications_total {E = E} idx ids in
      (r, p, expand-Correct _ (seeds ids) [] [] r (Invariant-init idx ids) p)
