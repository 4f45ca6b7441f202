-- ===== src/Bundle/Compiled.antt =====
-- What `compileBundle` of packages/scope-catalog/src/bundle-compiler.ts returns and how it fails.
use mathlib.Core.List.{append_assoc, append-nil}
use arp.Common.{
  ℕ, ◌≡◌, ◌⊎◌, sym, ◌∙◌, refl, String, true, inl, inr, none, some, Option-cases, List, [], ◌∷◌,
  ◌++◌, arith, string_eq, includes, length,
}
use arp.Common.JsMap.{JsMap, get, has}
use arp.Spec.{Obligation}
use arp.Bundle.{
  ScopeTemplate, Catalog, Result, ok, err, BundleError, unknown_scope, conflict, scope_failed,
  scope_error, Expansion, detect_conflicts, expand_implications, index_catalog,
}
use arp.Bundle.Params.{resolve_params, resolve_params_lem}
use arp.Bundle.Conflicts.{IsConflictFree, NamesConflict, detect_conflicts_lem}
use arp.Bundle.Closure.{Reaches, IsClosure, Correct, expand_implications_lem}
use arp.Bundle.Parents.{IsInherited, expand_implications-IsInherited}
use arp.Bundle.Ranks.{IsRanked, expand_implications-IsRanked}
use arp.Bundle.Compile.{
  CompiledBundle, Compiled, policy, compile_error, other_error, push_policy, compile_from,
  compile_order, compile_bundle,
}

module _ {B E V : Type 0}
    (compile_scope : ScopeTemplate B → String → JsMap String V → Compiled E) where
  -- The policies and the obligations of the scopes of an order, one scope after the other: each
  -- policy is what the scope compiler returns for the scope and its resolved parameters.
  pub data CompiledOrder (fuel : ℕ) (idx : Catalog B) (pm : JsMap String (JsMap String V))
      (by : JsMap String String) (audience : String)
      : List String → List String → List Obligation → Type 0 where
    done : CompiledOrder fuel idx pm by audience [] [] []
    next :
        {id p : String} {ids ps : List String} {obs : List Obligation} {s : ScopeTemplate B}
        {params : JsMap String V}
        → get id idx ≡ some s
        → resolve_params fuel pm by s.id ≡ some params
        → compile_scope s audience params ≡ policy p
        → CompiledOrder fuel idx pm by audience ids ps obs
        → CompiledOrder fuel idx pm by audience (id ∷ ids) (p ∷ ps) (s.obligations_forced ++ obs)

  -- how the compiler of a scope has failed, for an error that it gives the bundle
  abbrev pub FailsWith : String → Compiled E → BundleError E → Type 0
  FailsWith id c (scope_error e) = c ≡ compile_error e
  FailsWith id c (scope_failed j e) = (id ≡ j) × (c ≡ other_error e)
  FailsWith id c _ = ⊥

  compiled_cases :
      (c : Compiled E) (id : String) (ps : List String)
      → ((p : String) × (c ≡ policy p))
        ⊎ ((e : BundleError E) × (push_policy compile_scope c id ps ≡ err e) × FailsWith id c e)
  compiled_cases (policy p) id ps = inl (p, refl)
  compiled_cases (compile_error e) id ps = inr (scope_error e, refl, refl)
  compiled_cases (other_error e) id ps = inr (scope_failed id e, refl, (refl, refl))

  -- the compiler fails on a scope of the order with its resolved parameters
  pub record Fails (fuel : ℕ) (idx : Catalog B) (pm : JsMap String (JsMap String V))
      (by : JsMap String String) (audience : String) (ids : List String) (e : BundleError E)
      : Type 0 where
    pub id : String
    pub scope : ScopeTemplate B
    pub params : JsMap String V
    pub listed : includes ids id ≡ true
    pub found : get id idx ≡ some scope
    pub resolved : resolve_params fuel pm by scope.id ≡ some params
    pub fails : FailsWith id (compile_scope scope audience params) e

  module _ (fuel : ℕ) (idx : Catalog B) (pm : JsMap String (JsMap String V))
      (by : JsMap String String) (audience : String) where
    -- what the outcome of the loop must satisfy
    abbrev LoopCorrect :
        List String
        → List String
        → List Obligation
        → Result (BundleError E) (List String × List Obligation)
        → Type 0
    LoopCorrect ids policies obligations (err e) = Fails fuel idx pm by audience ids e
    LoopCorrect ids policies obligations (ok (ps', obs')) =
        (ps : List String) × (obs : List Obligation) × (ps' ≡ policies ++ ps)
        × (obs' ≡ obligations ++ obs)
        × CompiledOrder fuel idx pm by audience ids ps obs

    compile_from_lem :
        ((id : String) → (r : JsMap String V) × (resolve_params fuel pm by id ≡ some r))
        → (ids policies : List String) (obligations : List Obligation)
        → ((i : String) → includes ids i ≡ true → has i idx ≡ true)
        → (r : Result (BundleError E) (List String × List Obligation)) × (compile_from compile_scope
              fuel idx pm by audience ids policies obligations
            ≡ some r)
          × LoopCorrect ids policies obligations r
    unfolding compile_from
    compile_from_lem params [] policies obligations known = (
      ok (policies, obligations),
      refl,
      ([], [], sym (append-nil policies), sym (append-nil obligations), done),
    )
    compile_from_lem params (id ∷ ids) policies obligations known =
        elim (Option-cases (get id idx)) [
          | inl missing ↦ absurd (ground (arith, known id, string_eq.agrees_iff id id))
          | inr (s, found) ↦
              let (own, resolved) = params s.id in
              elim (compiled_cases (compile_scope s audience own) id policies) [
                | inr (e, failed, why) ↦ (
                  err e,
                  rw (found, resolved, failed, compile_from),
                  record {
                    id = id;
                    scope = s;
                    params = own;
                    listed = ground (arith, string_eq.agrees_iff id id);
                    found = found;
                    resolved = resolved;
                    fails = why;
                  },
                )
                | inl (p, compiled) ↦
                    let (r, q, correct) =
                      compile_from_lem params ids (policies ++ p ∷ [])
                        (obligations ++ s.obligations_forced) (λ i m. known i (ground arith)) in
                    (
                      r,
                      rw (found, resolved, compiled, compile_from) q,
                      extend s own p found resolved compiled r correct,
                    )
              ]
        ]
      where
        extend :
            (s : ScopeTemplate B) (own : JsMap String V) (p : String)
            → get id idx ≡ some s
            → resolve_params fuel pm by s.id ≡ some own
            → compile_scope s audience own ≡ policy p
            → (r : Result (BundleError E) (List String × List Obligation))
            → LoopCorrect ids (policies ++ p ∷ []) (obligations ++ s.obligations_forced) r
            → LoopCorrect (id ∷ ids) policies obligations r
        extend s own p found resolved compiled (err e) c = record {
          id = c.id;
          scope = c.scope;
          params = c.params;
          listed = ground (arith, c.listed);
          found = c.found;
          resolved = c.resolved;
          fails = c.fails;
        }
        extend s own p found resolved compiled (ok (ps', obs')) (ps, obs, same, joined, rest) = (
          p ∷ ps,
          s.obligations_forced ++ obs,
          same ∙ append_assoc policies (p ∷ []) ps,
          joined ∙ append_assoc obligations s.obligations_forced obs,
          next found resolved compiled rest,
        )

  -- What an outcome must satisfy: an error names an unknown scope that is reached, a conflict in the
  -- closure, or a scope of the closure on which the compiler fails.
  pub BundleCorrect :
      Catalog B
      → List String
      → JsMap String (JsMap String V)
      → String
      → Result (BundleError E) CompiledBundle
      → Type 0
  BundleCorrect idx ids pm audience (err e) =
      ((id : String) × (e ≡ unknown_scope id) × Reaches idx ids id × (get id idx ≡ none))
      ⊎ ((order : List String) × IsClosure idx ids order
          × (NamesConflict idx order e
              ⊎ ((by : JsMap String String) × IsInherited idx ids order by
                  × IsRanked order by
                  × Fails (length order) idx pm by audience order e)))
  BundleCorrect idx ids pm audience (ok b) =
      IsClosure idx ids b.expanded_scope_ids
      × IsConflictFree idx b.expanded_scope_ids
      × ((by : JsMap String String) × IsInherited idx ids b.expanded_scope_ids by
          × IsRanked b.expanded_scope_ids by
          × CompiledOrder (length b.expanded_scope_ids) idx pm by audience b.expanded_scope_ids
              b.policies b.obligations)

  compile_order_lem :
      (idx : Catalog B) (ids : List String) (pm : JsMap String (JsMap String V)) (audience : String)
      (x : Expansion)
      → expand_implications idx {E = E} ids ≡ some (ok x)
      → IsClosure idx ids x.order
      → IsConflictFree idx x.order
      → IsInherited idx ids x.order x.implied_by
      → IsRanked x.order x.implied_by
      → (r : Result (BundleError E) CompiledBundle) × (compile_order compile_scope idx pm audience x
          ≡ some r)
        × BundleCorrect idx ids pm audience r
  unfolding compile_order BundleCorrect
  compile_order_lem idx ids pm audience x p closure free inherited ranked =
      let params : (id : String)
          → (r : JsMap String V) × (resolve_params (length x.order) pm x.implied_by id ≡ some r) =
        λ id. let (r, q, _) = resolve_params_lem {E = E} idx ids x pm id p in (r, q) in
      finish (
        compile_from_lem (length x.order) idx pm x.implied_by audience params x.order [] []
          closure.known)
    where
      finish :
          (r : Result (BundleError E) (List String × List Obligation)) × (compile_from compile_scope
                (length x.order)
                idx
                pm
                x.implied_by
                audience
                x.order
                []
                []
              ≡ some r)
            × LoopCorrect (length x.order) idx pm x.implied_by audience x.order [] [] r
          → (r : Result (BundleError E) CompiledBundle) × (compile_order compile_scope idx pm
                audience x
              ≡ some r)
            × BundleCorrect idx ids pm audience r
      finish (err e, q, why) = (
        err e,
        rw (q, compile_order),
        inr (x.order, closure, inr (x.implied_by, inherited, ranked, why)),
      )
      finish (ok (ps', obs'), q, (ps, obs, same, joined, order)) = (
        ok (record { policies = ps'; obligations = obs'; expanded_scope_ids = x.order }),
        rw (q, compile_order),
        (closure, free, (x.implied_by, inherited, ranked, rw (same, joined) order)),
      )

  pub compile_bundle_lem :
      (catalog : List (ScopeTemplate B)) (ids : List String) (pm : JsMap String (JsMap String V))
      (audience : String)
      → (r : Result (BundleError E) CompiledBundle) × (compile_bundle compile_scope catalog ids pm
            audience
          ≡ some r)
        × BundleCorrect (index_catalog catalog) ids pm audience r
  unfolding compile_bundle BundleCorrect
  compile_bundle_lem catalog ids pm audience = finish (expand_implications_lem idx ids)
    where
      idx : Catalog B
      idx = index_catalog catalog

      unknown_of :
          (e : BundleError E)
          → Correct idx ids (err e)
          → (id : String) × (e ≡ unknown_scope id) × Reaches idx ids id × (get id idx ≡ none)
      unknown_of (unknown_scope id) (reached, missing) = (id, refl, reached, missing)
      unknown_of (conflict i c) why = absurd why
      unknown_of (scope_failed i e) why = absurd why
      unknown_of (scope_error e) why = absurd why

      finish :
          (r : Result (BundleError E) Expansion) × (expand_implications idx ids ≡ some r)
            × Correct idx ids r
          → (r : Result (BundleError E) CompiledBundle) × (compile_bundle compile_scope catalog ids
                pm audience
              ≡ some r)
            × BundleCorrect idx ids pm audience r
      finish (err e, p, why) = (err e, rw (p, compile_bundle), inl (unknown_of e why))
      finish (ok x, p, closure) = elim (Option-cases (detect_conflicts idx {E = E} x.order)) [
        | inr (e, hit) ↦ (
          err e,
          rw (p, hit, compile_bundle),
          inr (x.order, closure, inl ((detect_conflicts_lem idx x.order).1 e hit)),
        )
        | inl clear ↦
            let (r, q, correct) =
              compile_order_lem idx ids pm audience x p closure
                ((detect_conflicts_lem {E = E} idx x.order).0 clear)
                (expand_implications-IsInherited {E = E} idx ids x p)
                (expand_implications-IsRanked {E = E} idx ids x p) in
            (r, rw (p, clear, compile_bundle) q, correct)
      ]
