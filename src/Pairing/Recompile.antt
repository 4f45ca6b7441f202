-- ===== src/Pairing/Recompile.antt =====
-- `assertCompilationMatches` of packages/pairing/src/countersign.ts: the audience compiles the
-- selected scopes against its own catalog before it countersigns.
use arp.Common.{
  ◌≡◌, refl, sym, ◌∙◌, ap, String, Bool, true, false, ◌&&◌, Option, some, List, [], ◌∷◌, arith,
  string_eq, ◌==◌, or_else,
}
use mathlib.Core.Bool.{false≢true}
use arp.Common.JsMap.{JsMap, set}
use arp.Spec.{Json, ConnectionToken, FieldTests}
use arp.Bundle.{ScopeTemplate, Result, BundleError, index_catalog}
use arp.Bundle.Compile.{Compiled, CompiledBundle, compile_bundle}
use arp.Bundle.Compiled.{compile_bundle_lem, BundleCorrect}
use arp.Pairing.{Crypto, KeyPair, PairingProposal, project_token, countersign_proposal}
use arp.Pairing.Returned.{countersign-Countersigned}

-- the comparison of two lists of policies, by length and then one by one
unfoldable pub same_texts : List String → List String → Bool
same_texts [] [] = true
same_texts (x ∷ xs) (y ∷ ys) = x == y && same_texts xs ys
same_texts _ _ = false

-- `Object.fromEntries`, with `{}` for absent parameters
unfoldable pub params_from :
    List (String × Option (JsMap String Json))
    → JsMap String (JsMap String Json)
    → JsMap String (JsMap String Json)
params_from [] m = m
params_from ((id, params) ∷ rest) m = params_from rest (set id (or_else params []) m)

abbrev pub selected_ids : List (String × Option (JsMap String Json)) → List String
selected_ids [] = []
selected_ids ((id, params) ∷ rest) = id ∷ selected_ids rest

same_texts_eq : (xs ys : List String) → same_texts xs ys ≡ true → xs ≡ ys
unfolding same_texts
same_texts_eq [] [] h = refl
same_texts_eq [] (y ∷ ys) h = cc
same_texts_eq (x ∷ xs) [] h = cc
same_texts_eq (x ∷ xs) (y ∷ ys) h = ground (arith, same_texts_eq xs ys, string_eq.agrees_iff x y)

module _ {B E : Type 0}
    (compile_scope : ScopeTemplate B → String → JsMap String Json → Compiled E) where
  abbrev pub recompile :
      List (ScopeTemplate B) → PairingProposal → Option (Result (BundleError E) CompiledBundle)
  recompile catalog p =
      compile_bundle compile_scope catalog (selected_ids p.scope_selections)
        (params_from p.scope_selections []) p.audience

  abbrev policies_match : List String → Option (Result (BundleError E) CompiledBundle) → Bool
  policies_match policies (some (Result.ok b)) = same_texts b.policies policies
  policies_match policies _ = false

  -- `false` where the code throws, because the bundle does not compile or its policies differ
  unfoldable pub matches_compilation : List (ScopeTemplate B) → PairingProposal → Bool
  unfolding params_from same_texts
  matches_compilation catalog p = policies_match p.cedar_policies (recompile catalog p)

  -- the token's policies are those of a bundle that the audience compiled
  abbrev pub Recompiled : List (ScopeTemplate B) → PairingProposal → ConnectionToken → Type 0
  Recompiled catalog p token =
      (b : CompiledBundle) × (recompile catalog p ≡ some (Result.ok b))
      × (token.cedar_policies ≡ b.policies)
      × BundleCorrect compile_scope (index_catalog catalog) (selected_ids p.scope_selections)
          (params_from p.scope_selections []) p.audience (Result.ok b)

  policies_match_lem :
      (policies : List String) (catalog : List (ScopeTemplate B)) (p : PairingProposal)
      → policies_match policies (recompile catalog p) ≡ true
      → (b : CompiledBundle) × (recompile catalog p ≡ some (Result.ok b))
        × (policies ≡ b.policies)
        × BundleCorrect compile_scope
            (index_catalog catalog)
            (selected_ids p.scope_selections)
            (params_from p.scope_selections [])
            p.audience
            (Result.ok b)
  policies_match_lem policies catalog p h = finish (
      compile_bundle_lem compile_scope catalog (selected_ids p.scope_selections)
        (params_from p.scope_selections []) p.audience)
    where
      finish :
          (r : Result (BundleError E) CompiledBundle) × (recompile catalog p ≡ some r)
            × BundleCorrect compile_scope
                (index_catalog catalog)
                (selected_ids p.scope_selections)
                (params_from p.scope_selections [])
                p.audience
                r
          → (b : CompiledBundle) × (recompile catalog p ≡ some (Result.ok b))
            × (policies ≡ b.policies)
            × BundleCorrect compile_scope
                (index_catalog catalog)
                (selected_ids p.scope_selections)
                (params_from p.scope_selections [])
                p.audience
                (Result.ok b)
      finish (Result.err e, q, correct) = absurd (false≢true (rw q at h))
      finish (Result.ok b, q, correct) =
          (b, q, sym (same_texts_eq b.policies policies (rw q at h)), correct)

  -- With a catalog, a token that countersigning returns carries exactly the policies of a bundle that
  -- the audience compiled from the proposal's selections: those of every scope that the selections
  -- imply, none in conflict with another.
  pub matches_compilation_lem :
      {K P S Y : Type 0} (c : Crypto K P S Y) (tests : FieldTests)
      (catalog : List (ScopeTemplate B)) (p : PairingProposal) (key : KeyPair K) (did : String)
      (token : ConnectionToken) (signed : PairingProposal)
      → countersign_proposal c tests (matches_compilation catalog) p key did ≡ some (token, signed)
      → Recompiled catalog p token
  unfolding matches_compilation project_token
  matches_compilation_lem c tests catalog p key did token signed h =
      let made =
        countersign-Countersigned c tests (matches_compilation catalog) p key did token signed h in
      let (b, q, same, correct) = policies_match_lem p.cedar_policies catalog p made.recompiled in
      (b, q, sym (ap (λ (t : ConnectionToken). t.cedar_policies) made.projected) ∙ same, correct)
