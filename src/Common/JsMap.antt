-- ===== src/Common/JsMap.antt =====
-- JavaScript's `Map`: an association list in insertion order. `set` on a present key keeps the
-- key's place, on an absent one it appends; `delete` removes the entry.
use Prim.Native.Nat.{suc, ◌+◌}
use mathlib.Core.Path.{◌≡◌, refl, ap}
use mathlib.Core.Bool.{Bool, true, false}
use mathlib.Core.Option.{Option, none, some}
use mathlib.Core.List.{List, [], ◌∷◌, ◌++◌}
use mathlib.Core.Logic.{inl, inr}
use native.Mathlib.Omega.{arith}
use arp.Common.Tests.{if◌then◌else◌, is_some, Bool-cases}
use arp.Common.Equality.{Eq, ◌==◌}
use arp.Common.Lists.{length, includes, IsDistinct}

abbrev pub JsMap {ℓ κ} : Type ℓ → Type κ → Type (ℓ ⊔ κ)
JsMap K V = List (K × V)

module _ {ℓ κ} {K : Type ℓ} {V : Type κ} where
  abbrev pub keys : JsMap K V → List K
  keys [] = []
  keys ((k, v) ∷ m) = k ∷ keys m

  pub length-keys : (m : JsMap K V) → length (keys m) ≡ length m
  length-keys [] = refl
  length-keys ((k, v) ∷ m) = ap suc (length-keys m)

  pub keys-append : (m n : JsMap K V) → keys (m ++ n) ≡ keys m ++ keys n
  keys-append [] n = refl
  keys-append ((k, v) ∷ m) n = ap (λ r. k ∷ r) (keys-append m n)

module _ {ℓ κ} {K : Type ℓ} {V : Type κ} ⦃e : Eq K⦄ where
  unfoldable pub get : K → JsMap K V → Option V
  get k [] = none
  get k ((j, v) ∷ m) = if j == k then some v else get k m

  unfoldable pub set : K → V → JsMap K V → JsMap K V
  set k v [] = (k, v) ∷ []
  set k v ((j, w) ∷ m) = let rest = set k v m in if j == k then (j, v) ∷ m else (j, w) ∷ rest

  unfoldable pub delete : K → JsMap K V → JsMap K V
  delete k [] = []
  delete k ((j, w) ∷ m) = let rest = delete k m in if j == k then rest else (j, w) ∷ rest

  -- `m.has(k)`
  abbrev pub has : K → JsMap K V → Bool
  has k m = is_some (get k m)

  pub get-set :
      (k j : K) (v : V) (m : JsMap K V) → get j (set k v m) ≡ (if k == j then some v else get j m)
  unfolding get set
  get-set k j v [] = refl
  get-set k j v ((i, w) ∷ m) =
      ground (arith, get-set k j v m, e.agrees_iff k j, e.agrees_iff i k, e.agrees_iff i j)

  pub get-delete :
      (k j : K) (m : JsMap K V) → get j (delete k m) ≡ (if k == j then none else get j m)
  unfolding get delete
  get-delete k j [] = ground arith
  get-delete k j ((i, w) ∷ m) =
      ground (arith, get-delete k j m, e.agrees_iff k j, e.agrees_iff i k, e.agrees_iff i j)

  pub has-eq-includes : (k : K) (m : JsMap K V) → has k m ≡ includes (keys m) k
  unfolding get
  has-eq-includes k [] = refl
  has-eq-includes k ((j, v) ∷ m) = ground (arith, has-eq-includes k m)

  pub includes-keys-delete :
      (k j : K) (m : JsMap K V)
      → includes (keys (delete k m)) j ≡ (if k == j then false else includes (keys m) j)
  unfolding delete
  includes-keys-delete k j [] = ground arith
  includes-keys-delete k j ((i, w) ∷ m) =
      ground
        (arith, includes-keys-delete k j m, e.agrees_iff k j, e.agrees_iff i k, e.agrees_iff i j)

  pub IsDistinct-keys-delete :
      (k : K) (m : JsMap K V) → IsDistinct (keys m) → IsDistinct (keys (delete k m))
  unfolding delete
  IsDistinct-keys-delete k [] d = tt
  IsDistinct-keys-delete k ((i, w) ∷ m) (n, d) =
      ground (arith, IsDistinct-keys-delete k m d, includes-keys-delete k i m)

  -- `delete` of an absent key changes nothing
  pub delete_absent : (k : K) (m : JsMap K V) → get k m ≡ none → delete k m ≡ m
  unfolding get delete
  delete_absent k [] h = refl
  delete_absent k ((i, w) ∷ m) h = ground (arith, delete_absent k m)

  -- `set` of an absent key appends
  pub set_absent : (k : K) (v : V) (m : JsMap K V) → get k m ≡ none → set k v m ≡ m ++ (k, v) ∷ []
  unfolding get set
  set_absent k v [] h = refl
  set_absent k v ((i, w) ∷ m) h = ground (arith, set_absent k v m)

  -- with distinct keys, `delete` of a present key removes exactly one entry
  pub length-delete :
      (k : K) (m : JsMap K V)
      → IsDistinct (keys m)
      → has k m ≡ true
      → length (delete k m) + 1 ≡ length m
  unfolding get delete
  length-delete k [] d h = ground arith
  length-delete k ((i, w) ∷ m) (n, d) h = elim (Bool-cases (i == k)) [
    | inl same ↦
        let absent : get k m ≡ none = ground (arith, has-eq-includes k m, e.agrees_iff i k) in
        ground (arith, delete_absent k m absent)
    | inr other ↦ ground (arith, length-delete k m d)
  ]
