-- ===== src/CloudRuntime/Atomic.antt =====
-- The abstract log of packages/cloud-runtime/src/audit.ts: an append that reads the last entry and
-- writes the next one at once. Its logs are hash chains.
use arp.Common.{
  ℕ, zero, suc, ◌+◌, ◌≤◌, ◌≡◌, refl, ◌⊎◌, inl, inr, String, false, none, some, List, [], ◌∷◌, ◌++◌,
  any, nat_eq, Eq, if◌then◌else◌, length, arith, ltb,
}
use arp.Audit.{EntryInput, AuditEntry, Codec}
use arp.Audit.Chain.{IsChain}
use arp.CloudRuntime.PostgresAudit.{latest, has_seq, seal}

module _ {S H : Type 0} ⦃eq : Eq H⦄ (c : Codec S H) where
  -- the hash of the entry before number k, from the hash before them all
  abbrev pub tip : H → ℕ → List (AuditEntry H) → H
  tip g zero es = g
  tip g (suc k) [] = g
  tip g (suc k) (e ∷ es) = tip e.self_hash k es

  -- The abstract log: an append takes the next number and the last hash, in one go.
  unfoldable pub atomic : String × EntryInput → List (AuditEntry H) → List (AuditEntry H)
  atomic (now, input) es = es ++ seal c (length es) (tip c.genesis (length es) es) now input ∷ []

  unfoldable pub atomic_all : List (String × EntryInput) → List (AuditEntry H) → List (AuditEntry H)
  unfolding atomic
  atomic_all [] es = es
  atomic_all (x ∷ xs) es = atomic_all xs (atomic x es)

  pub atomic_all-concat :
      (xs : List (String × EntryInput)) (x : String × EntryInput) (es : List (AuditEntry H))
      → atomic_all (xs ++ x ∷ []) es ≡ atomic x (atomic_all xs es)
  unfolding atomic_all
  atomic_all-concat [] x es = refl
  atomic_all-concat (y ∷ xs) x es = atomic_all-concat xs x (atomic y es)

  pub tip-append :
      (g : H) (k : ℕ) (es fs : List (AuditEntry H))
      → k ≤ length es
      → tip g k (es ++ fs) ≡ tip g k es
  tip-append g zero es fs h = refl
  tip-append g (suc k) [] fs h = absurd (omega arith)
  tip-append g (suc k) (e ∷ es) fs h = tip-append e.self_hash k es fs (omega arith)

  pub IsChain-concat :
      (i n : ℕ) (g : H) (es : List (AuditEntry H)) (now : String) (input : EntryInput)
      → n ≡ i + length es
      → IsChain c i g es
      → IsChain c i g (es ++ seal c n (tip g (length es) es) now input ∷ [])
  unfolding seal
  IsChain-concat i n g [] now input h chain = (omega (arith, h), refl, refl, tt)
  IsChain-concat i n g (e ∷ es) now input h (number, linked, hashed, chain) = (
    number,
    linked,
    hashed,
    IsChain-concat (i + 1) n e.self_hash es now input (omega (arith, h)) chain,
  )

  pub atomic_all-IsChain :
      (xs : List (String × EntryInput)) (es : List (AuditEntry H))
      → IsChain c 0 c.genesis es
      → IsChain c 0 c.genesis (atomic_all xs es)
  unfolding atomic_all atomic
  atomic_all-IsChain [] es chain = chain
  atomic_all-IsChain ((now, input) ∷ xs) es chain =
      atomic_all-IsChain xs (atomic (now, input) es)
        (IsChain-concat 0 (length es) c.genesis es now input (omega arith) chain)

  -- what the latest row of a chain is
  pub latest-IsChain :
      (i : ℕ) (g : H) (es : List (AuditEntry H))
      → IsChain c i g es
      → ((es ≡ []) × (latest es ≡ none))
        ⊎ ((m : AuditEntry H) × (latest es ≡ some m)
            × (m.seq + 1 ≡ i + length es)
            × (m.self_hash ≡ tip g (length es) es))
  unfolding latest
  latest-IsChain i g [] chain = inl (refl, refl)
  latest-IsChain i g (e ∷ es) (number, linked, hashed, chain) =
      elim (latest-IsChain (i + 1) e.self_hash es chain) [
        | inl (empty, none_) ↦
            inr (e, rw (none_, latest) refl, rw empty (omega (arith, number)), rw empty refl)
        | inr (m, at, last, hash) ↦
            inr (m, rw (at, latest) (not_greater m last), omega (arith, last), hash)
      ]
    where
      not_greater :
          (m : AuditEntry H)
          → m.seq + 1 ≡ i + 1 + length es
          → (if ltb m.seq e.seq then some e else some m) ≡ some m
      not_greater m last = ground (arith, number)

  -- a number that no row of the chain has, but not past its end, is the next one
  pub next_of_chain :
      (i k : ℕ) (g : H) (es : List (AuditEntry H))
      → IsChain c i g es
      → any (has_seq k) es ≡ false
      → i ≤ k
      → k ≤ i + length es
      → k ≡ i + length es
  next_of_chain i k g [] chain free low high = omega arith
  next_of_chain i k g (e ∷ es) (number, linked, hashed, chain) free low high =
      ground (arith, next_of_chain (i + 1) k e.self_hash es chain)
