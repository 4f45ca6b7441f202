-- ===== src/Audit/Chain.antt =====
-- What a valid log is, stated without the loop of `verifyFile`: a hash chain from the genesis
-- hash. The loop decides it, and where it fails it names the first line that breaks the chain.
use mathlib.Core.Bool.{false≢true}
use arp.Common.{
  ℕ, suc, ◌+◌, ◌<◌, ◌≡◌, refl, ap, sym, ◌∙◌, ◌↔◌, inl, inr, true, false, Option, none, some,
  Option-cases, List, [], ◌∷◌, arith, Eq, take, length,
}
use arp.Audit.{AuditEntry, Codec, VerifyResult, check_entry, verify_from, verify_file, file_lines}

module _ {S H : Type 0} ⦃e : Eq H⦄ (c : Codec S H) where
  -- Entry number `i` onwards: consecutive numbers, each entry linked to the hash before it and
  -- carrying the hash of its own other fields.
  abbrev pub IsChain : ℕ → H → List (AuditEntry H) → Type 0
  IsChain i prev [] = Unit
  IsChain i prev (x ∷ xs) =
      (x.seq ≡ i)
      × (x.prev_hash ≡ prev)
      × (x.self_hash ≡ c.hash_jcs x.base)
      × IsChain (i + 1) x.self_hash xs

  -- the lines parse to these entries, one each
  abbrev pub Holds : List (List S) → List (AuditEntry H) → Type 0
  Holds [] [] = Unit
  Holds (l ∷ ls) (x ∷ xs) = (c.parse l ≡ some x) × Holds ls xs
  Holds _ _ = ⊥

  pub check_entry-eq-none_iff :
      (i : ℕ) (prev : H) (x : AuditEntry H)
      → (check_entry c i prev x ≡ none)
        ↔ ((x.seq ≡ i) × (x.prev_hash ≡ prev) × (x.self_hash ≡ c.hash_jcs x.base))
  unfolding check_entry
  check_entry-eq-none_iff i prev x =
      ground (arith, e.agrees_iff x.prev_hash prev, e.agrees_iff (c.hash_jcs x.base) x.self_hash)

  pub verify_from_sound :
      (i : ℕ) (prev : H) (ls : List (List S))
      → (verify_from c i prev ls).valid ≡ true
      → (xs : List (AuditEntry H)) × Holds ls xs × IsChain i prev xs
  unfolding verify_from
  verify_from_sound i prev [] h = ([], tt, tt)
  verify_from_sound i prev (l ∷ ls) h = elim (Option-cases (c.parse l)) [
    | inl bad ↦ absurd (false≢true (rw (bad, verify_from) at h))
    | inr (x, good) ↦ elim (Option-cases (check_entry c i prev x)) [
      | inl passed ↦
          let (xs, held, chain) =
            verify_from_sound (i + 1) x.self_hash ls (rw (good, passed, verify_from) at h) in
          (
            x ∷ xs,
            (good, held),
            let (a, b, d) = (check_entry-eq-none_iff i prev x).0 passed in (a, b, d, chain),
          )
      | inr (why, failed) ↦ absurd (false≢true (rw (good, failed, verify_from) at h))
    ]
  ]

  pub verify_from_complete :
      (i : ℕ) (prev : H) (ls : List (List S)) (xs : List (AuditEntry H))
      → Holds ls xs
      → IsChain i prev xs
      → verify_from c i prev ls
        ≡ record { valid = true; entries_seen = i + length ls; first_break_at = none; error = none }
  unfolding verify_from
  verify_from_complete i prev [] xs held chain = ground arith
  verify_from_complete i prev (l ∷ ls) [] held chain = elim held [ ]
  verify_from_complete i prev (l ∷ ls) (x ∷ xs) (good, held) (a, b, d, chain) = ground (
    arith,
    (check_entry-eq-none_iff i prev x).1 (a, b, d),
    verify_from_complete (i + 1) x.self_hash ls xs held chain,
  )

  verify_from_break :
      (i : ℕ) (prev : H) (ls : List (List S))
      → (verify_from c i prev ls).valid ≡ false
      → (k : ℕ) × (k < length ls)
        × ((verify_from c i prev ls).entries_seen ≡ i + k)
        × ((verify_from c i prev ls).first_break_at ≡ some (i + k))
        × ((verify_from c i prev (take k ls)).valid ≡ true)
        × ((verify_from c i prev (take (suc k) ls)).valid ≡ false)
  unfolding verify_from
  verify_from_break i prev [] h = cc
  verify_from_break i prev (l ∷ ls) h = elim (Option-cases (c.parse l)) [
    | inl bad ↦ (
      0,
      omega arith,
      rw (bad, verify_from) (omega arith),
      ground (arith),
      refl,
      rw (bad, verify_from),
    )
    | inr (x, good) ↦ elim (Option-cases (check_entry c i prev x)) [
      | inl passed ↦
          let (k, lt, seen, at_k, before, after) =
            verify_from_break (i + 1) x.self_hash ls (rw (good, passed, verify_from) at h) in
          (
            suc k,
            omega (arith, lt),
            ground (arith, seen),
            ground (arith, at_k),
            rw (good, passed, verify_from) before,
            rw (good, passed, verify_from) after,
          )
      | inr (why, failed) ↦
          (0, omega arith, ground arith, ground arith, refl, rw (good, failed, verify_from))
    ]
  ]

  -- a valid log, as a hash chain from the genesis hash
  pub record IsValidLog (ls : List (List S)) : Type 0 where
    pub entries : List (AuditEntry H)
    pub held : Holds ls entries
    pub chain : IsChain 0 c.genesis entries

  IsValidLog-iff :
      (ls : List (List S)) → ((verify_from c 0 c.genesis ls).valid ≡ true) ↔ IsValidLog ls
  IsValidLog-iff ls = (
    λ h.
        let (xs, a, b) = verify_from_sound 0 c.genesis ls h in
        record { entries = xs; held = a; chain = b },
    λ v.
        ap (λ (r : VerifyResult). r.valid)
          (verify_from_complete 0 c.genesis ls v.entries v.held v.chain),
  )

-- A file verifies exactly when its lines parse to a hash chain that starts at the genesis hash.
pub verify_file_iff :
    {S H : Type 0} ⦃e : Eq H⦄ (c : Codec S H) (file : Option (List S))
    → ((verify_file c file).valid ≡ true) ↔ IsValidLog c (file_lines c.alphabet file)
unfolding verify_file
verify_file_iff c file = IsValidLog-iff c (file_lines c.alphabet file)

pub verify_file_first_break :
    {S H : Type 0} ⦃e : Eq H⦄ (c : Codec S H) (file : Option (List S))
    → (verify_file c file).valid ≡ false
    → (k : ℕ) × (k < length (file_lines c.alphabet file))
      × ((verify_file c file).entries_seen ≡ k)
      × ((verify_file c file).first_break_at ≡ some k)
      × IsValidLog c (take k (file_lines c.alphabet file))
      × ¬ (IsValidLog c (take (suc k) (file_lines c.alphabet file)))
unfolding verify_file
verify_file_first_break c file h =
    let (k, lt, seen, at_k, before, after) =
      verify_from_break c 0 c.genesis (file_lines c.alphabet file) h in
    (
      k,
      lt,
      omega (arith, seen),
      ground (arith, at_k),
      (IsValidLog-iff c (take k (file_lines c.alphabet file))).0 before,
      λ v.
          false≢true
            (sym after ∙ (IsValidLog-iff c (take (suc k) (file_lines c.alphabet file))).1 v),
    )
