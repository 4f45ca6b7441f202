-- ===== src/Audit/Tamper.antt =====
-- Tamper evidence: the tail state of a valid log determines every entry of it.
use arp.Common.{
  ℕ, ◌+◌, ◌≡◌, refl, ap, sym, ◌∙◌, true, Option, some, List, [], ◌∷◌, map, arith, Eq, length,
}
use arp.Audit.{Base, AuditEntry, Codec, IsCodec, file_lines, load_tail_state, verify_file}
use arp.Audit.Chain.{IsChain, Holds, verify_file_iff}
use arp.Audit.Appends.{tip, load_tail_state_lem}
use mathlib.Core.Option.{some-injective}

module _ {S H : Type 0} ⦃e : Eq H⦄ (c : Codec S H) where
  -- no two different entries have one hash
  abbrev pub IsCollisionFree : Type 0
  IsCollisionFree = (a b : Base H) → c.hash_jcs a ≡ c.hash_jcs b → a ≡ b

  IsChain-unique :
      IsCollisionFree
      → (i : ℕ) (p q : H) (xs ys : List (AuditEntry H)) → IsChain c i p xs
      → IsChain c i q ys
      → length xs ≡ length ys
      → tip c p xs ≡ tip c q ys
      → (p ≡ q) × (xs ≡ ys)
  IsChain-unique inj i p q [] [] cx cy n t = (t, refl)
  IsChain-unique inj i p q [] (y ∷ ys) cx cy n t = absurd (omega arith)
  IsChain-unique inj i p q (x ∷ xs) [] cx cy n t = absurd (omega arith)
  IsChain-unique inj i p q (x ∷ xs) (y ∷ ys) (a, b, d, cx) (a', b', d', cy) n t =
      let (hashes, rest) =
        IsChain-unique inj (i + 1) x.self_hash y.self_hash xs ys cx cy (omega arith) t in
      let bases = inj x.base y.base (sym d ∙ hashes ∙ d') in
      (sym b ∙ ap (λ (r : Base H). r.prev_hash) bases ∙ b', ground (arith, bases, hashes, rest))

  map-parse-Holds :
      (ls : List (List S)) (xs : List (AuditEntry H)) → Holds c ls xs → map c.parse ls ≡ map some xs
  map-parse-Holds [] [] h = refl
  map-parse-Holds [] (x ∷ xs) h = elim h [ ]
  map-parse-Holds (l ∷ ls) [] h = elim h [ ]
  map-parse-Holds (l ∷ ls) (x ∷ xs) (g, h) = cc (g, map-parse-Holds ls xs h)

-- Two files that verify and have the same tail state hold the same entries in the same order, if
-- no two entries have one hash: an entry cannot be changed, dropped or moved behind the tail.
pub tail_determines_log :
    {S H : Type 0} ⦃e : Eq H⦄ (c : Codec S H)
    → IsCodec c
    → IsCollisionFree c
    → (f g : Option (List S)) → (verify_file c f).valid ≡ true
    → (verify_file c g).valid ≡ true
    → load_tail_state c f ≡ load_tail_state c g
    → map c.parse (file_lines c.alphabet f) ≡ map c.parse (file_lines c.alphabet g)
tail_determines_log c laws inj f g vf vg t =
    let a = (verify_file_iff c f).0 vf in
    let b = (verify_file_iff c g).0 vg in
    let same = some-injective _ _ (
      sym (load_tail_state_lem c laws f a.entries a.held a.chain)
      ∙ t
      ∙ load_tail_state_lem c laws g b.entries b.held b.chain) in
    let (_, entries) =
      IsChain-unique c inj 0 c.genesis c.genesis a.entries b.entries a.chain b.chain
        (ground (arith, same)) (ground (arith, same)) in
    map-parse-Holds c (file_lines c.alphabet f) a.entries a.held
    ∙ ap (map some) entries
    ∙ sym (map-parse-Holds c (file_lines c.alphabet g) b.entries b.held)
