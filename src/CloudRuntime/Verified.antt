-- ===== src/CloudRuntime/Verified.antt =====
-- `verify` of packages/cloud-runtime/src/audit.ts accepts every hash chain.
use arp.Common.{
  ℕ, ◌+◌, ◌≡◌, ◌∙◌, ap, true, none, List, [], ◌∷◌, Eq, length, arith, ◌≤◌, ◌<◌, All, map, take,
  String,
}
use arp.Audit.{AuditEntry, Codec, VerifyResult}
use arp.Audit.Chain.{IsChain, check_entry-eq-none_iff}
use arp.CloudDb.Order.{order_by}
use arp.CloudRuntime.Listed.{
  Ascending, Reads, order-order, All-order_by, length-order_by, take_all, map-read_back,
}
use arp.CloudRuntime.PostgresAudit.{verify_rows, verify, smaller_first, greater_first, read_back}

-- the rows that `verify` goes over are all rows, in the order of their numbers
listed :
    {H : Type 0} (iso : String → String) (es : List (AuditEntry H))
    → Ascending es
    → All (Reads iso) es
    → length es ≤ 100000
    → order_by smaller_first (map (read_back iso) (take 100000 (order_by greater_first es))) ≡ es
listed iso es rising reads few =
    ap (λ r. order_by smaller_first (map (read_back iso) r))
      (take_all 100000 (order_by greater_first es)
        (omega (arith, length-order_by greater_first es, few)))
    ∙ ap (order_by smaller_first) (
        map-read_back iso (order_by greater_first es)
          (All-order_by greater_first (Reads iso) es reads))
    ∙ order-order es rising

abbrev pub valid_after : ℕ → VerifyResult
valid_after n = record { valid = true; entries_seen = n; first_break_at = none; error = none }

module _ {S H : Type 0} ⦃eq : Eq H⦄ (c : Codec S H) where
  verify_rows-IsChain :
      (i : ℕ) (g : H) (es : List (AuditEntry H))
      → IsChain c i g es
      → verify_rows c i g es ≡ valid_after (i + length es)
  unfolding verify_rows
  verify_rows-IsChain i g [] chain = ground arith
  verify_rows-IsChain i g (e ∷ es) (number, linked, hashed, chain) = ground (
    arith,
    (check_entry-eq-none_iff c i g e).1 (number, linked, hashed),
    verify_rows-IsChain (i + 1) e.self_hash es chain,
  )

  chain-Above :
      (i n : ℕ) (g : H) (es : List (AuditEntry H))
      → IsChain c i g es
      → n < i
      → All (λ (x : AuditEntry H). n < x.seq) es
  chain-Above i n g [] chain less = tt
  chain-Above i n g (e ∷ es) (number, linked, hashed, chain) less = (
    omega (arith, number, less),
    chain-Above (i + 1) n e.self_hash es chain (omega (arith, less)),
  )

  chain-Ascending : (i : ℕ) (g : H) (es : List (AuditEntry H)) → IsChain c i g es → Ascending es
  chain-Ascending i g [] chain = tt
  chain-Ascending i g (e ∷ es) (number, linked, hashed, chain) = (
    chain-Above (i + 1) e.seq e.self_hash es chain (omega (arith, number)),
    chain-Ascending (i + 1) e.self_hash es chain,
  )

  pub verify-IsChain :
      (iso : String → String) (es : List (AuditEntry H))
      → IsChain c 0 c.genesis es
      → All (Reads iso) es
      → length es ≤ 100000
      → verify c iso es ≡ valid_after (length es)
  unfolding verify
  verify-IsChain iso es chain reads few =
      ap (verify_rows c 0 c.genesis)
        (listed iso es (chain-Ascending 0 c.genesis es chain) reads few)
      ∙ verify_rows-IsChain 0 c.genesis es chain
      ∙ ap valid_after (omega arith)
