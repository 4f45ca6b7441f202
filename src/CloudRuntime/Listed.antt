-- ===== src/CloudRuntime/Listed.antt =====
-- The rows that `verify` of packages/cloud-runtime/src/audit.ts reads: the newest ones up to its limit,
-- put back into the order of their numbers.
use arp.Common.{
  ℕ, ◌≤◌, ◌<◌, ◌≡◌, refl, ◌∙◌, ap, Bool, inl, inr, Bool-cases, List, [], ◌∷◌, ◌++◌, length, take,
  map, All, arith, suc, zero, String,
}
use arp.Audit.{AuditEntry}
use arp.CloudDb.Order.{order_by, insert_ordered}
use arp.CloudRuntime.PostgresAudit.{smaller_first, greater_first, read_back}

module _ {R : Type 0} (before : R → R → Bool) where
  module _ (P : R → Type 0) where
    All-insert : (r : R) (rs : List R) → P r → All P rs → All P (insert_ordered before r rs)
    unfolding insert_ordered
    All-insert r [] h all = (h, tt)
    All-insert r (s ∷ rs) h (first, all) = elim (Bool-cases (before r s)) [
      | inl yes_ ↦ rw yes_ (h, (first, all))
      | inr no_ ↦ rw no_ (first, All-insert r rs h all)
    ]

    pub All-order_by : (rs : List R) → All P rs → All P (order_by before rs)
    unfolding order_by
    All-order_by [] all = tt
    All-order_by (r ∷ rs) (first, all) =
        All-insert r (order_by before rs) first (All-order_by rs all)

  length-insert : (r : R) (rs : List R) → length (insert_ordered before r rs) ≡ length (r ∷ rs)
  unfolding insert_ordered
  length-insert r [] = refl
  length-insert r (s ∷ rs) = ground (arith, length-insert r rs)

  pub length-order_by : (rs : List R) → length (order_by before rs) ≡ length rs
  unfolding order_by
  length-order_by [] = refl
  length-order_by (r ∷ rs) = omega (arith, length-insert r (order_by before rs), length-order_by rs)

pub take_all : {R : Type 0} (n : ℕ) (rs : List R) → length rs ≤ n → take n rs ≡ rs
take_all zero [] few = refl
take_all (suc n) [] few = refl
take_all zero (r ∷ rs) few = absurd (omega arith)
take_all (suc n) (r ∷ rs) few = ap (λ t. r ∷ t) (take_all n rs (omega (arith, few)))

module _ {H : Type 0} where
  -- rows whose numbers are greater than that of a row
  abbrev Above : AuditEntry H → List (AuditEntry H) → Type 0
  Above e = All (λ (x : AuditEntry H). e.seq < x.seq)

  -- each row has a smaller number than those after it
  abbrev pub Ascending : List (AuditEntry H) → Type 0
  Ascending [] = Unit
  Ascending (e ∷ es) = Above e es × Ascending es

  insert_last :
      (e : AuditEntry H) (es : List (AuditEntry H))
      → Above e es
      → insert_ordered greater_first e es ≡ es ++ e ∷ []
  unfolding insert_ordered
  insert_last e [] h = refl
  insert_last e (x ∷ es) (less, h) = ground (arith, insert_last e es h)

  order-last :
      (e : AuditEntry H) (es : List (AuditEntry H))
      → Above e es
      → order_by smaller_first (es ++ e ∷ []) ≡ e ∷ order_by smaller_first es
  unfolding order_by insert_ordered
  order-last e [] h = refl
  order-last e (x ∷ es) (less, h) =
      ap (insert_ordered smaller_first x) (order-last e es h) ∙ ground arith

  pub order-order :
      (es : List (AuditEntry H))
      → Ascending es
      → order_by smaller_first (order_by greater_first es) ≡ es
  unfolding order_by
  order-order [] h = refl
  order-order (e ∷ es) (above, h) =
      let sorted = order_by greater_first es in
      let higher : Above e sorted =
        All-order_by greater_first (λ (x : AuditEntry H). e.seq < x.seq) es above in
      ap (order_by smaller_first) (insert_last e sorted higher)
      ∙ order-last e sorted higher
      ∙ ap (λ r. e ∷ r) (order-order es h)

  -- the timestamp's text is read back as it was written
  abbrev pub Reads : (String → String) → AuditEntry H → Type 0
  Reads iso e = iso e.timestamp ≡ e.timestamp

  pub map-read_back :
      (iso : String → String) (es : List (AuditEntry H))
      → All (Reads iso) es
      → map (read_back iso) es ≡ es
  map-read_back iso [] h = refl
  map-read_back iso (e ∷ es) (same, h) = ground (arith, map-read_back iso es h)
