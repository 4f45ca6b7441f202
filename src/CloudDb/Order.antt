-- ===== src/CloudDb/Order.antt =====
-- The first row of an answer, and `orderBy` (packages/cloud-db/src/tenant-db.ts).
use arp.Common.{Bool, true, Option, none, some, List, [], ◌∷◌, string_eq, if◌then◌else◌}

-- `rows[0] ?? null`
abbrev pub first : {R : Type 0} → List R → Option R
first [] = none
first (r ∷ rs) = some r

module _ {R : Type 0} (before : R → R → Bool) where
  unfoldable pub insert_ordered : R → List R → List R
  insert_ordered r [] = r ∷ []
  insert_ordered r (s ∷ rs) =
      let rest = insert_ordered r rs in if before r s then r ∷ s ∷ rs else s ∷ rest

  -- `orderBy`: sorted so that each row may stand before the next; equal rows keep their order
  unfoldable pub order_by : List R → List R
  unfolding insert_ordered
  order_by [] = []
  order_by (r ∷ rs) = insert_ordered r (order_by rs)

abbrev pub any_row : {R : Type 0} → R → Bool
any_row r = true
