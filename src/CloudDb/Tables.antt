-- ===== src/CloudDb/Tables.antt =====
-- Tables whose rows belong to tenants, and the statements that packages/cloud-db/src/tenant-db.ts
-- builds: each carries the predicate that the row is the tenant's.
use arp.Common.{
  ◌≡◌, refl, String, Bool, true, false, ◌&&◌, List, [], ◌∷◌, ◌++◌, keep, map, string_eq, ◌==◌,
  if◌then◌else◌, arith,
}

abbrev pub TenantId : Type 0
TenantId = String

-- a row: its `tenant_id` column, and the other columns
pub record Owned (R : Type 0) : Type 0 where
  pub tenant_id : TenantId
  pub row : R

abbrev pub Table : Type 0 → Type 0
Table R = List (Owned R)

module _ {R : Type 0} where
  abbrev pub is_of : TenantId → Owned R → Bool
  is_of t o = o.tenant_id == t

  -- `client.select().from(table).where(and(eq(table.tenantId, tenantId), p))`
  unfoldable pub select : TenantId → (R → Bool) → Table R → List R
  select t p [] = []
  select t p (o ∷ os) =
      let rest = select t p os in if is_of t o && p o.row then o.row ∷ rest else rest

  -- `client.update(table).set(f).where(and(eq(table.tenantId, tenantId), p))`
  unfoldable pub update_where : TenantId → (R → Bool) → (R → R) → Table R → Table R
  update_where t p f [] = []
  update_where t p f (o ∷ os) =
      let rest = update_where t p f os in
      if is_of t o && p o.row then record o { row = f o.row } ∷ rest else o ∷ rest

  -- `client.delete(table).where(and(eq(table.tenantId, tenantId), p))`
  unfoldable pub delete_where : TenantId → (R → Bool) → Table R → Table R
  delete_where t p [] = []
  delete_where t p (o ∷ os) =
      let rest = delete_where t p os in if is_of t o && p o.row then rest else o ∷ rest

  -- `client.insert(table).values({ ...r, tenantId })`
  unfoldable pub insert : TenantId → R → Table R → Table R
  insert t r tb = tb ++ record { tenant_id = t; row = r } ∷ []

  -- whether a row of any tenant has the property, as a key over the whole table sees it
  abbrev pub exists_row : (R → Bool) → Table R → Bool
  exists_row p [] = false
  exists_row p (o ∷ os) = let rest = exists_row p os in if p o.row then true else rest

  -- the rows of one tenant
  unfoldable pub own : TenantId → Table R → Table R
  own t tb = keep (is_of t) tb

  pub own-insert_other :
      (t u : TenantId) (r : R) (tb : Table R) → (t == u) ≡ false → own u (insert t r tb) ≡ own u tb
  unfolding own insert
  own-insert_other t u r [] apart = ground arith
  own-insert_other t u r (o ∷ tb) apart = ground (arith, own-insert_other t u r tb apart)

  pub own-update_where_other :
      (t u : TenantId) (p : R → Bool) (f : R → R) (tb : Table R)
      → (t == u) ≡ false
      → own u (update_where t p f tb) ≡ own u tb
  unfolding own update_where
  own-update_where_other t u p f [] apart = refl
  own-update_where_other t u p f (o ∷ tb) apart = ground (
    arith,
    own-update_where_other t u p f tb apart,
    string_eq.agrees_iff o.tenant_id t,
    string_eq.agrees_iff o.tenant_id u,
    string_eq.agrees_iff t u,
  )

  pub own-delete_where_other :
      (t u : TenantId) (p : R → Bool) (tb : Table R)
      → (t == u) ≡ false
      → own u (delete_where t p tb) ≡ own u tb
  unfolding own delete_where
  own-delete_where_other t u p [] apart = refl
  own-delete_where_other t u p (o ∷ tb) apart = ground (
    arith,
    own-delete_where_other t u p tb apart,
    string_eq.agrees_iff o.tenant_id t,
    string_eq.agrees_iff o.tenant_id u,
    string_eq.agrees_iff t u,
  )

  -- a tenant's query sees its own rows alone
  pub select-own :
      (t : TenantId) (p : R → Bool) (tb : Table R) → select t p (own t tb) ≡ select t p tb
  unfolding own select
  select-own t p [] = refl
  select-own t p (o ∷ tb) = ground (arith, select-own t p tb)

  -- a row that is inserted is found last
  pub select-insert :
      (t : TenantId) (p : R → Bool) (r : R) (tb : Table R)
      → select t p (insert t r tb) ≡ select t p tb ++ (if p r then r ∷ [] else [])
  unfolding select insert
  select-insert t p r [] = ground (arith, string_eq.agrees_iff t t)
  select-insert t p r (o ∷ tb) = ground (arith, select-insert t p r tb)

  -- rows that are updated, and still have the property, are found updated
  pub select-update_where :
      (t : TenantId) (p : R → Bool) (f : R → R) (tb : Table R)
      → ((r : R) → p (f r) ≡ p r)
      → select t p (update_where t p f tb) ≡ map f (select t p tb)
  unfolding select update_where
  select-update_where t p f [] same = refl
  select-update_where t p f (o ∷ tb) same =
      ground (arith, select-update_where t p f tb same, same o.row)
