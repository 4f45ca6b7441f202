-- ===== src/Registry/Invariant.antt =====
-- The primary keys of packages/registry/src/schema.ts and the references between the tables, kept
-- by every call of packages/registry/src/registry.ts.
use arp.Common.{
  ℕ, ◌≡◌, refl, String, Bool, true, false, ◌&&◌, ◌||◌, inl, inr, Bool-cases, List, [], ◌∷◌, ◌++◌,
  arith, string_eq, nat_eq, ◌==◌, any, is_some,
}
use arp.Registry.{
  ConnectionRecord, SpendRow, Revocation, Registry, same_revocation, select_conn, has_id,
  update_conn, upsert_spend,
}

-- PRIMARY KEY (connection_id)
abbrev pub UniqueConnections : List ConnectionRecord → Type 0
UniqueConnections [] = Unit
UniqueConnections (r ∷ rows) = (any (has_id r.connection_id) rows ≡ false) × UniqueConnections rows

abbrev pub same_window : String → ℕ → SpendRow → Bool
same_window id start s = s.connection_id == id && s.window_start == start

-- PRIMARY KEY (connection_id, window_start)
abbrev pub UniqueSpend : List SpendRow → Type 0
UniqueSpend [] = Unit
UniqueSpend (s ∷ rows) =
    (any (same_window s.connection_id s.window_start) rows ≡ false) × UniqueSpend rows

-- PRIMARY KEY (type, id)
abbrev pub UniqueRevocations : List Revocation → Type 0
UniqueRevocations [] = Unit
UniqueRevocations (r ∷ rows) =
    (any (same_revocation r.type r.id) rows ≡ false) × UniqueRevocations rows

abbrev pub SpendKnown : List ConnectionRecord → List SpendRow → Type 0
SpendKnown rows [] = Unit
SpendKnown rows (s ∷ spend) = (any (has_id s.connection_id) rows ≡ true) × SpendKnown rows spend

pub record IsRegistry (g : Registry) : Type 0 where
  pub connections : UniqueConnections g.connections
  pub spend : UniqueSpend g.spend
  pub revocations : UniqueRevocations g.revocations
  pub spend_known : SpendKnown g.connections g.spend

pub any-has_id :
    (id : String) (rows : List ConnectionRecord)
    → any (has_id id) rows ≡ is_some (select_conn id rows)
unfolding select_conn
any-has_id id [] = refl
any-has_id id (r ∷ rows) = ground (arith, any-has_id id rows)

any-append :
    (id : String) (rows new : List ConnectionRecord)
    → any (has_id id) (rows ++ new) ≡ (any (has_id id) rows || any (has_id id) new)
any-append id [] new = refl
any-append id (r ∷ rows) new = ground (arith, any-append id rows new)

pub UniqueConnections-concat :
    (rows : List ConnectionRecord) (r : ConnectionRecord)
    → UniqueConnections rows
    → any (has_id r.connection_id) rows ≡ false
    → UniqueConnections (rows ++ r ∷ [])
UniqueConnections-concat [] r u h = (refl, tt)
UniqueConnections-concat (s ∷ rows) r (n, u) h = (
  ground (
    arith,
    any-append s.connection_id rows (r ∷ []),
    string_eq.agrees_iff s.connection_id r.connection_id,
    string_eq.agrees_iff r.connection_id s.connection_id,
  ),
  UniqueConnections-concat rows r u (ground arith),
)

pub SpendKnown-concat :
    (rows new : List ConnectionRecord) (spend : List SpendRow)
    → SpendKnown rows spend
    → SpendKnown (rows ++ new) spend
SpendKnown-concat rows new [] k = tt
SpendKnown-concat rows new (s ∷ spend) (m, k) =
    (ground (arith, any-append s.connection_id rows new), SpendKnown-concat rows new spend k)

module _ (f : ConnectionRecord → ConnectionRecord)
    (keeps : (r : ConnectionRecord) → (f r).connection_id ≡ r.connection_id) where
  any-update_conn :
      (id i : String) (rows : List ConnectionRecord)
      → any (has_id i) (update_conn f id rows) ≡ any (has_id i) rows
  unfolding update_conn
  any-update_conn id i [] = refl
  any-update_conn id i (r ∷ rows) = ground (arith, any-update_conn id i rows, keeps r)

  pub UniqueConnections-update :
      (id : String) (rows : List ConnectionRecord)
      → UniqueConnections rows
      → UniqueConnections (update_conn f id rows)
  unfolding update_conn
  UniqueConnections-update id [] u = tt
  UniqueConnections-update id (r ∷ rows) (n, u) = (
    ground (arith, any-update_conn id r.connection_id rows, keeps r),
    UniqueConnections-update id rows u,
  )

  pub SpendKnown-update :
      (id : String) (rows : List ConnectionRecord) (spend : List SpendRow)
      → SpendKnown rows spend
      → SpendKnown (update_conn f id rows) spend
  SpendKnown-update id rows [] k = tt
  SpendKnown-update id rows (s ∷ spend) (m, k) =
      (ground (arith, any-update_conn id s.connection_id rows), SpendKnown-update id rows spend k)

any-upsert_spend :
    (i id : String) (t start cents : ℕ) (rows : List SpendRow)
    → any (same_window i t) (upsert_spend id start cents rows)
      ≡ ((id == i && start == t) || any (same_window i t) rows)
unfolding upsert_spend
any-upsert_spend i id t start cents [] = refl
any-upsert_spend i id t start cents (s ∷ rows) =
    ground
      (arith, any-upsert_spend i id t start cents rows, string_eq.agrees_iff s.connection_id id)

pub UniqueSpend-upsert :
    (id : String) (start cents : ℕ) (rows : List SpendRow)
    → UniqueSpend rows
    → UniqueSpend (upsert_spend id start cents rows)
unfolding upsert_spend
UniqueSpend-upsert id start cents [] u = (refl, tt)
UniqueSpend-upsert id start cents (s ∷ rows) (n, u) =
    elim (Bool-cases (s.connection_id == id && s.window_start == start)) [
      | inl same ↦ rw same (n, u)
      | inr other ↦ rw other (
        ground (
          arith,
          any-upsert_spend s.connection_id id s.window_start start cents rows,
          string_eq.agrees_iff id s.connection_id,
          string_eq.agrees_iff s.connection_id id,
        ),
        UniqueSpend-upsert id start cents rows u,
      )
    ]

pub SpendKnown-upsert :
    (conns : List ConnectionRecord) (id : String) (start cents : ℕ) (rows : List SpendRow)
    → any (has_id id) conns ≡ true
    → SpendKnown conns rows
    → SpendKnown conns (upsert_spend id start cents rows)
unfolding upsert_spend
SpendKnown-upsert conns id start cents [] h k = (h, tt)
SpendKnown-upsert conns id start cents (s ∷ rows) h (m, k) =
    elim (Bool-cases (s.connection_id == id && s.window_start == start)) [
      | inl same ↦ rw same (m, k)
      | inr other ↦ rw other (m, SpendKnown-upsert conns id start cents rows h k)
    ]
