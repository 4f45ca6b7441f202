-- ===== src/Registry/Spend.antt =====
-- Spend windows of packages/registry/src/registry.ts.
use arp.Common.{
  ℕ, ◌+◌, ◌-◌, ◌/◌, ◌≡◌, ◌⊎◌, refl, String, ◌&&◌, none, inl, inr, Option-cases, List, [], ◌∷◌,
  arith, string_eq, nat_eq, ◌==◌, if◌then◌else◌, leb,
}
use arp.Registry.{
  not_found, invalid_input, SpendRow, Registry, done, failed, pos, negsuc, select_conn,
  upsert_spend, sum_spend, record_spend, get_spend_window,
}

sum-upsert_spend :
    (id i : String) (start since cents : ℕ) (rows : List SpendRow)
    → sum_spend i since (upsert_spend id start cents rows)
      ≡ (if id == i && leb since start then cents else 0) + sum_spend i since rows
unfolding sum_spend upsert_spend
sum-upsert_spend id i start since cents [] = refl
sum-upsert_spend id i start since cents (s ∷ rows) =
    ground
      (arith, sum-upsert_spend id i start since cents rows, string_eq.agrees_iff s.connection_id id)

-- what `recordSpend` of a non-negative amount leaves, seen through `getSpendWindow`
abbrev pub Charged : ℕ → String → ℕ → Registry → Type 0
Charged at id cents g =
    let (h, a) = record_spend at id (pos cents) g in
    (((select_conn id g.connections ≡ none) × (a ≡ failed not_found) × (h ≡ g))
      ⊎ ((a ≡ done tt)
          × (h.connections ≡ g.connections)
          × (h.revocations ≡ g.revocations)
          × ((i : String) (window_sec t : ℕ)
              → get_spend_window t i window_sec h
                ≡ (if id == i && leb (t / 1000 - window_sec) (at / 1000) then cents else 0)
                  + get_spend_window t i window_sec g)))

-- A charge against a connection that does not exist is refused and changes nothing. Any other
-- charge adds its amount to the windows of its connection that reach back to its second, and leaves
-- all other windows, the connections and the revocations as they were. A negative amount is refused without effect.
pub record_spend_lem :
    (at : ℕ) (id : String) (cents : ℕ) (g : Registry)
    → Charged at id cents g
      × ((n : ℕ) → record_spend at id (negsuc n) g ≡ (g, failed invalid_input))
unfolding record_spend get_spend_window
record_spend_lem at id cents g = (charged, λ n. refl)
  where
    charged : Charged at id cents g
    charged = elim (Option-cases (select_conn id g.connections)) [
      | inl missing ↦ inl (missing, rw (missing, record_spend), rw (missing, record_spend))
      | inr (r, found) ↦ inr (
        rw (found, record_spend),
        rw (found, record_spend),
        rw (found, record_spend),
        λ i window_sec t.
            rw (found, record_spend)
              (sum-upsert_spend id i (at / 1000) (t / 1000 - window_sec) cents g.spend),
      )
    ]
