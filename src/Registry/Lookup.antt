-- ===== src/Registry/Lookup.antt =====
-- `createConnection` and `getConnection` of packages/registry/src/registry.ts.
use arp.Common.{
  ℕ, ◌≡◌, ◌⊎◌, refl, String, Option, none, some, inl, inr, Option-cases, List, [], ◌∷◌, ◌++◌, arith,
  is_some, Bool-cases, ◌∙◌, string_eq, ◌==◌, if◌then◌else◌,
}
use arp.Spec.{ConnectionToken}
use arp.Registry.{
  conflict, unreadable_token, row_to_record, ConnectionRecord, Registry, done, failed,
  CreateConnectionInput, select_conn, has_id, new_row, create_connection, get_connection,
}

find-concat :
    (id : String) (rows : List ConnectionRecord) (r : ConnectionRecord)
    → select_conn id (rows ++ r ∷ []) ≡ (elim (select_conn id rows) [
      | none ↦ (if has_id id r then some r else none)
      | some s ↦ some s
    ])
unfolding select_conn
find-concat id [] r = refl
find-concat id (s ∷ rows) r = ground (arith, find-concat id rows r)

module _ (parse_date : String → Option ℕ) where
  -- what `createConnection` leaves and answers
  abbrev pub Created : ℕ → CreateConnectionInput → Registry → Type 0
  Created now input g =
      let id = input.token.connection_id in
      let row = new_row parse_date now input in
      let (h, a) = create_connection parse_date now input g in
      (((r : ConnectionRecord) × (select_conn id g.connections ≡ some r)
          × (a ≡ failed conflict)
          × (h ≡ g))
        ⊎ ((select_conn id g.connections ≡ none)
            × ((i : String)
                → select_conn i h.connections
                  ≡ (if id == i then some row else select_conn i g.connections))
            × (((input.token_jws ≡ none)
                  × (a ≡ failed unreadable_token)
                  × (get_connection id h ≡ failed unreadable_token))
                ⊎ ((t : ConnectionToken) × (input.token_jws ≡ some t)
                    × (row.token ≡ t)
                    × (a ≡ done row)
                    × (get_connection id h ≡ done (some row))))))

  get_created :
      (id : String) (r : ConnectionRecord) (g : Registry)
      → select_conn id g.connections ≡ some r
      → get_connection id g
        ≡ (if is_some r.token_jws then done (some r) else failed unreadable_token)
  unfolding get_connection row_to_record
  get_created id r g at = elim (Bool-cases (is_some r.token_jws)) [
    | inl reads ↦ rw (at, reads, get_connection, row_to_record)
    | inr bad ↦ rw (at, bad, get_connection, row_to_record)
  ]

  pub create_connection_lem :
      (now : ℕ) (input : CreateConnectionInput) (g : Registry) → Created now input g
  unfolding create_connection row_to_record
  create_connection_lem now input g =
      let id = input.token.connection_id in
      let row = new_row parse_date now input in
      elim (Option-cases (select_conn id g.connections)) [
        | inr (r, found) ↦
            inl (r, found, rw (found, create_connection), rw (found, create_connection))
        | inl missing ↦
            let after : Registry = record g { connections = g.connections ++ row ∷ [] } in
            let all : (i : String)
                → select_conn i after.connections
                  ≡ (if id == i then some row else select_conn i g.connections) =
              λ i. ground (
                arith,
                find-concat i g.connections row,
                Option-cases (select_conn i g.connections),
                string_eq.agrees_iff id i,
              ) in
            let here : select_conn id after.connections ≡ some row =
              ground (arith, all id, string_eq.agrees_iff id id) in
            inr (
              missing,
              rw (missing, create_connection) all,
              elim (Option-cases input.token_jws) [
                | inl bad ↦ inl (
                  bad,
                  rw (missing, bad, create_connection, row_to_record),
                  rw (missing, create_connection) (get_created id row after here ∙ rw bad refl),
                )
                | inr (t, reads) ↦ inr (
                  t,
                  reads,
                  rw reads refl,
                  rw (missing, create_connection, row_to_record) (rw reads refl),
                  rw (missing, create_connection) (get_created id row after here ∙ rw reads refl),
                )
              ],
            )
      ]
