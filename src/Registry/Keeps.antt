-- ===== src/Registry/Keeps.antt =====
-- Every call of packages/registry/src/registry.ts keeps the primary keys and the references.
use arp.Common.{
  ℕ, ◌/◌, ◌≡◌, refl, String, Option, inl, inr, Bool-cases, Option-cases, List, [], ◌∷◌, arith,
  string_eq, nat_eq,
}
use arp.Registry.{
  revoked, RevocationType, connection, key, ConnectionRecord, Revocation, Registry, Call, create,
  update, revoke, touch, charge, note, pos, negsuc, CreateConnectionInput, same_type,
  same_revocation, select_conn, update_conn, with_status, with_last_message, insert_revoke,
  create_connection, update_status, revoke_connection, touch_last_message, record_spend,
  record_revocation, new_row, perform, perform_all,
}
use arp.Registry.Invariant.{
  IsRegistry, UniqueRevocations, UniqueConnections-concat, SpendKnown-concat,
  UniqueConnections-update, SpendKnown-update, UniqueSpend-upsert, SpendKnown-upsert, any-has_id,
}
use arp.Registry.Revoked.{any-insert_revoke, same_type_eq}

same_type_sym : (s t : RevocationType) → same_type s t ≡ same_type t s
same_type_sym connection connection = refl
same_type_sym connection key = refl
same_type_sym key connection = refl
same_type_sym key key = refl

UniqueRevocations-insert :
    (r : Revocation) (rows : List Revocation)
    → UniqueRevocations rows
    → UniqueRevocations (insert_revoke r rows)
unfolding insert_revoke
UniqueRevocations-insert r [] u = (refl, tt)
UniqueRevocations-insert r (s ∷ rows) (n, u) = elim (Bool-cases (same_revocation r.type r.id s)) [
  | inl same ↦
      rw same (ground (arith, same_type_eq s.type r.type, string_eq.agrees_iff s.id r.id), u)
  | inr other ↦ rw other (
    ground (
      arith,
      any-insert_revoke s.type s.id r rows,
      same_type_sym s.type r.type,
      string_eq.agrees_iff s.id r.id,
      string_eq.agrees_iff r.id s.id,
    ),
    UniqueRevocations-insert r rows u,
  )
]

module _ (parse_date : String → Option ℕ) where
  create-IsRegistry :
      (now : ℕ) (input : CreateConnectionInput) (g : Registry)
      → IsRegistry g
      → IsRegistry (create_connection parse_date now input g).0
  unfolding create_connection
  create-IsRegistry now input g v =
      elim (Option-cases (select_conn input.token.connection_id g.connections)) [
        | inr (r, found) ↦ rw (found, create_connection) v
        | inl missing ↦
            rw (missing, create_connection)
              (record {
                connections =
                    UniqueConnections-concat g.connections (new_row parse_date now input)
                      v.connections
                      (ground (arith, any-has_id input.token.connection_id g.connections));
                spend = v.spend;
                revocations = v.revocations;
                spend_known =
                    SpendKnown-concat g.connections (new_row parse_date now input ∷ []) g.spend
                      v.spend_known;
              })
      ]

  update-IsRegistry :
      (f : ConnectionRecord → ConnectionRecord)
      → ((r : ConnectionRecord) → (f r).connection_id ≡ r.connection_id)
      → (id : String) (g : Registry) (rs : List Revocation) → UniqueRevocations rs
      → IsRegistry g
      → IsRegistry (record g { connections = update_conn f id g.connections; revocations = rs })
  update-IsRegistry f keeps id g rs u v = record {
    connections = UniqueConnections-update f keeps id g.connections v.connections;
    spend = v.spend;
    revocations = u;
    spend_known = SpendKnown-update f keeps id g.connections g.spend v.spend_known;
  }

  charge-IsRegistry :
      (at : ℕ) (id : String) (cents : ℕ) (g : Registry)
      → IsRegistry g
      → IsRegistry (record_spend at id (pos cents) g).0
  unfolding record_spend
  charge-IsRegistry at id cents g v = elim (Option-cases (select_conn id g.connections)) [
    | inl missing ↦ rw (missing, record_spend) v
    | inr (r, found) ↦
        rw (found, record_spend)
          (record {
            connections = v.connections;
            spend = UniqueSpend-upsert id (at / 1000) cents g.spend v.spend;
            revocations = v.revocations;
            spend_known =
                SpendKnown-upsert g.connections id (at / 1000) cents g.spend
                  (ground (arith, any-has_id id g.connections)) v.spend_known;
          })
  ]

  perform-IsRegistry :
      (c : Call) (g : Registry) → IsRegistry g → IsRegistry (perform parse_date c g)
  unfolding perform update_status revoke_connection touch_last_message record_spend
      record_revocation
  perform-IsRegistry (create now input) g v = create-IsRegistry now input g v
  perform-IsRegistry (update id s) g v = elim (Option-cases (select_conn id g.connections)) [
    | inl missing ↦ rw (missing, perform) v
    | inr (r, found) ↦
        rw (found, perform)
          (update-IsRegistry (with_status s) (λ q. refl) id g g.revocations v.revocations v)
  ]
  perform-IsRegistry (revoke now id reason) g v =
      elim (Option-cases (select_conn id g.connections)) [
        | inl missing ↦ rw (missing, perform) v
        | inr (r, found) ↦
            rw (found, perform)
              (update-IsRegistry (with_status revoked) (λ q. refl) id g _
                (UniqueRevocations-insert _ g.revocations v.revocations) v)
      ]
  perform-IsRegistry (touch at id) g v = elim (Option-cases (select_conn id g.connections)) [
    | inl missing ↦ rw (missing, perform) v
    | inr (r, found) ↦
        rw (found, perform)
          (update-IsRegistry (with_last_message at) (λ q. refl) id g g.revocations v.revocations v)
  ]
  perform-IsRegistry (charge at id (negsuc n)) g v = v
  perform-IsRegistry (charge at id (pos n)) g v = charge-IsRegistry at id n g v
  perform-IsRegistry (note r) g v = record {
    connections = v.connections;
    spend = v.spend;
    revocations = UniqueRevocations-insert r g.revocations v.revocations;
    spend_known = v.spend_known;
  }

  -- Any sequence of calls, failing ones included, keeps the primary keys of the three tables unique
  -- and every spend row on a connection of the registry.
  pub perform_all-IsRegistry :
      (cs : List Call) (g : Registry) → IsRegistry g → IsRegistry (perform_all parse_date cs g)
  unfolding perform_all
  perform_all-IsRegistry [] g v = v
  perform_all-IsRegistry (c ∷ cs) g v =
      perform_all-IsRegistry cs (perform parse_date c g) (perform-IsRegistry c g v)
