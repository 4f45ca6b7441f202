-- ===== src/Registry/Revoked.antt =====
-- Revocation in packages/registry/src/registry.ts: a revoked connection stays revoked.
use arp.Common.{
  ℕ, ◌≡◌, ◌⊎◌, refl, String, true, false, ◌||◌, Option, none, some, inl, inr, Bool-cases,
  Option-cases, List, [], ◌∷◌, arith, string_eq, ◌==◌, if◌then◌else◌, any,
}
use arp.Registry.{
  revoked, RevocationType, connection, key, not_found, ConnectionRecord, Revocation, Registry, done,
  failed, Call, create, update, revoke, touch, charge, note, pos, negsuc, same_type,
  same_revocation, select_conn, update_conn, with_status, insert_revoke, create_connection,
  update_status, revoke_connection, touch_last_message, record_spend, record_revocation, is_revoked,
  perform, perform_all,
}

pub same_type_eq : (s t : RevocationType) → same_type s t ≡ true → s ≡ t
same_type_eq connection connection h = refl
same_type_eq connection key h = cc
same_type_eq key connection h = cc
same_type_eq key key h = refl

same_type_refl : (t : RevocationType) → same_type t t ≡ true
same_type_refl connection = refl
same_type_refl key = refl

-- the inserted revocation is found, and no other one is lost
pub any-insert_revoke :
    (t : RevocationType) (id : String) (r : Revocation) (rows : List Revocation)
    → any (same_revocation t id) (insert_revoke r rows)
      ≡ (same_revocation t id r || any (same_revocation t id) rows)
unfolding insert_revoke
any-insert_revoke t id r [] = refl
any-insert_revoke t id r (s ∷ rows) = elim (Bool-cases (same_revocation r.type r.id s)) [
  | inl same ↦ ground (arith, same_type_eq s.type r.type, string_eq.agrees_iff s.id r.id)
  | inr other ↦ ground (arith, any-insert_revoke t id r rows)
]

pub perform_keeps :
    (parse_date : String → Option ℕ) (c : Call) (t : RevocationType) (id : String) (g : Registry)
    → is_revoked t id g ≡ true
    → is_revoked t id (perform parse_date c g) ≡ true
unfolding perform create_connection update_status revoke_connection touch_last_message record_spend
    record_revocation is_revoked
perform_keeps parse_date (create now input) t id g h = ground arith
perform_keeps parse_date (update i s) t id g h = ground arith
perform_keeps parse_date (revoke now i reason) t id g h = ground (
  arith,
  any-insert_revoke t id
      (record { type = connection; id = i; revoked_at = now; reason = some reason }) g.revocations,
)
perform_keeps parse_date (touch at i) t id g h = ground arith
perform_keeps parse_date (charge at i (pos n)) t id g h = ground arith
perform_keeps parse_date (charge at i (negsuc n)) t id g h = h
perform_keeps parse_date (note r) t id g h =
    rw (any-insert_revoke t id r g.revocations) (ground arith)

-- A revoked connection or key is still revoked after any sequence of calls, also after one that
-- sets the connection's status back to active.
pub perform_all_keeps_revoked :
    (parse_date : String → Option ℕ) (cs : List Call) (t : RevocationType) (id : String)
    (g : Registry)
    → is_revoked t id g ≡ true
    → is_revoked t id (perform_all parse_date cs g) ≡ true
unfolding perform_all
perform_all_keeps_revoked parse_date [] t id g h = h
perform_all_keeps_revoked parse_date (c ∷ cs) t id g h =
    perform_all_keeps_revoked parse_date cs t id (perform parse_date c g)
      (perform_keeps parse_date c t id g h)

find-update_conn :
    (f : ConnectionRecord → ConnectionRecord) (id i : String) (rows : List ConnectionRecord)
    → ((r : ConnectionRecord) → (f r).connection_id ≡ r.connection_id)
    → select_conn i (update_conn f id rows)
      ≡ (elim (select_conn i rows) [ none ↦ none | some r ↦ some (if id == i then f r else r) ])
unfolding update_conn select_conn
find-update_conn f id i [] keeps = refl
find-update_conn f id i (r ∷ rows) keeps = ground (
  arith,
  find-update_conn f id i rows keeps,
  keeps r,
  string_eq.agrees_iff id i,
  string_eq.agrees_iff r.connection_id id,
  string_eq.agrees_iff r.connection_id i,
)

-- what `revokeConnection` leaves, and what it answers
abbrev pub Revoked : ℕ → String → String → Registry → Type 0
Revoked now id reason g =
    let (h, a) = revoke_connection now id reason g in
    (((select_conn id g.connections ≡ none) × (a ≡ failed not_found) × (h ≡ g))
      ⊎ ((r : ConnectionRecord) × (select_conn id g.connections ≡ some r)
          × (a ≡ done tt)
          × (select_conn id h.connections ≡ some (with_status revoked r))
          × (is_revoked connection id h ≡ true)
          × ((i : String)
              → (id == i) ≡ false
              → select_conn i h.connections ≡ select_conn i g.connections)))

-- Revoking a connection either finds none, answers `not_found` and changes nothing, or leaves the
-- connection with the status revoked and a revocation, every other connection as it was.
pub revoke_connection_lem : (now : ℕ) (id reason : String) (g : Registry) → Revoked now id reason g
unfolding revoke_connection is_revoked
revoke_connection_lem now id reason g = elim (Option-cases (select_conn id g.connections)) [
  | inl missing ↦ inl (missing, rw (missing, revoke_connection), rw (missing, revoke_connection))
  | inr (r, found) ↦ inr (
    r,
    found,
    rw (found, revoke_connection),
    rw (found, revoke_connection)
        (ground (
          arith,
          found,
          find-update_conn (with_status revoked) id id g.connections (λ s. refl),
          string_eq.agrees_iff id id,
        )),
    rw (found, revoke_connection)
        (ground (
          arith,
          any-insert_revoke connection id
              (record { type = connection; id = id; revoked_at = now; reason = some reason })
              g.revocations,
          string_eq.agrees_iff id id,
        )),
    λ i other.
        rw (found, revoke_connection)
          (ground (
            arith,
            find-update_conn (with_status revoked) id i g.connections (λ s. refl),
            Option-cases (select_conn i g.connections),
          )),
  )
]
