-- ===== src/Registry/Tests.antt =====
-- A registry with one connection, calls of it, and the theorems at them.
use arp.Common.{
  ℕ, ◌≡◌, refl, String, Bool, true, false, ◌&&◌, Option, none, some, List, [], ◌∷◌, string_eq,
}
use arp.Spec.{ConnectionToken}
use arp.Common.{any, if◌then◌else◌}
use arp.Registry.{
  unreadable, unreadable_token, done, active, connection, invalid_input, ConnectionRecord, Registry,
  failed, CreateConnectionInput, ConnectionFilter, Call, create, update, revoke, charge, pos,
  negsuc, create_connection, revoke_connection, get_spend_window, sum_spend, record_spend,
  select_conn, update_status, update_conn, upsert_spend, insert_revoke, is_revoked, perform,
  perform_all, list_connections,
}
use arp.Registry.Invariant.{IsRegistry}
use arp.Registry.Keeps.{perform_all-IsRegistry}
use arp.Registry.Revoked.{Revoked, revoke_connection_lem, perform_all_keeps_revoked}
use arp.Registry.Spend.{Charged, record_spend_lem}
use arp.Registry.Lookup.{Created, create_connection_lem}
use arp.Registry.Listing.{count, shown, NewestFirst, list_connections_lem}

abbrev token : ConnectionToken
token = record {
  connection_id = "conn_1";
  issuer = "did:web:bob";
  subject = "did:web:alice";
  audience = "did:web:bob";
  purpose = "notes";
  cedar_policies = "permit" ∷ [];
  obligations = [];
  scope_catalog_version = "v1";
  expires = "2030-01-01T00:00:00Z";
  sigs = [];
  replaces = none;
}

abbrev input : CreateConnectionInput
input = record {
  token = token;
  token_jws = some token;
  label = none;
  self_did = "did:web:alice";
  metadata = none;
}

abbrev parse_date : String → Option ℕ
parse_date s = some 5000

abbrev opened : Registry
opened = record { connections = []; spend = []; revocations = [] }

abbrev one : Registry
one = (create_connection parse_date 1000 input opened).0

abbrev gone : Registry
gone = (revoke_connection 2000 "conn_1" "closed" one).0

abbrev calls : List Call
calls =
    create 1000 input
    ∷ charge 3000 "conn_1" (pos 25)
    ∷ revoke 4000 "conn_1" "closed"
    ∷ update "conn_1" active
    ∷ charge 5000 "conn_2" (pos 1)
    ∷ []

runs : get_spend_window 4000 "conn_1" 60 (perform_all parse_date calls opened) ≡ 25
unfolding perform_all perform get_spend_window sum_spend record_spend select_conn update_status
    revoke_connection create_connection update_conn upsert_spend
runs = refl

gone_revoked : is_revoked connection "conn_1" gone ≡ true
unfolding revoke_connection create_connection is_revoked select_conn insert_revoke
gone_revoked = refl

opened-IsRegistry : IsRegistry opened
opened-IsRegistry = record { connections = tt; spend = tt; revocations = tt; spend_known = tt }

perform_all-IsRegistry_example : IsRegistry (perform_all parse_date calls opened)
perform_all-IsRegistry_example = perform_all-IsRegistry parse_date calls opened opened-IsRegistry

perform_all_keeps_revoked_example :
    is_revoked connection "conn_1" (perform_all parse_date calls gone) ≡ true
perform_all_keeps_revoked_example =
    perform_all_keeps_revoked parse_date calls connection "conn_1" gone gone_revoked

revoke_connection_lem_example : Revoked 2000 "conn_1" "closed" one
revoke_connection_lem_example = revoke_connection_lem 2000 "conn_1" "closed" one

record_spend_lem_example :
    Charged 3000 "conn_1" 25 one
    × ((n : ℕ) → record_spend 3000 "conn_1" (negsuc n) one ≡ (one, failed invalid_input))
record_spend_lem_example = record_spend_lem 3000 "conn_1" 25 one

create_connection_lem_example : Created parse_date 1000 (record input { token_jws = none }) opened
create_connection_lem_example =
    create_connection_lem parse_date 1000 (record input { token_jws = none }) opened

abbrev everything : ConnectionFilter
everything = record { peer_did = none; status = none; include_expired = false }

list_connections_lem_example :
    (rows : List ConnectionRecord) × ((p : ConnectionRecord → Bool)
      → count p rows ≡ count (λ r. p r && shown 6000 everything r) one.connections)
    × NewestFirst rows
    × (list_connections 6000 everything one
        ≡ (if any unreadable rows then failed unreadable_token else done rows))
list_connections_lem_example = list_connections_lem 6000 everything one
