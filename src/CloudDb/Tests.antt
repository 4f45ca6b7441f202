-- ===== src/CloudDb/Tests.antt =====
-- A database of two tenants, and the theorem at it.
use arp.Common.{◌≡◌, refl, some, List, [], ◌∷◌}
use arp.CloudDb.Tables.{TenantId}
use arp.CloudDb.Rows.{Database, connection}
use arp.CloudDb.Calls.{Write, adds_revocation, increments_usage, revoked, read, write_all}
use arp.CloudDb.Isolation.{read-write_all_others}

abbrev empty : Database
empty = record {
  tenants = [];
  agents = [];
  credentials = [];
  connections = [];
  messages = [];
  audit_entries = [];
  revocations = [];
  usage_counters = [];
  links = [];
  tickets = [];
  push_registrations = [];
  registrations = [];
}

abbrev others : List (TenantId × Write)
others =
    ("t2", adds_revocation 5 "did:web:a" connection "conn_1" (some "closed"))
    ∷ ("t3", increments_usage "2026-01" 1 0)
    ∷ []

read-write_all_others_example :
    read "t1" (revoked "did:web:a" connection "conn_1") (write_all others empty)
    ≡ read "t1" (revoked "did:web:a" connection "conn_1") empty
read-write_all_others_example =
    read-write_all_others "t1" others (revoked "did:web:a" connection "conn_1") empty
      (refl, (refl, tt))
