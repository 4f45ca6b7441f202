-- ===== src/CloudDb/Records.antt =====
-- The methods of `withTenant` (packages/cloud-db/src/tenant-db.ts) on audit rows, revocations and usage.
use arp.Common.{
  ℕ, ◌+◌, String, Bool, true, false, ◌&&◌, Option, none, some, List, [], ◌∷◌, is_some, leb, eqb,
  string_eq, ◌==◌, if◌then◌else◌, or_else, take, length,
}
use arp.Audit.{AuditEntry}
use arp.Text.{truthy}
use arp.CloudDb.Tables.{TenantId, select, update_where, insert, exists_row}
use arp.CloudDb.Rows.{AuditRow, RevocationKind, connection, key, RevocationRow, UsageRow, Database}
use arp.CloudDb.Order.{first, order_by}

-- audit rows
abbrev pub has_seq : String → String → ℕ → AuditRow → Bool
has_seq did id seq r = r.agent_did == did && r.connection_id == id && eqb r.entry.seq seq

abbrev pub of_pair : String → String → AuditRow → Bool
of_pair did id r = r.agent_did == did && r.connection_id == id

-- `uniq_audit_agent_conn_seq` holds over the rows of all tenants
unfoldable pub append_audit :
    TenantId → String → String → AuditEntry String → Database → Option Database
append_audit t did id e db =
    if exists_row (has_seq did id e.seq) db.audit_entries
    then none
    else some (record db {
      audit_entries =
          insert t (record { agent_did = did; connection_id = id; entry = e }) db.audit_entries;
    })

abbrev drop : {R : Type 0} → ℕ → List R → List R
drop ℕ.zero rs = rs
drop (ℕ.suc n) [] = []
drop (ℕ.suc n) (r ∷ rs) = drop n rs

-- the newest first, a page of them
unfoldable pub list_audit :
    TenantId → String → String → Option ℕ → Option ℕ → Database → List AuditRow
list_audit t did id limit offset db = take (or_else limit 50) (
    drop (or_else offset 0)
      (order_by (λ r s. leb s.entry.seq r.entry.seq) (select t (of_pair did id) db.audit_entries)))

unfoldable pub latest_audit : TenantId → String → String → Database → Option AuditRow
unfolding list_audit
latest_audit t did id db = first (list_audit t did id (some 1) none db)

unfoldable pub count_audit : TenantId → String → String → Database → ℕ
count_audit t did id db = length (select t (of_pair did id) db.audit_entries)

-- revocations
abbrev same_kind : RevocationKind → RevocationKind → Bool
same_kind connection connection = true
same_kind key key = true
same_kind _ _ = false

abbrev pub revokes : String → RevocationKind → String → RevocationRow → Bool
revokes did kind subject r = r.agent_did == did && same_kind r.kind kind && r.subject_id == subject

-- `onConflictDoNothing`, where the key is over the rows of all tenants
unfoldable pub add_revocation :
    TenantId → ℕ → String → RevocationKind → String → Option String → Database → Database
add_revocation t now did kind subject reason db =
    if exists_row (revokes did kind subject) db.revocations then db else record db {
      revocations =
          insert t
            (record {
              agent_did = did;
              kind = kind;
              subject_id = subject;
              revoked_at = now;
              reason = truthy reason;
            })
            db.revocations;
    }

unfoldable pub is_revoked : TenantId → String → RevocationKind → String → Database → Bool
is_revoked t did kind subject db =
    is_some (first (select t (revokes did kind subject) db.revocations))

unfoldable pub list_revocations : TenantId → String → Database → List RevocationRow
list_revocations t did db = select t (λ r. r.agent_did == did) db.revocations

-- usage
abbrev pub of_period : String → UsageRow → Bool
of_period period r = r.period == period

abbrev pub added : ℕ → ℕ → UsageRow → UsageRow
added inbound outbound r = record r {
  inbound_messages = r.inbound_messages + inbound;
  outbound_messages = r.outbound_messages + outbound;
}

-- an upsert: on a conflict of the tenant and the period the counters grow
unfoldable pub increment_usage : TenantId → String → ℕ → ℕ → Database → Database
increment_usage t period inbound outbound db =
    elim (select t (of_period period) db.usage_counters) [
      | [] ↦ record db {
        usage_counters =
            insert t
              (record { period = period; inbound_messages = inbound; outbound_messages = outbound })
              db.usage_counters;
      }
      | old ∷ olds ↦ record db {
        usage_counters =
            update_where t (of_period period) (added inbound outbound) db.usage_counters;
      }
    ]

unfoldable pub get_usage : TenantId → String → Database → Option UsageRow
get_usage t period db = first (select t (of_period period) db.usage_counters)
