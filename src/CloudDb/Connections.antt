-- ===== src/CloudDb/Connections.antt =====
-- The methods of `withTenant` (packages/cloud-db/src/tenant-db.ts) on connections.
use arp.Common.{
  ℕ, String, Bool, true, ◌&&◌, ◌||◌, Option, none, some, List, [], ◌∷◌, leb, string_eq, ◌==◌,
}
use arp.CloudDb.Tables.{TenantId, select, update_where, insert}
use arp.CloudDb.Rows.{ConnectionRow, Database}
use arp.CloudDb.Order.{first, order_by}

-- connections
pub record ConnectionFilter : Type 0 where
  pub agent_did : Option String
  pub status : Option String

-- a clause for a field of the filter that is given and not empty
abbrev clause : Option String → String → Bool
clause none s = true
clause (some want) s = want == "" || s == want

unfoldable pub list_connections : TenantId → ConnectionFilter → Database → List ConnectionRow
list_connections t f db =
    order_by (λ r s. leb s.created_at r.created_at)
      (select t (λ r. clause f.agent_did r.agent_did && clause f.status r.status) db.connections)

abbrev pub has_connection_id : String → ConnectionRow → Bool
has_connection_id id r = r.connection_id == id

unfoldable pub get_connection : TenantId → String → Database → Option ConnectionRow
get_connection t id db = first (select t (has_connection_id id) db.connections)

-- the key is the tenant and the id
unfoldable pub create_connection : TenantId → ConnectionRow → Database → Option Database
create_connection t r db = elim (select t (has_connection_id r.connection_id) db.connections) [
  | [] ↦ some (record db { connections = insert t r db.connections })
  | old ∷ olds ↦ none
]

abbrev with_status : String → Option String → ConnectionRow → ConnectionRow
with_status status none r = record r { status = status }
with_status status (some reason) r = record r { status = status; revoke_reason = some reason }

unfoldable pub update_connection_status :
    TenantId → String → String → Option String → Database → Database
update_connection_status t id status reason db = record db {
  connections = update_where t (has_connection_id id) (with_status status reason) db.connections;
}

abbrev pub touched : ℕ → ConnectionRow → ConnectionRow
touched now r = record r { last_message_at = some now }

unfoldable pub touch_connection : TenantId → ℕ → String → Database → Database
touch_connection t now id db = record db {
  connections = update_where t (has_connection_id id) (touched now) db.connections;
}
