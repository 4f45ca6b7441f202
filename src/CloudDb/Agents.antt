-- ===== src/CloudDb/Agents.antt =====
-- The methods of `withTenant` (packages/cloud-db/src/tenant-db.ts) on tenants, agents and credentials.
-- `none` is a statement that a key refuses.
use arp.Common.{
  ℕ, String, Bool, true, false, ◌&&◌, Option, none, some, List, leb, string_eq, ◌==◌, if◌then◌else◌,
  or_else, length,
}
use arp.CloudDb.Tables.{TenantId, select, update_where, delete_where, insert, exists_row}
use arp.CloudDb.Rows.{TenantRow, AgentRow, CredentialRow, Database}
use arp.CloudDb.Order.{any_row, first, order_by}

-- tenants
unfoldable pub get_tenant : TenantId → Database → Option TenantRow
get_tenant t db = first (select t any_row db.tenants)

-- `updateTenant`: a field that is `none` in the patch is undefined there, and stays
pub record TenantPatch : Type 0 where
  pub plan : Option String
  pub connect_status : Option (Option String)

abbrev patched_tenant : TenantPatch → TenantRow → TenantRow
patched_tenant p r = record {
  plan = or_else p.plan r.plan;
  connect_status = or_else p.connect_status r.connect_status;
}

unfoldable pub update_tenant : TenantId → TenantPatch → Database → Database
update_tenant t p db = record db { tenants = update_where t any_row (patched_tenant p) db.tenants }

-- agents
abbrev pub has_did : String → AgentRow → Bool
has_did did r = r.did == did

unfoldable pub list_agents : TenantId → Database → List AgentRow
list_agents t db = select t any_row db.agents

unfoldable pub get_agent : TenantId → String → Database → Option AgentRow
get_agent t did db = first (select t (has_did did) db.agents)

-- the DID is the key of the whole table
unfoldable pub create_agent : TenantId → AgentRow → Database → Option Database
create_agent t r db =
    if exists_row (has_did r.did) db.agents
    then none
    else some (record db { agents = insert t r db.agents })

pub record AgentPatch : Type 0 where
  pub ws_session_id : Option (Option String)
  pub runtime_kind : Option String
  pub push_url : Option (Option String)

abbrev patched_agent : AgentPatch → AgentRow → AgentRow
patched_agent p r = record {
  did = r.did;
  ws_session_id = or_else p.ws_session_id r.ws_session_id;
  runtime_kind = or_else p.runtime_kind r.runtime_kind;
  push_url = or_else p.push_url r.push_url;
}

unfoldable pub update_agent : TenantId → String → AgentPatch → Database → Database
update_agent t did p db = record db {
  agents = update_where t (has_did did) (patched_agent p) db.agents;
}

unfoldable pub delete_agent : TenantId → String → Database → Database
delete_agent t did db = record db { agents = delete_where t (has_did did) db.agents }

-- credentials of agents
abbrev unrevoked : String → CredentialRow → Bool
unrevoked did r = r.agent_did == did && (elim r.revoked_at [ none ↦ true | some at ↦ false ])

unfoldable pub create_agent_credential :
    TenantId → ℕ → String → String → Option String → Database → Option Database
create_agent_credential t now did hash label db =
    if exists_row (λ (r : CredentialRow). r.token_hash == hash) db.credentials
    then none
    else some (record db {
      credentials =
          insert t
            (record {
              agent_did = did;
              token_hash = hash;
              label = label;
              created_at = now;
              revoked_at = none;
            })
            db.credentials;
    })

unfoldable pub list_agent_credentials : TenantId → String → Database → List CredentialRow
list_agent_credentials t did db =
    order_by (λ r s. leb r.created_at s.created_at) (select t (unrevoked did) db.credentials)

abbrev revoke_row : ℕ → CredentialRow → CredentialRow
revoke_row now r = record r { revoked_at = some now }

-- answers how many credentials it revoked
unfoldable pub revoke_agent_credentials : TenantId → ℕ → String → Database → Database × ℕ
revoke_agent_credentials t now did db = (
  record db { credentials = update_where t (unrevoked did) (revoke_row now) db.credentials },
  length (select t (unrevoked did) db.credentials),
)
