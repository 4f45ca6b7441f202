-- ===== src/CloudDb/Identity.antt =====
-- The methods of `withTenant` (packages/cloud-db/src/tenant-db.ts) on identity links, connect tickets
-- and push registrations.
use arp.Common.{
  ℕ, ◌+◌, String, Bool, not, ◌&&◌, Option, none, some, List, [], ◌∷◌, is_some, leb, keep, string_eq,
  ◌==◌, if◌then◌else◌, or_else,
}
use arp.CloudDb.Tables.{TenantId, select, update_where, delete_where, insert, exists_row}
use arp.CloudDb.Rows.{LinkRow, TicketRow, PushRow, Database}
use arp.CloudDb.Order.{first, order_by, any_row}

-- identity links
pub record NewLink : Type 0 where
  pub agent_did : String
  pub kind : String
  pub value : String
  pub label : Option String
  pub challenge : String

abbrev pub same_link : NewLink → LinkRow → Bool
same_link n r = r.agent_did == n.agent_did && r.kind == n.kind && r.value == n.value

abbrev link_row : String → ℕ → NewLink → LinkRow
link_row id now n = record {
  id = id;
  agent_did = n.agent_did;
  kind = n.kind;
  value = n.value;
  label = n.label;
  challenge = n.challenge;
  status = "pending";
  proof_json = none;
  verified_at = none;
  revoked_at = none;
  created_at = now;
}

-- the agent, the kind and the value are a key of the whole table
unfoldable pub create_link : TenantId → String → ℕ → NewLink → Database → Option Database
create_link t id now n db =
    if exists_row (same_link n) db.links
    then none
    else some (record db { links = insert t (link_row id now n) db.links })

abbrev unrevoked : LinkRow → Bool
unrevoked r = not (r.status == "revoked")

unfoldable pub list_links : TenantId → String → Bool → Database → List LinkRow
list_links t did include_revoked db =
    let rows =
      order_by (λ r s. leb r.created_at s.created_at)
        (select t (λ r. r.agent_did == did) db.links) in
    if include_revoked then rows else keep unrevoked rows

abbrev has_link_id : String → LinkRow → Bool
has_link_id id r = r.id == id

unfoldable pub get_link : TenantId → String → Database → Option LinkRow
get_link t id db = first (select t (has_link_id id) db.links)

-- `none` is a field that the patch leaves out; the time of the update is not kept
pub record LinkPatch : Type 0 where
  pub status : Option String
  pub proof_json : Option (Option String)
  pub verified_at : Option (Option ℕ)
  pub revoked_at : Option (Option ℕ)
  pub label : Option (Option String)
  pub challenge : Option String

abbrev patched_link : LinkPatch → LinkRow → LinkRow
patched_link p r = record r {
  status = or_else p.status r.status;
  proof_json = or_else p.proof_json r.proof_json;
  verified_at = or_else p.verified_at r.verified_at;
  revoked_at = or_else p.revoked_at r.revoked_at;
  label = or_else p.label r.label;
  challenge = or_else p.challenge r.challenge;
}

-- answers the row after the patch
unfoldable pub update_link : TenantId → String → LinkPatch → Database → Database × Option LinkRow
unfolding get_link
update_link t id p db =
    let after : Database = record db {
      links = update_where t (has_link_id id) (patched_link p) db.links;
    } in
    (after, get_link t id after)

-- answers whether there was one
unfoldable pub delete_link : TenantId → String → Database → Database × Bool
unfolding get_link
delete_link t id db =
    (record db { links = delete_where t (has_link_id id) db.links }, is_some (get_link t id db))

-- connect tickets, which last five minutes unless it is said
pub record NewTicket : Type 0 where
  pub agent_did : String
  pub url : String
  pub link_id : Option String
  pub ttl_ms : Option ℕ

unfoldable pub create_connect_ticket : TenantId → String → ℕ → NewTicket → Database → Database
create_connect_ticket t id now n db = record db {
  tickets =
      insert t
        (record {
          id = id;
          agent_did = n.agent_did;
          url = n.url;
          link_id = n.link_id;
          expires_at = now + or_else n.ttl_ms 300000;
        })
        db.tickets;
}

unfoldable pub get_connect_ticket : TenantId → String → Database → Option TicketRow
get_connect_ticket t id db = first (select t (λ r. r.id == id) db.tickets)

-- push registrations: one for a device token of the tenant
abbrev pub has_token : String → PushRow → Bool
has_token token r = r.device_token == token

abbrev renewed : ℕ → String → String → PushRow → PushRow
renewed now platform bundle r = record r {
  platform = platform;
  bundle_id = bundle;
  updated_at = now;
}

unfoldable pub upsert_push_registration :
    TenantId → ℕ → String → String → String → Database → Database
upsert_push_registration t now token platform bundle db =
    elim (select t (has_token token) db.push_registrations) [
      | [] ↦ record db {
        push_registrations =
            insert t
              (record {
                device_token = token;
                platform = platform;
                bundle_id = bundle;
                updated_at = now;
              })
              db.push_registrations;
      }
      | old ∷ olds ↦ record db {
        push_registrations =
            update_where t (has_token token) (renewed now platform bundle) db.push_registrations;
      }
    ]

unfoldable pub list_push_registrations : TenantId → Database → List PushRow
list_push_registrations t db =
    order_by (λ r s. leb s.updated_at r.updated_at) (select t any_row db.push_registrations)
