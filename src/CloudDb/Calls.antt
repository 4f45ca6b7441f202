-- ===== src/CloudDb/Calls.antt =====
-- The methods of `withTenant` (packages/cloud-db/src/tenant-db.ts) as calls, writing and reading,
-- which tenants make in some order.
use arp.Common.{ℕ, String, Bool, Option, none, some, List, [], ◌∷◌, or_else, string_eq}
use arp.Audit.{AuditEntry}
use arp.CloudDb.Tables.{TenantId}
use arp.CloudDb.Rows.{
  TenantRow, AgentRow, CredentialRow, ConnectionRow, MessageRow, Direction, AuditRow,
  RevocationKind, RevocationRow, UsageRow, LinkRow, TicketRow, PushRow, RegistrationRow, Database,
}
use arp.CloudDb.Agents.{
  TenantPatch, AgentPatch, get_tenant, update_tenant, list_agents, get_agent, create_agent,
  update_agent, delete_agent, create_agent_credential, list_agent_credentials,
  revoke_agent_credentials,
}
use arp.CloudDb.Connections.{
  ConnectionFilter, list_connections, get_connection, create_connection, update_connection_status,
  touch_connection,
}
use arp.CloudDb.Records.{
  append_audit, list_audit, latest_audit, count_audit, add_revocation, is_revoked, list_revocations,
  increment_usage, get_usage,
}
use arp.CloudDb.Identity.{
  NewLink, LinkPatch, NewTicket, create_link, list_links, get_link, update_link, delete_link,
  create_connect_ticket, get_connect_ticket, upsert_push_registration, list_push_registrations,
}
use arp.CloudDb.Registrations.{
  NewRegistration, RegistrationPatch, create_registration, get_registration,
  get_registration_by_domain, list_registrations, update_registration,
}
use arp.CloudDb.Messages.{
  NewMessage, EnqueuedMessage, enqueue_message, mark_message_delivered, mark_message_failed,
  claim_queued_messages, expire_old_messages, list_messages,
}

-- the methods that write
pub data Write : Type 0 where
  updates_tenant : TenantPatch → Write
  creates_agent : AgentRow → Write
  updates_agent : String → AgentPatch → Write
  deletes_agent : String → Write
  creates_credential : ℕ → String → String → Option String → Write
  revokes_credentials : ℕ → String → Write
  creates_connection : ConnectionRow → Write
  updates_status : String → String → Option String → Write
  touches : ℕ → String → Write
  enqueues : String → ℕ → NewMessage → Write
  marks_delivered : ℕ → String → Write
  marks_failed : String → String → Write
  expires : ℕ → Write
  appends_audit : String → String → AuditEntry String → Write
  adds_revocation : ℕ → String → RevocationKind → String → Option String → Write
  increments_usage : String → ℕ → ℕ → Write
  creates_link : String → ℕ → NewLink → Write
  updates_link : String → LinkPatch → Write
  deletes_link : String → Write
  creates_ticket : String → ℕ → NewTicket → Write
  registers_push : ℕ → String → String → String → Write
  registers : (String → String) → String → ℕ → NewRegistration → Write
  updates_registration : String → RegistrationPatch → Write

abbrev kept : {A : Type 0} → Database → Option (Database × A) → Database
kept db none = db
kept db (some (after, a)) = after

-- A statement that a key refuses throws, and changes nothing.
unfoldable pub write : TenantId → Write → Database → Database
write t (updates_tenant p) db = update_tenant t p db
write t (creates_agent r) db = or_else (create_agent t r db) db
write t (updates_agent did p) db = update_agent t did p db
write t (deletes_agent did) db = delete_agent t did db
write t (creates_credential now did hash label) db =
    or_else (create_agent_credential t now did hash label db) db
write t (revokes_credentials now did) db = (revoke_agent_credentials t now did db).0
write t (creates_connection r) db = or_else (create_connection t r db) db
write t (updates_status id status reason) db = update_connection_status t id status reason db
write t (touches now id) db = touch_connection t now id db
write t (enqueues id now m) db = enqueue_message t id now m db
write t (marks_delivered now id) db = mark_message_delivered t now id db
write t (marks_failed id reason) db = mark_message_failed t id reason db
write t (expires now) db = (expire_old_messages t now db).0
write t (appends_audit did id e) db = or_else (append_audit t did id e db) db
write t (adds_revocation now did kind subject reason) db =
    add_revocation t now did kind subject reason db
write t (increments_usage period inbound outbound) db = increment_usage t period inbound outbound db
write t (creates_link id now n) db = or_else (create_link t id now n db) db
write t (updates_link id p) db = (update_link t id p db).0
write t (deletes_link id) db = (delete_link t id db).0
write t (creates_ticket id now n) db = create_connect_ticket t id now n db
write t (registers_push now token platform bundle) db =
    upsert_push_registration t now token platform bundle db
write t (registers lower id now n) db = or_else (create_registration lower t id now n db) db
write t (updates_registration id p) db = kept db (update_registration t id p db)

-- the methods that read, and what they answer
pub data Query : Type 0 where
  tenant_row : Query
  agents_of : Query
  agent : String → Query
  credentials_of : String → Query
  connections_of : ConnectionFilter → Query
  connection_row : String → Query
  claims : String → Option ℕ → Query
  messages_of : String → Option ℕ → Option Direction → Query
  audit_page : String → String → Option ℕ → Option ℕ → Query
  latest : String → String → Query
  audit_count : String → String → Query
  revoked : String → RevocationKind → String → Query
  revocations_of : String → Query
  usage : String → Query
  links_of : String → Bool → Query
  link : String → Query
  ticket : String → Query
  pushes_of : Query
  registration : String → Query
  registration_by_domain : (String → String) → String → Query
  registrations_of : Query

pub data Answer : Type 0 where
  tenant_answer : Option TenantRow → Answer
  agents_answer : List AgentRow → Answer
  agent_answer : Option AgentRow → Answer
  credentials_answer : List CredentialRow → Answer
  connections_answer : List ConnectionRow → Answer
  connection_answer : Option ConnectionRow → Answer
  claimed : List EnqueuedMessage → Answer
  messages_answer : List MessageRow → Answer
  audit_answer : List AuditRow → Answer
  latest_answer : Option AuditRow → Answer
  count_answer : ℕ → Answer
  revoked_answer : Bool → Answer
  revocations_answer : List RevocationRow → Answer
  usage_answer : Option UsageRow → Answer
  links_answer : List LinkRow → Answer
  link_answer : Option LinkRow → Answer
  ticket_answer : Option TicketRow → Answer
  pushes_answer : List PushRow → Answer
  registration_answer : Option RegistrationRow → Answer
  registrations_answer : List RegistrationRow → Answer

unfoldable pub read : TenantId → Query → Database → Answer
read t tenant_row db = tenant_answer (get_tenant t db)
read t agents_of db = agents_answer (list_agents t db)
read t (agent did) db = agent_answer (get_agent t did db)
read t (credentials_of did) db = credentials_answer (list_agent_credentials t did db)
read t (connections_of f) db = connections_answer (list_connections t f db)
read t (connection_row id) db = connection_answer (get_connection t id db)
read t (claims did limit) db = claimed (claim_queued_messages t did limit db)
read t (messages_of did limit d) db = messages_answer (list_messages t did limit d db)
read t (audit_page did id limit offset) db = audit_answer (list_audit t did id limit offset db)
read t (latest did id) db = latest_answer (latest_audit t did id db)
read t (audit_count did id) db = count_answer (count_audit t did id db)
read t (revoked did kind subject) db = revoked_answer (is_revoked t did kind subject db)
read t (revocations_of did) db = revocations_answer (list_revocations t did db)
read t (usage period) db = usage_answer (get_usage t period db)
read t (links_of did all) db = links_answer (list_links t did all db)
read t (link id) db = link_answer (get_link t id db)
read t (ticket id) db = ticket_answer (get_connect_ticket t id db)
read t pushes_of db = pushes_answer (list_push_registrations t db)
read t (registration id) db = registration_answer (get_registration t id db)
read t (registration_by_domain lower domain) db =
    registration_answer (get_registration_by_domain lower t domain db)
read t registrations_of db = registrations_answer (list_registrations t db)

-- calls, each by the tenant that makes it
unfoldable pub write_all : List (TenantId × Write) → Database → Database
write_all [] db = db
write_all ((t, c) ∷ cs) db = write_all cs (write t c db)
