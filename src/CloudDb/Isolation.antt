-- ===== src/CloudDb/Isolation.antt =====
-- Tenants of packages/cloud-db/src/tenant-db.ts do not see each other: what the methods of one
-- tenant write does not change what the methods of another read.
use arp.Common.{
  ◌≡◌, refl, ap, sym, ◌∙◌, false, List, [], ◌∷◌, string_eq, ◌==◌, inl, inr, Bool-cases, List-cases,
}
use arp.CloudDb.Tables.{
  TenantId, select, exists_row, own, own-insert_other, own-update_where_other,
  own-delete_where_other, select-own,
}
use arp.CloudDb.Rows.{CredentialRow, Database}
use arp.CloudDb.Agents.{
  get_tenant, update_tenant, list_agents, get_agent, create_agent, update_agent, delete_agent,
  create_agent_credential, list_agent_credentials, revoke_agent_credentials, has_did,
}
use arp.CloudDb.Connections.{
  list_connections, get_connection, create_connection, update_connection_status, touch_connection,
  has_connection_id,
}
use arp.CloudDb.Records.{
  append_audit, list_audit, latest_audit, count_audit, add_revocation, is_revoked, list_revocations,
  increment_usage, get_usage, of_period, revokes, has_seq,
}
use arp.CloudDb.Identity.{
  same_link, has_token, create_link, list_links, get_link, update_link, delete_link,
  create_connect_ticket, get_connect_ticket, upsert_push_registration, list_push_registrations,
}
use arp.CloudDb.Registrations.{
  has_session, session_clash, create_registration, get_registration, get_registration_by_domain,
  list_registrations, update_registration,
}
use arp.CloudDb.Calls.{
  registers, updates_registration, registration, registration_by_domain, registrations_of,
  creates_link, updates_link, deletes_link, creates_ticket, registers_push, links_of, link, ticket,
  pushes_of, Write, updates_tenant, creates_agent, updates_agent, deletes_agent, creates_credential,
  revokes_credentials, creates_connection, updates_status, touches, enqueues, marks_delivered,
  marks_failed, expires, appends_audit, adds_revocation, increments_usage, write, Query, tenant_row,
  agents_of, agent, credentials_of, connections_of, connection_row, claims, messages_of, audit_page,
  latest, audit_count, revoked, revocations_of, usage, read, write_all,
}
use arp.CloudDb.Messages.{
  enqueue_message, mark_message_delivered, mark_message_failed, claim_queued_messages,
  expire_old_messages, list_messages,
}

-- the database of one tenant's rows
abbrev pub view : TenantId → Database → Database
view t db = record {
  tenants = own t db.tenants;
  agents = own t db.agents;
  credentials = own t db.credentials;
  connections = own t db.connections;
  messages = own t db.messages;
  audit_entries = own t db.audit_entries;
  revocations = own t db.revocations;
  usage_counters = own t db.usage_counters;
  links = own t db.links;
  tickets = own t db.tickets;
  push_registrations = own t db.push_registrations;
  registrations = own t db.registrations;
}

-- A query depends on the tenant's own rows alone.
read-view : (t : TenantId) (q : Query) (db : Database) → read t q (view t db) ≡ read t q db
unfolding read get_tenant list_agents get_agent list_agent_credentials list_connections
    get_connection claim_queued_messages list_messages list_audit latest_audit count_audit
    is_revoked list_revocations get_usage list_links get_link get_connect_ticket
    list_push_registrations get_registration get_registration_by_domain list_registrations
read-view t tenant_row db = rw select-own refl
read-view t agents_of db = rw select-own refl
read-view t (agent did) db = rw select-own refl
read-view t (credentials_of did) db = rw select-own refl
read-view t (connections_of f) db = rw select-own refl
read-view t (connection_row id) db = rw select-own refl
read-view t (claims did limit) db = rw select-own refl
read-view t (messages_of did limit d) db = rw select-own refl
read-view t (audit_page did id limit offset) db = rw select-own refl
read-view t (latest did id) db = rw select-own refl
read-view t (audit_count did id) db = rw select-own refl
read-view t (revoked did kind subject) db = rw select-own refl
read-view t (revocations_of did) db = rw select-own refl
read-view t (usage period) db = rw select-own refl
read-view t (links_of did all) db = rw select-own refl
read-view t (link id) db = rw select-own refl
read-view t (ticket id) db = rw select-own refl
read-view t pushes_of db = rw select-own refl
read-view t (registration id) db = rw select-own refl
read-view t (registration_by_domain lower domain) db = rw select-own refl
read-view t registrations_of db = rw select-own refl

module _ (t u : TenantId) (apart : (t == u) ≡ false) where
  -- A method of one tenant leaves the rows of another as they are.
  pub write-view : (c : Write) (db : Database) → view u (write t c db) ≡ view u db
  unfolding write update_tenant create_agent update_agent delete_agent create_agent_credential
      revoke_agent_credentials create_connection update_connection_status touch_connection
      enqueue_message mark_message_delivered mark_message_failed expire_old_messages append_audit
      add_revocation increment_usage create_link update_link delete_link create_connect_ticket
      upsert_push_registration create_registration update_registration
  write-view (updates_tenant p) db = rw (own-update_where_other t u _ _ _ apart) refl
  write-view (creates_agent r) db = elim (Bool-cases (exists_row (has_did r.did) db.agents)) [
    | inl taken ↦ rw taken refl
    | inr free ↦ rw free (rw (own-insert_other t u _ _ apart) refl)
  ]
  write-view (updates_agent did p) db = rw (own-update_where_other t u _ _ _ apart) refl
  write-view (deletes_agent did) db = rw (own-delete_where_other t u _ _ apart) refl
  write-view (creates_credential now did hash label) db =
      elim (Bool-cases (exists_row (λ (x : CredentialRow). x.token_hash == hash) db.credentials)) [
        | inl taken ↦ rw taken refl
        | inr free ↦ rw free (rw (own-insert_other t u _ _ apart) refl)
      ]
  write-view (revokes_credentials now did) db = rw (own-update_where_other t u _ _ _ apart) refl
  write-view (creates_connection r) db =
      elim (List-cases (select t (has_connection_id r.connection_id) db.connections)) [
        | inl free ↦ rw (free, create_connection) (rw (own-insert_other t u _ _ apart) refl)
        | inr (old, olds, at) ↦ rw (at, create_connection) refl
      ]
  write-view (updates_status id status reason) db = rw (own-update_where_other t u _ _ _ apart) refl
  write-view (touches now id) db = rw (own-update_where_other t u _ _ _ apart) refl
  write-view (enqueues id now m) db = rw (own-insert_other t u _ _ apart) refl
  write-view (marks_delivered now id) db = rw (own-update_where_other t u _ _ _ apart) refl
  write-view (marks_failed id reason) db = rw (own-update_where_other t u _ _ _ apart) refl
  write-view (expires now) db = rw (own-update_where_other t u _ _ _ apart) refl
  write-view (appends_audit did id e) db =
      elim (Bool-cases (exists_row (has_seq did id e.seq) db.audit_entries)) [
        | inl taken ↦ rw taken refl
        | inr free ↦ rw free (rw (own-insert_other t u _ _ apart) refl)
      ]
  write-view (adds_revocation now did kind subject reason) db =
      elim (Bool-cases (exists_row (revokes did kind subject) db.revocations)) [
        | inl there ↦ rw there refl
        | inr free ↦ rw free (rw (own-insert_other t u _ _ apart) refl)
      ]
  write-view (increments_usage period inbound outbound) db =
      elim (List-cases (select t (of_period period) db.usage_counters)) [
        | inl free ↦ rw (free, increment_usage) (rw (own-insert_other t u _ _ apart) refl)
        | inr (old, olds, at) ↦
            rw (at, increment_usage) (rw (own-update_where_other t u _ _ _ apart) refl)
      ]
  write-view (creates_link id now n) db = elim (Bool-cases (exists_row (same_link n) db.links)) [
    | inl taken ↦ rw taken refl
    | inr free ↦ rw free (rw (own-insert_other t u _ _ apart) refl)
  ]
  write-view (updates_link id p) db = rw (own-update_where_other t u _ _ _ apart) refl
  write-view (deletes_link id) db = rw (own-delete_where_other t u _ _ apart) refl
  write-view (creates_ticket id now n) db = rw (own-insert_other t u _ _ apart) refl
  write-view (registers_push now token platform bundle) db =
      elim (List-cases (select t (has_token token) db.push_registrations)) [
        | inl free ↦ rw (free, upsert_push_registration) (rw (own-insert_other t u _ _ apart) refl)
        | inr (old, olds, at) ↦
            rw (at, upsert_push_registration) (rw (own-update_where_other t u _ _ _ apart) refl)
      ]
  write-view (registers lower id now n) db =
      elim (Bool-cases (exists_row (has_session n.checkout_session) db.registrations)) [
        | inl taken ↦ rw taken refl
        | inr free ↦ rw free (rw (own-insert_other t u _ _ apart) refl)
      ]
  write-view (updates_registration id p) db = elim (Bool-cases (session_clash t id p db)) [
    | inl clash ↦ rw clash refl
    | inr free ↦ rw free (rw (own-update_where_other t u _ _ _ apart) refl)
  ]

-- none of the calls is by the tenant
abbrev pub ByOthers : TenantId → List (TenantId × Write) → Type 0
ByOthers u [] = Unit
ByOthers u ((t, c) ∷ cs) = ((t == u) ≡ false) × ByOthers u cs

write_all-view :
    (u : TenantId) (cs : List (TenantId × Write)) (db : Database)
    → ByOthers u cs
    → view u (write_all cs db) ≡ view u db
unfolding write_all
write_all-view u [] db others = refl
write_all-view u ((t, c) ∷ cs) db (apart, others) =
    write_all-view u cs (write t c db) others ∙ write-view t u apart c db

pub read-write_all_others :
    (u : TenantId) (cs : List (TenantId × Write)) (q : Query) (db : Database)
    → ByOthers u cs
    → read u q (write_all cs db) ≡ read u q db
read-write_all_others u cs q db others =
    sym (read-view u q (write_all cs db))
    ∙ ap (read u q) (write_all-view u cs db others)
    ∙ read-view u q db
