-- ===== src/CloudDb/Messages.antt =====
-- The methods of `withTenant` (packages/cloud-db/src/tenant-db.ts) on the table of messages.
use arp.Common.{
  ℕ, String, Bool, true, false, ◌&&◌, Option, none, some, List, leb, ltb, string_eq, ◌==◌, or_else,
  take, length, map,
}
use arp.Spec.{Members}
use arp.CloudDb.Tables.{TenantId, select, update_where, insert}
use arp.CloudDb.Rows.{
  MessageRow, Direction, incoming, outgoing, queued, delivered, failed, expired, is_queued,
  Database,
}
use arp.CloudDb.Order.{order_by}

-- the argument of `enqueueMessage`
pub record NewMessage : Type 0 where
  pub agent_did : String
  pub connection_id : Option String
  pub direction : Direction
  pub msg_id : String
  pub msg_type : String
  pub envelope_jws : String
  pub body : Option Members
  pub peer_did : Option String
  pub expires_at : ℕ

-- what a claim shows of a row
pub record EnqueuedMessage : Type 0 where
  pub id : String
  pub msg_id : String
  pub msg_type : String
  pub envelope_jws : String
  pub body : Option Members
  pub peer_did : Option String
  pub connection_id : Option String
  pub created_at_ms : ℕ

-- the columns that the input leaves out have their defaults
abbrev pub new_row : String → ℕ → NewMessage → MessageRow
new_row id now m = record {
  id = id;
  agent_did = m.agent_did;
  connection_id = m.connection_id;
  direction = m.direction;
  msg_id = m.msg_id;
  msg_type = m.msg_type;
  envelope_jws = m.envelope_jws;
  body = m.body;
  peer_did = m.peer_did;
  status = queued;
  failure_reason = none;
  created_at = now;
  delivered_at = none;
  expires_at = m.expires_at;
}

unfoldable pub enqueue_message : TenantId → String → ℕ → NewMessage → Database → Database
enqueue_message t id now m db = record db { messages = insert t (new_row id now m) db.messages }

abbrev pub has_id : String → MessageRow → Bool
has_id id r = r.id == id

abbrev pub delivered_row : ℕ → MessageRow → MessageRow
delivered_row now r = record r { status = delivered; delivered_at = some now }

abbrev pub failed_row : String → MessageRow → MessageRow
failed_row reason r = record r { status = failed; failure_reason = some reason }

unfoldable pub mark_message_delivered : TenantId → ℕ → String → Database → Database
mark_message_delivered t now id db = record db {
  messages = update_where t (has_id id) (delivered_row now) db.messages;
}

unfoldable pub mark_message_failed : TenantId → String → String → Database → Database
mark_message_failed t id reason db = record db {
  messages = update_where t (has_id id) (failed_row reason) db.messages;
}

abbrev pub waits_for : String → MessageRow → Bool
waits_for did r = r.agent_did == did && is_queued r.status

abbrev pub older_first : MessageRow → MessageRow → Bool
older_first r s = leb r.created_at s.created_at

abbrev pub enqueued : MessageRow → EnqueuedMessage
enqueued r = record {
  id = r.id;
  msg_id = r.msg_id;
  msg_type = r.msg_type;
  envelope_jws = r.envelope_jws;
  body = r.body;
  peer_did = r.peer_did;
  connection_id = r.connection_id;
  created_at_ms = r.created_at;
}

-- the oldest queued messages of an agent; the rows stay queued
unfoldable pub claim_queued_messages :
    TenantId → String → Option ℕ → Database → List EnqueuedMessage
claim_queued_messages t did limit db =
    map enqueued
      (take (or_else limit 100) (order_by older_first (select t (waits_for did) db.messages)))

abbrev overdue : ℕ → MessageRow → Bool
overdue now r = is_queued r.status && ltb r.expires_at now

abbrev expired_row : MessageRow → MessageRow
expired_row r = record r { status = expired }

-- answers how many messages it expired
unfoldable pub expire_old_messages : TenantId → ℕ → Database → Database × ℕ
expire_old_messages t now db = (
  record db { messages = update_where t (overdue now) expired_row db.messages },
  length (select t (overdue now) db.messages),
)

abbrev same_direction : Direction → Direction → Bool
same_direction incoming incoming = true
same_direction outgoing outgoing = true
same_direction _ _ = false

abbrev goes : Option Direction → Direction → Bool
goes none d = true
goes (some want) d = same_direction want d

unfoldable pub list_messages :
    TenantId → String → Option ℕ → Option Direction → Database → List MessageRow
list_messages t did limit direction db = take (or_else limit 100) (
    order_by (λ r s. leb s.created_at r.created_at)
      (select t (λ r. r.agent_did == did && goes direction r.direction) db.messages))
