-- ===== src/CloudRuntime/Tests.antt =====
-- An agent with one connection and one session, a message to it, and the theorems at them.
use arp.Common.{
  ℕ, ◌+◌, ◌≤◌, ◌≡◌, refl, String, Bool, true, false, Option, none, some, List, [], ◌∷◌, string_eq,
  arith, map, keep,
}
use arp.Spec.{str, end, member}
use arp.Audit.{allow}
use arp.Message.{Message}
use arp.Runtime.{EvaluateInput, PdpDecision}
use arp.Sessions.{AgentSessionHandle, add, get_by_agent}
use arp.CloudDb.Rows.{Database, ConnectionRow, MessageRow, queued, incoming}
use arp.CloudDb.Quota.{plan_limits}
use arp.CloudDb.Isolation.{view}
use arp.CloudRuntime.World.{Context, World}
use arp.CloudRuntime.Inbound.{dispatch_verified_message}
use arp.CloudRuntime.Delivery.{accepted}
use arp.CloudRuntime.Envelope.{Services, dispatch_inbound}
use arp.CloudDb.Messages.{claim_queued_messages}
use arp.CloudRuntime.Queue.{drain_times}
use arp.CloudRuntime.Oldest.{OldestFirst, SameRows}
use arp.CloudRuntime.Drained.{drain_queue_lem, waiting, Drains}
use arp.CloudRuntime.Emptied.{drain_times_empties, was_sent}
use arp.CloudDb.Rows.{MessageRow}
use arp.Common.{All}
use arp.CloudRuntime.Effects.{dispatch-OnlyPermitted, OnlyPermitted}
use arp.CloudRuntime.Audited.{dispatch_audited, Audits}
use arp.CloudRuntime.Tenancy.{dispatch-view_other}
use arp.CloudRuntime.Usage.{Arrival, dispatch_all, dispatch_all_bounded, count}
use arp.CloudRuntime.Fate.{dispatch_row, stored}
use arp.CloudRuntime.Signed.{dispatch_inbound_signed, OnlySigned}

abbrev conn : ConnectionRow
conn = record {
  connection_id = "conn_1";
  agent_did = "did:web:alice";
  peer_did = "did:web:bob";
  purpose = none;
  token_issuer = "did:web:bob";
  cedar_policies = "permit" ∷ [];
  obligations = [];
  status = "active";
  revoke_reason = none;
  created_at = 1;
  expires_at = some 9000;
  last_message_at = none;
}

abbrev waits : MessageRow
waits = record {
  id = "row0";
  agent_did = "did:web:alice";
  connection_id = some "conn_1";
  direction = incoming;
  msg_id = "m0";
  msg_type = "https://didcomm.org/arp/1.0/request";
  envelope_jws = "h.p.s";
  body = none;
  peer_did = some "did:web:bob";
  status = queued;
  failure_reason = none;
  created_at = 5;
  delivered_at = none;
  expires_at = 9000;
}

abbrev db : Database
db = record {
  tenants = record { tenant_id = "t1"; row = record { plan = "free"; connect_status = none } } ∷ [];
  agents = [];
  credentials = [];
  connections = record { tenant_id = "t1"; row = conn } ∷ [];
  messages = record { tenant_id = "t1"; row = waits } ∷ [];
  audit_entries = [];
  revocations = [];
  usage_counters = [];
  links = [];
  tickets = [];
  push_registrations = [];
  registrations = [];
}

abbrev before : World
before = record { db = db; pending = []; events = [] }

abbrev session : AgentSessionHandle
session = record { session_id = "s1"; did = "did:web:alice"; tenant_id = "t1" }

abbrev allow_all : EvaluateInput → Option PdpDecision
allow_all i =
    some
      (record { decision = allow; obligations = []; policies_fired = "policy0" ∷ []; reasons = [] })

abbrev context : Bool → Context
context open_ = record {
  tenant = "t1";
  agent_did = "did:web:alice";
  now = 2000;
  actions = [];
  evaluate = allow_all;
  sessions = add session (record { by_session = []; by_agent = [] });
  is_open = λ h. open_;
  send = λ h e. true;
  push = false;
  period = λ now. "2026-01";
  decimal = λ n. "0";
  row_id = "row1";
}

abbrev hello : Message
hello = record {
  id = "m1";
  type = "https://didcomm.org/arp/1.0/request";
  thid = none;
  created_time = some 2;
  body = some (member "text" (str "hi") end);
}

is_delivered :
    (dispatch_verified_message (context true) hello "did:web:bob" "h.p.s" before).0
    ≡ some (accepted (context true) false none)
unfolding dispatch_verified_message arp.Message.extract_connection_id
    arp.CloudDb.Connections.list_connections arp.CloudDb.Order.order_by arp.CloudDb.Tables.select
    arp.CloudDb.Records.is_revoked arp.Text.ends_with arp.CloudDb.Quota.check_quota
    arp.CloudDb.Agents.get_tenant arp.CloudDb.Records.get_usage get_by_agent arp.Common.JsMap.get
    add arp.Common.JsMap.set
is_delivered = refl

is_queued :
    (dispatch_verified_message (context false) hello "did:web:bob" "h.p.s" before).0
    ≡ some (accepted (context false) true none)
unfolding dispatch_verified_message arp.Message.extract_connection_id
    arp.CloudDb.Connections.list_connections arp.CloudDb.Order.order_by arp.CloudDb.Tables.select
    arp.CloudDb.Records.is_revoked arp.Text.ends_with arp.CloudDb.Quota.check_quota
    arp.CloudDb.Agents.get_tenant arp.CloudDb.Records.get_usage get_by_agent arp.Common.JsMap.get
    add arp.Common.JsMap.set arp.CloudDb.Records.increment_usage
    arp.CloudDb.Messages.enqueue_message arp.CloudDb.Connections.touch_connection
    arp.CloudDb.Tables.insert arp.CloudDb.Tables.update_where
    arp.CloudRuntime.Delivery.is_push_agent arp.CloudDb.Agents.get_agent
is_queued = refl

dispatch-OnlyPermitted_example :
    OnlyPermitted
      (context true)
      hello
      "did:web:bob"
      "h.p.s"
      before
      (dispatch_verified_message (context true) hello "did:web:bob" "h.p.s" before)
dispatch-OnlyPermitted_example =
    dispatch-OnlyPermitted (context true) hello "did:web:bob" "h.p.s" before

dispatch_audited_example :
    Audits
      (context true)
      hello
      "did:web:bob"
      "h.p.s"
      before
      (dispatch_verified_message (context true) hello "did:web:bob" "h.p.s" before)
dispatch_audited_example = dispatch_audited (context true) hello "did:web:bob" "h.p.s" before

dispatch-view_other_example :
    view "t2" (dispatch_verified_message (context true) hello "did:web:bob" "h.p.s" before).1.db
    ≡ view "t2" db
dispatch-view_other_example =
    dispatch-view_other (context true) "t2" hello "did:web:bob" "h.p.s" before refl

abbrev arrivals : List Arrival
arrivals =
    record { x = context true; msg = hello; peer = "did:web:bob"; envelope = "h.p.s" }
    ∷ record { x = context false; msg = hello; peer = "did:web:bob"; envelope = "h.p.s" }
    ∷ []

dispatch_all_bounded_example : count "t1" "2026-01" (dispatch_all arrivals before).db ≤ 10000
unfolding arp.CloudDb.Agents.get_tenant arp.CloudDb.Records.get_usage arp.CloudDb.Tables.select
dispatch_all_bounded_example =
    dispatch_all_bounded "t1" "2026-01" arrivals before 10000 ((refl, refl), ((refl, refl), tt))
      (_, refl, refl) (omega arith)

dispatch_row_example :
    (row : MessageRow) × (stored
        (context false)
        (dispatch_verified_message (context false) hello "did:web:bob" "h.p.s" before).1.db
      ≡ row ∷ [])
    × (row.msg_id ≡ "m1")
    × (row.agent_did ≡ "did:web:alice")
    × (row.envelope_jws ≡ "h.p.s")
    × (row.status ≡ queued)
unfolding get_by_agent arp.Common.JsMap.get add arp.Common.JsMap.set arp.CloudDb.Tables.select
dispatch_row_example =
    dispatch_row (context false) hello "did:web:bob" "h.p.s" before
      (accepted (context false) true none) refl is_queued refl

drain_queue_lem_example :
    (rows : List MessageRow) × OldestFirst rows
    × SameRows rows (waiting "t1" "did:web:alice" db)
    × Drains (context true) session db rows
unfolding get_by_agent arp.Common.JsMap.get add arp.Common.JsMap.set
drain_queue_lem_example = drain_queue_lem (context true) session db refl

drain_times_empties_example :
    All
      (λ (r : MessageRow). was_sent (drain_times 1 (context true) db).1 r ≡ true)
      (waiting "t1" "did:web:alice" db)
    × (waiting "t1" "did:web:alice" (drain_times 1 (context true) db).0 ≡ [])
unfolding get_by_agent arp.Common.JsMap.get add arp.Common.JsMap.set arp.CloudDb.Tables.select
drain_times_empties_example =
    drain_times_empties 1 (context true) session db refl (λ e. refl) (omega arith)

abbrev services : Services ℕ
services = record {
  header_kid = λ h. some (some "did:web:bob#key-1");
  resolve_did = λ did.
      some
        (record { type = "Ed25519VerificationKey2020"; public_key_multibase = some "z6Mk" } ∷ []);
  multibase_to_raw = λ t. some 7;
  verify_envelope = λ e k. some hello;
}

dispatch_inbound_signed_example :
    OnlySigned services
      (context true)
      "h.p.s"
      before
      (dispatch_inbound services (context true) "h.p.s" before)
dispatch_inbound_signed_example = dispatch_inbound_signed services (context true) "h.p.s" before
