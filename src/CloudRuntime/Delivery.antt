-- ===== src/CloudRuntime/Delivery.antt =====
-- The row of an allowed message and its delivery (packages/cloud-runtime/src/dispatch.ts), with the
-- audit entries and the results.
use arp.Common.{
  ◌+◌, String, Bool, true, false, ◌&&◌, Option, none, some, is_some, List, [], ◌∷◌, string_eq, ◌==◌,
  if◌then◌else◌,
}
use arp.Common.JsMap.{has, delete}
use arp.Text.{starts_with, truthy, concat, join}
use arp.Audit.{allow, deny, EntryInput}
use arp.Message.{Message}
use arp.Sessions.{get_by_agent}
use arp.CloudDb.Rows.{ConnectionRow, incoming, Database}
use arp.CloudDb.Agents.{get_agent}
use arp.CloudDb.Records.{increment_usage}
use arp.CloudDb.Messages.{NewMessage, enqueue_message, mark_message_delivered, mark_message_failed}
use arp.CloudRuntime.Request.{is_response}
use arp.CloudRuntime.World.{
  Context, Result, World, WsEvent, log_event, offered, pushes, replied, set_db,
}
use arp.CloudRuntime.Decision.{Verdict}

abbrev joined : List String → Option String
joined [] = none
joined (r ∷ rs) = some (join "; " (r ∷ rs))

abbrev pub refusal_entry : Message → String → EntryInput
refusal_entry msg reason = record {
  msg_id = msg.id;
  decision = deny;
  policies_fired = [];
  obligations = none;
  spend_delta_cents = none;
  reason = some reason;
  timestamp = none;
}

abbrev pub verdict_entry : Message → Verdict → EntryInput
verdict_entry msg v = record {
  msg_id = msg.id;
  decision = v.decision;
  policies_fired = v.policies_fired;
  obligations = some v.obligations;
  spend_delta_cents = none;
  reason = joined v.reasons;
  timestamp = none;
}

abbrev pub refused : String → Result
refused reason = record {
  ok = false;
  message_id = none;
  decision = deny;
  reason = some reason;
  queued = none;
  pushed = none;
}

-- `reasons[0]?.startsWith('quota_exceeded') ?? false`
abbrev over_quota : List String → Bool
over_quota [] = false
over_quota (r ∷ rs) = starts_with "quota_exceeded" r

abbrev pub denial : Verdict → Result
denial v = record {
  ok = true;
  message_id = none;
  decision = deny;
  reason = some (if over_quota v.reasons then "quota_exceeded" else "policy_denied");
  queued = none;
  pushed = none;
}

abbrev pub accepted : Context → Bool → Option Bool → Result
accepted x queued pushed = record {
  ok = true;
  message_id = some x.row_id;
  decision = allow;
  reason = none;
  queued = some queued;
  pushed = pushed;
}

abbrev pub ws_event : Context → Message → String → String → ConnectionRow → Verdict → WsEvent
ws_event x msg peer envelope c v = record {
  message_id = x.row_id;
  msg_id = msg.id;
  msg_type = msg.type;
  envelope = envelope;
  connection_id = some c.connection_id;
  peer_did = some peer;
  decision = allow;
  obligations = v.obligations;
  policies_fired = v.policies_fired;
}

-- the argument of the row's insertion; it is kept for seven days
abbrev pub new_message : Context → Message → String → String → ConnectionRow → NewMessage
new_message x msg peer envelope c = record {
  agent_did = x.agent_did;
  connection_id = some c.connection_id;
  direction = incoming;
  msg_id = msg.id;
  msg_type = msg.type;
  envelope_jws = envelope;
  body = msg.body;
  peer_did = some peer;
  expires_at = x.now + 604800000;
}

-- the row, and the count of it
unfoldable pub store_message :
    Context → Message → String → String → ConnectionRow → Database → Database
store_message x msg peer envelope c db =
    increment_usage x.tenant (x.period x.now) 1 0
      (enqueue_message x.tenant x.row_id x.now (new_message x msg peer envelope c) db)

abbrev mark_delivered : Context → World → World
mark_delivered x w = set_db (mark_message_delivered x.tenant x.now x.row_id w.db) w

-- the thread of the message, where a sender waits for its reply (`resolvePendingReply`)
unfoldable pub awaited_thread : Message → World → Option String
awaited_thread msg w = elim (truthy msg.thid) [
  | none ↦ none
  | some thid ↦ if has thid w.pending then some thid else none
]

unfoldable pub is_push_agent : Context → Database → Bool
is_push_agent x db = elim (get_agent x.tenant x.agent_did db) [
  | none ↦ false
  | some a ↦ x.push && a.runtime_kind == "push" && is_some (truthy a.push_url)
]

-- a push runtime, or the queue
unfoldable pub push_or_queue : Context → Message → World → Result × World
push_or_queue x msg w =
    if is_push_agent x w.db
    then (accepted x false (some true), log_event (pushes x.row_id msg) w)
    else (accepted x true none, w)

-- what the answer of a push runtime does to the row once it comes; `none` is no error
unfoldable pub push_settled : Context → Option String → Database → Database
push_settled x none db = mark_message_delivered x.tenant x.now x.row_id db
push_settled x (some error) db =
    mark_message_failed x.tenant x.row_id (concat "push_failed:" error) db

-- after the session: a waiting sender, a push runtime, or the queue
unfoldable pub deliver_elsewhere : Context → Message → World → Result × World
unfolding is_response awaited_thread push_or_queue
deliver_elsewhere x msg w =
    if is_response msg.type
    then elim (awaited_thread msg w) [
      | none ↦ push_or_queue x msg w
      | some thid ↦ (
        accepted x false none,
        mark_delivered x
            (log_event (replied thid msg) (record w { pending = delete thid w.pending })),
      )
    ]
    else push_or_queue x msg w

-- a failed send marks the row and goes on
unfoldable pub deliver : Context → Message → WsEvent → World → Result × World
unfolding deliver_elsewhere
deliver x msg event w = elim (get_by_agent x.is_open x.agent_did x.sessions) [
  | none ↦ deliver_elsewhere x msg w
  | some h ↦
      if x.send h event
      then (accepted x false none, mark_delivered x (log_event (offered event) w))
      else deliver_elsewhere x msg (
          set_db (mark_message_failed x.tenant x.row_id "ws_send_failed" w.db)
            (log_event (offered event) w))
]
