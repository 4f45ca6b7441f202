-- ===== src/CloudRuntime/Outcome.antt =====
-- The ways in which a dispatch of packages/cloud-runtime/src/dispatch.ts can end, each with the
-- conditions under which it does.
use arp.Common.{
  ◌≡◌, refl, String, true, false, Option, none, some, inl, inr, Bool-cases, Option-cases, string_eq,
}
use arp.Common.JsMap.{delete}
use arp.Text.{truthy}
use arp.Audit.{allow, deny}
use arp.Message.{Message, extract_connection_id}
use arp.Sessions.{AgentSessionHandle, get_by_agent}
use arp.CloudDb.Rows.{ConnectionRow, connection, Database}
use arp.CloudDb.Records.{is_revoked}
use arp.CloudDb.Messages.{mark_message_delivered, mark_message_failed}
use arp.CloudDb.Quota.{check_quota}
use arp.CloudRuntime.Request.{is_response}
use arp.CloudRuntime.World.{
  Context, World, Result, WsEvent, offered, replied, pushes, audited, log_event, set_db,
}
use arp.CloudRuntime.Guards.{found, resolve_connection, involves, has_expired, is_stale}
use arp.CloudRuntime.Decision.{Verdict, decide, plan_of, inbound_so_far}
use arp.CloudRuntime.Delivery.{
  refused, denial, accepted, ws_event, store_message, awaited_thread, is_push_agent, push_or_queue,
  deliver_elsewhere, deliver, refusal_entry,
}
use arp.CloudRuntime.Inbound.{note_verdict}

-- What is required of a message on the connection c before it is stored or delivered: the
-- connection involves the agent, is active, unexpired and unrevoked, the message is fresh, it is a
-- response or the policy decision point allows it, and the tenant is within the quota.
pub record Permitted (x : Context) (msg : Message) (peer : String) (db : Database)
    (c : ConnectionRow) (v : Verdict) : Type 0 where
  pub resolved : resolve_connection x (truthy (extract_connection_id msg)) peer db ≡ found c
  pub is_involved : involves x.agent_did c ≡ true
  pub is_active : c.status ≡ "active"
  pub unexpired : has_expired x.now c ≡ false
  pub unrevoked : is_revoked x.tenant x.agent_did connection c.connection_id db ≡ false
  pub is_fresh : is_stale x.now msg ≡ false
  pub decided : decide x msg peer c ≡ some v
  pub allowed : v.decision ≡ allow
  pub within_quota : check_quota (plan_of x db) (inbound_so_far x db) ≡ none

-- after the session: where the message goes, and the world then
pub data Elsewhere (x : Context) (msg : Message) (w : World) (after : Result × World) : Type 0 where
  to_sender :
      (thid : String)
      → is_response msg.type ≡ true
      → awaited_thread msg w ≡ some thid
      → after ≡ (
        accepted x false none,
        set_db
            (mark_message_delivered x.tenant x.now x.row_id w.db)
            (log_event (replied thid msg) (record w { pending = delete thid w.pending })),
      )
      → Elsewhere x msg w after
  to_runtime :
      is_push_agent x w.db ≡ true
      → after ≡ (accepted x false (some true), log_event (pushes x.row_id msg) w)
      → Elsewhere x msg w after
  to_queue : after ≡ (accepted x true none, w) → Elsewhere x msg w after

pub data Delivery (x : Context) (msg : Message) (event : WsEvent) (w : World)
    (after : Result × World) : Type 0 where
  to_session :
      (h : AgentSessionHandle)
      → get_by_agent x.is_open x.agent_did x.sessions ≡ some h
      → x.send h event ≡ true
      → after ≡ (
        accepted x false none,
        set_db (mark_message_delivered x.tenant x.now x.row_id w.db) (log_event (offered event) w),
      )
      → Delivery x msg event w after
  after_failure :
      (h : AgentSessionHandle)
      → get_by_agent x.is_open x.agent_did x.sessions ≡ some h
      → x.send h event ≡ false
      → Elsewhere x msg
          (set_db
            (mark_message_failed x.tenant x.row_id "ws_send_failed" w.db)
            (log_event (offered event) w))
          after
      → Delivery x msg event w after
  without_session :
      get_by_agent x.is_open x.agent_did x.sessions ≡ none
      → Elsewhere x msg w after
      → Delivery x msg event w after

pub data Outcome (x : Context) (msg : Message) (peer envelope : String) (w : World)
    (after : Option Result × World) : Type 0 where
  -- refused without an entry, and nothing changes
  quiet :
      (reason : String) → after ≡ (some (refused reason), w) → Outcome x msg peer envelope w after
  -- the decision point throws, and nothing changes
  thrown : after ≡ (none, w) → Outcome x msg peer envelope w after
  -- refused with an entry
  noted :
      (c : ConnectionRow) (reason : String)
      → after ≡ (
        some (refused reason),
        log_event (audited x.agent_did c.connection_id (refusal_entry msg reason)) w,
      )
      → Outcome x msg peer envelope w after
  -- denied by the decision or the quota
  turned_down :
      (c : ConnectionRow) (v : Verdict)
      → v.decision ≡ deny
      → after ≡ (some (denial v), note_verdict x msg c v w)
      → Outcome x msg peer envelope w after
  -- stored and delivered
  permitted :
      (c : ConnectionRow) (v : Verdict) (delivered : Result × World)
      → Permitted x msg peer w.db c v
      → Delivery x msg
          (ws_event x msg peer envelope c v)
          (set_db
            (store_message x msg peer envelope c (note_verdict x msg c v w).db)
            (note_verdict x msg c v w))
          delivered
      → after ≡ (some delivered.0, delivered.1)
      → Outcome x msg peer envelope w after

push_or_queue-Elsewhere :
    (x : Context) (msg : Message) (w : World) → Elsewhere x msg w (push_or_queue x msg w)
unfolding push_or_queue
push_or_queue-Elsewhere x msg w = elim (Bool-cases (is_push_agent x w.db)) [
  | inl yes_ ↦ Elsewhere.to_runtime yes_ (rw (yes_, push_or_queue) refl)
  | inr no_ ↦ Elsewhere.to_queue (rw (no_, push_or_queue) refl)
]

deliver_elsewhere-Elsewhere :
    (x : Context) (msg : Message) (w : World) → Elsewhere x msg w (deliver_elsewhere x msg w)
unfolding deliver_elsewhere
deliver_elsewhere-Elsewhere x msg w = elim (Bool-cases (is_response msg.type)) [
  | inr request ↦ rw (request, deliver_elsewhere) (push_or_queue-Elsewhere x msg w)
  | inl response ↦ elim (Option-cases (awaited_thread msg w)) [
    | inl alone ↦ rw (response, alone, deliver_elsewhere) (push_or_queue-Elsewhere x msg w)
    | inr (thid, waits) ↦
        Elsewhere.to_sender thid response waits (rw (response, waits, deliver_elsewhere) refl)
  ]
]

pub deliver-Delivery :
    (x : Context) (msg : Message) (event : WsEvent) (w : World)
    → Delivery x msg event w (deliver x msg event w)
unfolding deliver
deliver-Delivery x msg event w =
    elim (Option-cases (get_by_agent x.is_open x.agent_did x.sessions)) [
      | inl alone ↦
          Delivery.without_session alone (rw (alone, deliver) (deliver_elsewhere-Elsewhere x msg w))
      | inr (h, up) ↦ elim (Bool-cases (x.send h event)) [
        | inl sent ↦ Delivery.to_session h up sent (rw (up, sent, deliver) refl)
        | inr lost ↦
            Delivery.after_failure h up lost
              (rw (up, lost, deliver) (deliver_elsewhere-Elsewhere x msg _))
      ]
    ]
