-- ===== src/CloudRuntime/Queue.antt =====
-- The queue of an agent's messages (packages/cloud-runtime/src/dispatch.ts, drainQueue): once a
-- session is open, the oldest queued messages go to it until a send fails.
use arp.Common.{ℕ, zero, suc, Bool, true, false, none, some, List, [], ◌∷◌, ◌++◌}
use arp.Audit.{allow}
use arp.Sessions.{get_by_agent}
use arp.CloudDb.Tables.{TenantId}
use arp.CloudDb.Rows.{Database}
use arp.CloudDb.Messages.{EnqueuedMessage, claim_queued_messages, mark_message_delivered}
use arp.CloudRuntime.World.{Context, WsEvent}

abbrev pub queued_event : EnqueuedMessage → WsEvent
queued_event m = record {
  message_id = m.id;
  msg_id = m.msg_id;
  msg_type = m.msg_type;
  envelope = m.envelope_jws;
  connection_id = m.connection_id;
  peer_did = m.peer_did;
  decision = allow;
  obligations = [];
  policies_fired = [];
}

-- The loop over the claimed messages: the database, the events that were acknowledged, their count.
module _ (t : TenantId) (now : ℕ) (send : WsEvent → Bool) where
  unfoldable pub drain_loop : List EnqueuedMessage → Database → Database × List WsEvent
  drain_loop [] db = (db, [])
  drain_loop (m ∷ ms) db = elim (send (queued_event m)) [
    | false ↦ (db, [])
    | true ↦
        let (after, sent) = drain_loop ms (mark_message_delivered t now m.id db) in
        (after, queued_event m ∷ sent)
  ]

-- the database after it and the acknowledged events, as many as drainQueue answers
unfoldable pub drain_queue : Context → Database → Database × List WsEvent
unfolding drain_loop
drain_queue x db = elim (get_by_agent x.is_open x.agent_did x.sessions) [
  | none ↦ (db, [])
  | some h ↦
      drain_loop x.tenant x.now (x.send h)
        (claim_queued_messages x.tenant x.agent_did (some 500) db) db
]

-- draining again and again: the database after it, and all acknowledged events
unfoldable pub drain_times : ℕ → Context → Database → Database × List WsEvent
unfolding drain_queue
drain_times zero x db = (db, [])
drain_times (suc n) x db =
    let (after, sent) = drain_queue x db in
    let (last, more) = drain_times n x after in (last, sent ++ more)
