-- ===== src/CloudRuntime/Drained.antt =====
-- The queue of packages/cloud-runtime/src/dispatch.ts: what draining sends, what it leaves queued.
use arp.CloudRuntime.Oldest.{OldestFirst, SameRows, order_by-OldestFirst, length-keep-order_by}
use arp.Common.{
  ℕ, ◌≡◌, refl, ap, sym, ◌∙◌, String, Bool, true, not, ◌&&◌, some, List, [], ◌∷◌, map, take, keep,
  string_eq, ◌==◌, if◌then◌else◌, inl, inr, Bool-cases, arith,
}
use arp.Sessions.{AgentSessionHandle, get_by_agent}
use arp.CloudDb.Tables.{TenantId, Table, select, update_where}
use arp.CloudDb.Rows.{MessageRow, Database}
use arp.CloudDb.Order.{order_by}
use arp.CloudDb.Messages.{
  EnqueuedMessage, claim_queued_messages, mark_message_delivered, waits_for, has_id, delivered_row,
  enqueued, older_first,
}
use arp.CloudRuntime.World.{Context, WsEvent}
use arp.CloudRuntime.Queue.{queued_event, drain_loop, drain_queue}

-- the queued messages of an agent
abbrev pub waiting : TenantId → String → Database → List MessageRow
waiting t did db = select t (waits_for did) db.messages

-- the messages before the first one whose send fails
abbrev pub acknowledged : (WsEvent → Bool) → List EnqueuedMessage → List EnqueuedMessage
acknowledged send [] = []
acknowledged send (m ∷ ms) =
    let rest = acknowledged send ms in if send (queued_event m) then m ∷ rest else []

-- a row that is none of these messages
abbrev pub is_other : List EnqueuedMessage → MessageRow → Bool
is_other [] r = true
is_other (m ∷ ms) r = not (r.id == m.id) && is_other ms r

pub keep_all : {A : Type 0} (xs : List A) → xs ≡ keep (λ (x : A). true) xs
keep_all [] = refl
keep_all (x ∷ xs) = ap (λ r. x ∷ r) (keep_all xs)

-- whether a row is one of these messages
abbrev pub is_among : List EnqueuedMessage → MessageRow → Bool
is_among ms r = not (is_other ms r)

is_other-delivered :
    (now : ℕ) (ms : List EnqueuedMessage) (r : MessageRow)
    → is_other ms (delivered_row now r) ≡ is_other ms r
is_other-delivered now [] r = refl
is_other-delivered now (m ∷ ms) r = ground (arith, is_other-delivered now ms r)

-- marking one message and then others is marking all of them
mark-mark :
    (t : TenantId) (now : ℕ) (m : EnqueuedMessage) (ms : List EnqueuedMessage)
    (rows : Table MessageRow)
    → update_where t
        (is_among ms)
        (delivered_row now)
        (update_where t (has_id m.id) (delivered_row now) rows)
      ≡ update_where t (is_among (m ∷ ms)) (delivered_row now) rows
unfolding update_where
mark-mark t now m ms [] = refl
mark-mark t now m ms (o ∷ rows) =
    ground (arith, mark-mark t now m ms rows, is_other-delivered now ms o.row)

mark_none :
    (t : TenantId) (now : ℕ) (rows : Table MessageRow)
    → update_where t (is_among []) (delivered_row now) rows ≡ rows
unfolding update_where
mark_none t now [] = refl
mark_none t now (o ∷ rows) = ground (arith, mark_none t now rows)

-- the database after these messages of the tenant, and no other row, were marked delivered
abbrev pub marked : TenantId → ℕ → List EnqueuedMessage → Database → Database
marked t now ms db = record db {
  messages = update_where t (is_among ms) (delivered_row now) db.messages;
}

-- marked messages leave the queue
waiting-marked :
    (t : TenantId) (did : String) (now : ℕ) (ms : List EnqueuedMessage) (rows : Table MessageRow)
    → select t (waits_for did) (update_where t (is_among ms) (delivered_row now) rows)
      ≡ keep (is_other ms) (select t (waits_for did) rows)
unfolding select update_where
waiting-marked t did now ms [] = refl
waiting-marked t did now ms (o ∷ rows) = ground (arith, waiting-marked t did now ms rows)

drain_loop_lem :
    (t : TenantId) (now : ℕ) (send : WsEvent → Bool) (ms : List EnqueuedMessage) (db : Database)
    → ((drain_loop t now send ms db).1 ≡ map queued_event (acknowledged send ms))
      × ((drain_loop t now send ms db).0 ≡ marked t now (acknowledged send ms) db)
unfolding drain_loop mark_message_delivered
drain_loop_lem t now send [] db =
    (refl, ap (λ rows. record db { messages = rows }) (sym (mark_none t now db.messages)))
drain_loop_lem t now send (m ∷ ms) db = elim (Bool-cases (send (queued_event m))) [
  | inr failed ↦
      rw (failed, drain_loop)
        (refl, ap (λ rows. record db { messages = rows }) (sym (mark_none t now db.messages)))
  | inl sent ↦
      let (events, left) = drain_loop_lem t now send ms (mark_message_delivered t now m.id db) in
      rw (sent, drain_loop)
        (
          ap (λ r. queued_event m ∷ r) events,
          left
              ∙ ap (λ rows. record db { messages = rows })
                  (mark-mark t now m (acknowledged send ms) db.messages),
        )
]

-- what one drain sends and leaves, with the rows that wait in some order
abbrev pub Drains : Context → AgentSessionHandle → Database → List MessageRow → Type 0
Drains x h db rows =
    let sent = acknowledged (x.send h) (map enqueued (take 500 rows)) in
    ((drain_queue x db).1 ≡ map queued_event sent)
    × ((drain_queue x db).0 ≡ marked x.tenant x.now sent db)
    × (waiting x.tenant x.agent_did (drain_queue x db).0
        ≡ keep (is_other sent) (waiting x.tenant x.agent_did db))

pub drain_queue-Drains :
    (x : Context) (h : AgentSessionHandle) (db : Database)
    → get_by_agent x.is_open x.agent_did x.sessions ≡ some h
    → Drains x h db (order_by older_first (waiting x.tenant x.agent_did db))
unfolding drain_queue claim_queued_messages
drain_queue-Drains x h db up =
    let claims = map enqueued (take 500 (order_by older_first (waiting x.tenant x.agent_did db))) in
    let (events, after) = drain_loop_lem x.tenant x.now (x.send h) claims db in
    rw (up, drain_queue)
      (
        events,
        after,
        ap (waiting x.tenant x.agent_did) after
            ∙ waiting-marked x.tenant x.agent_did x.now (acknowledged (x.send h) claims)
                db.messages,
      )

-- A drain sends the oldest 500 of the agent's queued messages, the oldest first, up to the first
-- that fails. Exactly the messages sent are marked delivered, and nothing else of the database
-- changes; all others of the agent's, the one that failed included, are still queued.
pub drain_queue_lem :
    (x : Context) (h : AgentSessionHandle) (db : Database)
    → get_by_agent x.is_open x.agent_did x.sessions ≡ some h
    → (rows : List MessageRow) × OldestFirst rows
      × SameRows rows (waiting x.tenant x.agent_did db)
      × Drains x h db rows
drain_queue_lem x h db up =
    let rows = waiting x.tenant x.agent_did db in
    let (events, after, left) = drain_queue-Drains x h db up in
    (
      order_by older_first rows,
      order_by-OldestFirst rows,
      (λ p. length-keep-order_by p rows),
      (events, after, left),
    )
