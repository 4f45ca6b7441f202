-- ===== src/CloudRuntime/Emptied.antt =====
-- Draining the queue of packages/cloud-runtime/src/dispatch.ts again and again sends every message.
use mathlib.Core.Path.{subst}
use arp.CloudRuntime.Oldest.{length-keep-order_by}
use arp.Common.{
  ◌++◌, any, ℕ, zero, suc, ◌-◌, ◌*◌, ◌≤◌, ◌≡◌, refl, ap, sym, ◌∙◌, String, Bool, true, false, some,
  List, [], ◌∷◌, map, take, keep, length, length-keep, All, string_eq, ◌==◌, inl, inr, Bool-cases,
  arith,
}
use arp.Sessions.{AgentSessionHandle, get_by_agent}
use arp.CloudDb.Tables.{TenantId}
use arp.CloudDb.Rows.{MessageRow, Database}
use arp.CloudDb.Order.{order_by}
use arp.CloudDb.Messages.{EnqueuedMessage, enqueued, older_first}
use arp.CloudRuntime.World.{Context, WsEvent}
use arp.CloudRuntime.Queue.{queued_event, drain_queue, drain_times}
use arp.CloudRuntime.Drained.{waiting, acknowledged, is_other, drain_queue-Drains, keep_all}

-- every send of the session is acknowledged
abbrev pub Acknowledges : (WsEvent → Bool) → Type 0
Acknowledges send = (e : WsEvent) → send e ≡ true

acknowledged_all :
    (send : WsEvent → Bool) (ms : List EnqueuedMessage)
    → Acknowledges send
    → acknowledged send ms ≡ ms
acknowledged_all send [] all = refl
acknowledged_all send (m ∷ ms) all = rw all (ap (λ r. m ∷ r) (acknowledged_all send ms all))

module _ (p : MessageRow → Bool) where
  -- of a list whose first n elements fail the test, at most the others pass it
  length-keep_rest :
      (n : ℕ) (rs : List MessageRow)
      → All (λ r. p r ≡ false) (take n rs)
      → length (keep p rs) ≤ length rs - n
  length-keep_rest zero rs h = omega (arith, length-keep p rs)
  length-keep_rest (suc n) [] h = omega arith
  length-keep_rest (suc n) (r ∷ rs) (fails, h) = ground (arith, length-keep_rest n rs h)

is_other_later :
    (m : EnqueuedMessage) (ms : List EnqueuedMessage) (rs : List MessageRow)
    → All (λ r. is_other ms r ≡ false) rs
    → All (λ r. is_other (m ∷ ms) r ≡ false) rs
is_other_later m ms [] h = tt
is_other_later m ms (r ∷ rs) (fails, h) = (ground arith, is_other_later m ms rs h)

claimed_not_other : (rs : List MessageRow) → All (λ r. is_other (map enqueued rs) r ≡ false) rs
claimed_not_other [] = tt
claimed_not_other (r ∷ rs) = (
  ground (arith, string_eq.agrees_iff r.id r.id),
  is_other_later (enqueued r) (map enqueued rs) rs (claimed_not_other rs),
)

length-order_by : (rs : List MessageRow) → length (order_by older_first rs) ≡ length rs
length-order_by rs =
    ap length (keep_all (order_by older_first rs))
    ∙ length-keep-order_by (λ r. true) rs
    ∙ ap length (sym (keep_all rs))

-- what a drain leaves queued, where all it claims is acknowledged
abbrev claimed : TenantId → String → Database → List EnqueuedMessage
claimed t did db = map enqueued (take 500 (order_by older_first (waiting t did db)))

drain_queue_all :
    (x : Context) (h : AgentSessionHandle) (db : Database)
    → get_by_agent x.is_open x.agent_did x.sessions ≡ some h
    → Acknowledges (x.send h)
    → ((drain_queue x db).1 ≡ map queued_event (claimed x.tenant x.agent_did db))
      × (waiting x.tenant x.agent_did (drain_queue x db).0
          ≡ keep (is_other (claimed x.tenant x.agent_did db)) (waiting x.tenant x.agent_did db))
drain_queue_all x h db up all =
    let (events, after, left) = drain_queue-Drains x h db up in
    let same = acknowledged_all (x.send h) (claimed x.tenant x.agent_did db) all in
    (
      events ∙ ap (map queued_event) same,
      left ∙ ap (λ ms. keep (is_other ms) (waiting x.tenant x.agent_did db)) same,
    )

drain_queue_progress :
    (x : Context) (h : AgentSessionHandle) (db : Database)
    → get_by_agent x.is_open x.agent_did x.sessions ≡ some h
    → Acknowledges (x.send h)
    → length (waiting x.tenant x.agent_did (drain_queue x db).0)
      ≤ length (waiting x.tenant x.agent_did db) - 500
drain_queue_progress x h db up all =
    let rows = waiting x.tenant x.agent_did db in
    let claims = claimed x.tenant x.agent_did db in
    rw (drain_queue_all x h db up all).1 (
      omega (
        arith,
        length-keep_rest (is_other claims) 500 (order_by older_first rows)
            (claimed_not_other (take 500 (order_by older_first rows))),
        length-keep-order_by (is_other claims) rows,
        length-order_by rows,
      ))

no_rows : (rs : List MessageRow) → length rs ≤ 0 → rs ≡ []
no_rows [] h = refl
no_rows (r ∷ rs) h = absurd (omega arith)

-- whether a row's message is among the events
abbrev pub was_sent : List WsEvent → MessageRow → Bool
was_sent es r = any (λ e. e.message_id == r.id) es

was_sent_first :
    (es fs : List WsEvent) (r : MessageRow) → was_sent es r ≡ true → was_sent (es ++ fs) r ≡ true
was_sent_first (e ∷ es) fs r h = ground (arith, was_sent_first es fs r)
was_sent_first [] fs r h = cc

was_sent_later :
    (es fs : List WsEvent) (r : MessageRow) → was_sent fs r ≡ true → was_sent (es ++ fs) r ≡ true
was_sent_later [] fs r h = h
was_sent_later (e ∷ es) fs r h = ground (arith, was_sent_later es fs r h)

was_sent_claimed :
    (ms : List EnqueuedMessage) (r : MessageRow)
    → is_other ms r ≡ false
    → was_sent (map queued_event ms) r ≡ true
was_sent_claimed [] r h = cc
was_sent_claimed (m ∷ ms) r h =
    ground
      (arith, was_sent_claimed ms r, string_eq.agrees_iff r.id m.id, string_eq.agrees_iff m.id r.id)

-- rows that are claimed are sent now, the others later
sent_now_or_later :
    (ms : List EnqueuedMessage) (later : List WsEvent) (rs : List MessageRow)
    → All (λ r. was_sent later r ≡ true) (keep (is_other ms) rs)
    → All (λ r. was_sent (map queued_event ms ++ later) r ≡ true) rs
sent_now_or_later ms later [] h = tt
sent_now_or_later ms later (r ∷ rs) h = elim (Bool-cases (is_other ms r)) [
  | inl other ↦
      let (this, rest) = rw other at h in
      (was_sent_later (map queued_event ms) later r this, sent_now_or_later ms later rs rest)
  | inr mine ↦ (
    was_sent_first (map queued_event ms) later r (was_sent_claimed ms r mine),
    sent_now_or_later ms later rs (rw mine at h),
  )
]

-- While the agent's session is open and acknowledges what it is sent, n drains send every message
-- that was queued for the agent, if there were at most 500 n, and none of them stays queued.
pub drain_times_empties :
    (n : ℕ) (x : Context) (h : AgentSessionHandle) (db : Database)
    → get_by_agent x.is_open x.agent_did x.sessions ≡ some h
    → Acknowledges (x.send h)
    → length (waiting x.tenant x.agent_did db) ≤ 500 * n
    → All (λ r. was_sent (drain_times n x db).1 r ≡ true) (waiting x.tenant x.agent_did db)
      × (waiting x.tenant x.agent_did (drain_times n x db).0 ≡ [])
unfolding drain_times
drain_times_empties zero x h db up all few =
    let empty = no_rows (waiting x.tenant x.agent_did db) few in
    (subst (All (λ r. was_sent [] r ≡ true)) (sym empty) tt, empty)
drain_times_empties (suc n) x h db up all few =
    let (events, left) = drain_queue_all x h db up all in
    let (sent, empty) =
      drain_times_empties n x h (drain_queue x db).0 up all
        (omega (arith, drain_queue_progress x h db up all)) in
    (
      rw events (
          sent_now_or_later (claimed x.tenant x.agent_did db)
            (drain_times n x (drain_queue x db).0).1 (waiting x.tenant x.agent_did db)
            (subst (All (λ r. was_sent (drain_times n x (drain_queue x db).0).1 r ≡ true)) left
              sent)),
      empty,
    )
