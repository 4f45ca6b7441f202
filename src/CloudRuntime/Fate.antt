-- ===== src/CloudRuntime/Fate.antt =====
-- What becomes of the row of a stored message in packages/cloud-runtime/src/dispatch.ts.
use mathlib.Core.Path.{subst}
use mathlib.Core.Option.{some-injective}
use arp.Common.{
  ℕ, ◌≡◌, refl, sym, ◌∙◌, ap, String, Bool, true, false, Option, none, some, inl, inr, List, [],
  ◌∷◌, map, ==_refl, string_eq, List-cases, if◌then◌else◌,
}
use arp.Audit.{allow}
use arp.Message.{Message}
use arp.CloudDb.Tables.{TenantId, select, select-insert, select-update_where}
use arp.CloudDb.Rows.{ConnectionRow, MessageRow, MessageStatus, queued, delivered, failed, Database}
use arp.CloudDb.Connections.{touch_connection}
use arp.CloudDb.Records.{increment_usage, of_period}
use arp.CloudDb.Messages.{
  mark_message_delivered, mark_message_failed, enqueue_message, has_id, new_row, delivered_row,
  failed_row,
}
use arp.Sessions.{get_by_agent}
use arp.CloudRuntime.World.{Context, World, Result, WsEvent}
use arp.CloudRuntime.Decision.{Verdict}
use arp.CloudRuntime.Inbound.{note_verdict, dispatch_verified_message}
use arp.CloudRuntime.Delivery.{store_message, new_message}
use arp.CloudRuntime.Outcome.{
  Outcome, quiet, thrown, noted, turned_down, permitted, Delivery, to_session, after_failure,
  without_session, Elsewhere, to_sender, to_runtime, to_queue,
}
use arp.CloudRuntime.Cases.{dispatch_verified_message-Outcome}

-- the rows of the database's next id
abbrev pub stored : Context → Database → List MessageRow
stored x db = select x.tenant (has_id x.row_id) db.messages

abbrev is_delivered : Option Bool → Option Bool → Bool
is_delivered (some false) none = true
is_delivered _ _ = false

-- The status of the row after a result: delivered where it says neither queued nor pushed.
abbrev pub status_after : MessageStatus → Result → MessageStatus
status_after open_ r = if is_delivered r.queued r.pushed then delivered else open_

-- The row that a result leaves: `open` is its status if nothing takes the message after the session.
abbrev Fate : Context → MessageStatus → MessageRow → Result × World → Type 0
Fate x open_ row (r, after) =
    (now_ : MessageRow) × (stored x after.db ≡ now_ ∷ [])
    × (now_.msg_id ≡ row.msg_id)
    × (now_.agent_did ≡ row.agent_did)
    × (now_.envelope_jws ≡ row.envelope_jws)
    × (now_.status ≡ status_after open_ r)

stored-delivered :
    (x : Context) (db : Database) (row : MessageRow)
    → stored x db ≡ row ∷ []
    → stored x (mark_message_delivered x.tenant x.now x.row_id db) ≡ delivered_row x.now row ∷ []
unfolding mark_message_delivered
stored-delivered x db row at =
    select-update_where x.tenant (has_id x.row_id) (delivered_row x.now) db.messages (λ r. refl)
    ∙ ap (map (delivered_row x.now)) at

Elsewhere-Fate :
    (x : Context) (msg : Message) (row : MessageRow) (w : World) (after : Result × World)
    → stored x w.db ≡ row ∷ []
    → Elsewhere x msg w after
    → Fate x row.status row after
Elsewhere-Fate x msg row w after at (to_sender thid response waits e) =
    subst (Fate x row.status row) (sym e)
      (delivered_row x.now row, stored-delivered x w.db row at, refl, refl, refl, refl)
Elsewhere-Fate x msg row w after at (to_runtime is_push e) =
    subst (Fate x row.status row) (sym e) (row, at, refl, refl, refl, refl)
Elsewhere-Fate x msg row w after at (to_queue e) =
    subst (Fate x row.status row) (sym e) (row, at, refl, refl, refl, refl)

stored-failed :
    (x : Context) (db : Database) (row : MessageRow)
    → stored x db ≡ row ∷ []
    → stored x (mark_message_failed x.tenant x.row_id "ws_send_failed" db)
      ≡ failed_row "ws_send_failed" row ∷ []
unfolding mark_message_failed
stored-failed x db row at =
    select-update_where x.tenant (has_id x.row_id) (failed_row "ws_send_failed") db.messages
      (λ r. refl)
    ∙ ap (map (failed_row "ws_send_failed")) at

-- the status that a stored message keeps when nothing takes it: queued without an open session of
-- the agent, failed where there is one, whose send failed
abbrev pub left_status : Context → MessageStatus
left_status x = elim (get_by_agent x.is_open x.agent_did x.sessions) [
  | none ↦ queued
  | some h ↦ failed
]

Delivery-Fate :
    (x : Context) (msg : Message) (event : WsEvent) (row : MessageRow) (w : World)
    (after : Result × World)
    → stored x w.db ≡ row ∷ []
    → row.status ≡ queued
    → Delivery x msg event w after
    → Fate x (left_status x) row after
Delivery-Fate x msg event row w after at new (to_session h up sent e) =
    subst (Fate x (left_status x) row) (sym e)
      (delivered_row x.now row, stored-delivered x w.db row at, refl, refl, refl, refl)
Delivery-Fate x msg event row w after at new (after_failure h up lost there) =
    rw (up, left_status)
      (Elsewhere-Fate x msg (failed_row "ws_send_failed" row) _ after (stored-failed x w.db row at)
        there)
Delivery-Fate x msg event row w after at new (without_session alone there) =
    rw (alone, left_status)
      (subst (λ (o : MessageStatus). Fate x o row after) new
        (Elsewhere-Fate x msg row w after at there))

increment_usage-messages :
    (t : TenantId) (period : String) (n m : ℕ) (db : Database)
    → (increment_usage t period n m db).messages ≡ db.messages
unfolding increment_usage
increment_usage-messages t period n m db =
    elim (List-cases (select t (of_period period) db.usage_counters)) [
      | inl none_ ↦ rw (none_, increment_usage) refl
      | inr (old, olds, some_) ↦ rw (some_, increment_usage) refl
    ]

module _ (x : Context) (msg : Message) (peer envelope : String) (w : World) where
  stored_message :
      (c : ConnectionRow) (v : Verdict)
      → stored x w.db ≡ []
      → stored x (store_message x msg peer envelope c (note_verdict x msg c v w).db)
        ≡ new_row x.row_id x.now (new_message x msg peer envelope c) ∷ []
  unfolding store_message enqueue_message touch_connection
  stored_message c v fresh =
      ap (select x.tenant (has_id x.row_id)) (
        increment_usage-messages x.tenant (x.period x.now) 1 0 (
          enqueue_message x.tenant x.row_id x.now (new_message x msg peer envelope c)
            (note_verdict x msg c v w).db))
      ∙ select-insert x.tenant (has_id x.row_id)
          (new_row x.row_id x.now (new_message x msg peer envelope c)) w.db.messages
      ∙ rw (fresh, ==_refl x.row_id) refl

  -- the row of a message that is allowed
  abbrev Kept : Result → World → Type 0
  Kept r after =
      (row : MessageRow) × (stored x after.db ≡ row ∷ [])
      × (row.msg_id ≡ msg.id)
      × (row.agent_did ≡ x.agent_did)
      × (row.envelope_jws ≡ envelope)
      × (row.status ≡ status_after (left_status x) r)

  abbrev RowIsKept : Option Result × World → Type 0
  RowIsKept (none, after) = Unit
  RowIsKept (some r, after) = r.decision ≡ allow → Kept r after

  RowIsKept-Kept :
      (after : Option Result × World) (r : Result)
      → RowIsKept after
      → after.0 ≡ some r
      → r.decision ≡ allow
      → Kept r after.1
  RowIsKept-Kept (none, after) r kept answered allowed = cc
  RowIsKept-Kept (some q, after) r kept answered allowed =
      subst (λ (p : Result). p.decision ≡ allow → Kept p after) (some-injective q r answered) kept
        allowed

  Outcome-RowIsKept :
      (after : Option Result × World)
      → stored x w.db ≡ []
      → Outcome x msg peer envelope w after
      → RowIsKept after
  Outcome-RowIsKept after fresh (quiet reason e) = subst RowIsKept (sym e) (λ h. cc)
  Outcome-RowIsKept after fresh (thrown e) = subst RowIsKept (sym e) tt
  Outcome-RowIsKept after fresh (noted c reason e) = subst RowIsKept (sym e) (λ h. cc)
  Outcome-RowIsKept after fresh (turned_down c v denies e) = subst RowIsKept (sym e) (λ h. cc)
  Outcome-RowIsKept after fresh (permitted c v d allows handed e) =
      subst RowIsKept (sym e)
        (λ h. Delivery-Fate x msg _ _ _ d (stored_message c v fresh) refl handed)

  -- A message that is allowed, where its row's id is new, is in the store exactly once, with its agent
  -- and envelope. Answered as delivered, its row is marked so. Answered as queued or pushed, the row is
  -- queued if the agent had no open session; if it had one, whose send failed, the row is marked failed.
  pub dispatch_row :
      (r : Result)
      → stored x w.db ≡ []
      → (dispatch_verified_message x msg peer envelope w).0 ≡ some r
      → r.decision ≡ allow
      → (row : MessageRow) × (stored x (dispatch_verified_message x msg peer envelope w).1.db
          ≡ row ∷ [])
        × (row.msg_id ≡ msg.id)
        × (row.agent_did ≡ x.agent_did)
        × (row.envelope_jws ≡ envelope)
        × (row.status ≡ status_after (left_status x) r)
  dispatch_row r fresh answered allowed =
      RowIsKept-Kept (dispatch_verified_message x msg peer envelope w) r
        (Outcome-RowIsKept (dispatch_verified_message x msg peer envelope w) fresh
          (dispatch_verified_message-Outcome x msg peer envelope w))
        answered allowed
