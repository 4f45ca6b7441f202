-- ===== src/CloudRuntime/Tenancy.antt =====
-- Dispatch in packages/cloud-runtime/src/dispatch.ts stays within its tenant.
use mathlib.Core.Path.{subst}
use arp.Common.{◌≡◌, refl, sym, ◌∙◌, String, false, Option, ◌==◌, string_eq}
use arp.Message.{Message}
use arp.CloudDb.Tables.{TenantId}
use arp.CloudDb.Rows.{ConnectionRow, Database}
use arp.CloudDb.Connections.{touch_connection}
use arp.CloudDb.Calls.{touches, increments_usage, enqueues, marks_delivered, marks_failed, write}
use arp.CloudDb.Isolation.{view, write-view}
use arp.CloudRuntime.World.{Context, World, Result, WsEvent}
use arp.CloudRuntime.Delivery.{store_message}
use arp.CloudRuntime.Inbound.{dispatch_verified_message}
use arp.CloudRuntime.Outcome.{
  Outcome, quiet, thrown, noted, turned_down, permitted, Delivery, to_session, after_failure,
  without_session, Elsewhere, to_sender, to_runtime, to_queue,
}
use arp.CloudRuntime.Cases.{dispatch_verified_message-Outcome}

module _ (x : Context) (u : TenantId) (apart : (x.tenant == u) ≡ false) where
  -- the rows of the other tenant are as they were
  abbrev Keeps : Database → Result × World → Type 0
  Keeps db (r, after) = view u after.db ≡ view u db

  Elsewhere-Keeps :
      (msg : Message) (w : World) (after : Result × World)
      → Elsewhere x msg w after
      → Keeps w.db after
  unfolding write
  Elsewhere-Keeps msg w after (to_sender thid response waits e) =
      subst (Keeps w.db) (sym e) (write-view x.tenant u apart (marks_delivered x.now x.row_id) w.db)
  Elsewhere-Keeps msg w after (to_runtime is_push e) = subst (Keeps w.db) (sym e) refl
  Elsewhere-Keeps msg w after (to_queue e) = subst (Keeps w.db) (sym e) refl

  Delivery-Keeps :
      (msg : Message) (event : WsEvent) (w : World) (after : Result × World)
      → Delivery x msg event w after
      → Keeps w.db after
  unfolding write
  Delivery-Keeps msg event w after (to_session h up sent e) =
      subst (Keeps w.db) (sym e) (write-view x.tenant u apart (marks_delivered x.now x.row_id) w.db)
  Delivery-Keeps msg event w after (after_failure h up lost there) =
      Elsewhere-Keeps msg _ after there
      ∙ write-view x.tenant u apart (marks_failed x.row_id "ws_send_failed") w.db
  Delivery-Keeps msg event w after (without_session alone there) = Elsewhere-Keeps msg w after there

  touched_keeps :
      (id : String) (db : Database) → view u (touch_connection x.tenant x.now id db) ≡ view u db
  unfolding write
  touched_keeps id db = write-view x.tenant u apart (touches x.now id) db

  stored_keeps :
      (msg : Message) (peer envelope : String) (c : ConnectionRow) (db : Database)
      → view u (store_message x msg peer envelope c db) ≡ view u db
  unfolding store_message write
  stored_keeps msg peer envelope c db =
      write-view x.tenant u apart (increments_usage (x.period x.now) 1 0) _
      ∙ write-view x.tenant u apart (enqueues x.row_id x.now _) db

  abbrev KeepsAfter : World → Option Result × World → Type 0
  KeepsAfter w (r, after) = view u after.db ≡ view u w.db

  Outcome-Keeps :
      (msg : Message) (peer envelope : String) (w : World) (after : Option Result × World)
      → Outcome x msg peer envelope w after
      → KeepsAfter w after
  Outcome-Keeps msg peer envelope w after (quiet reason e) = subst (KeepsAfter w) (sym e) refl
  Outcome-Keeps msg peer envelope w after (thrown e) = subst (KeepsAfter w) (sym e) refl
  Outcome-Keeps msg peer envelope w after (noted c reason e) = subst (KeepsAfter w) (sym e) refl
  Outcome-Keeps msg peer envelope w after (turned_down c v denies e) =
      subst (KeepsAfter w) (sym e) (touched_keeps c.connection_id w.db)
  Outcome-Keeps msg peer envelope w after (permitted c v d allows delivered e) =
      subst (KeepsAfter w) (sym e) (
        Delivery-Keeps msg _ _ d delivered
        ∙ stored_keeps msg peer envelope c _
        ∙ touched_keeps c.connection_id w.db)

-- Dispatching a message for one tenant's agent leaves every row of every other tenant as it was.
pub dispatch-view_other :
    (x : Context) (u : TenantId) (msg : Message) (peer envelope : String) (w : World)
    → (x.tenant == u) ≡ false
    → view u (dispatch_verified_message x msg peer envelope w).1.db ≡ view u w.db
dispatch-view_other x u msg peer envelope w apart =
    Outcome-Keeps x u apart msg peer envelope w (dispatch_verified_message x msg peer envelope w)
      (dispatch_verified_message-Outcome x msg peer envelope w)
