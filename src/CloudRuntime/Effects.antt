-- ===== src/CloudRuntime/Effects.antt =====
-- What a dispatch of packages/cloud-runtime/src/dispatch.ts does with a message that is not permitted.
use mathlib.Core.Path.{subst}
use mathlib.Core.List.{append-nil}
use arp.Common.{
  ◌≡◌, ◌⊎◌, refl, sym, ◌∙◌, ap, String, Option, none, some, inl, inr, List, [], ◌∷◌, ◌++◌,
  string_eq,
}
use arp.Audit.{deny, EntryInput}
use arp.Message.{Message}
use arp.CloudDb.Rows.{ConnectionRow}
use arp.CloudDb.Connections.{touch_connection}
use arp.CloudRuntime.World.{
  Context, World, Result, Event, audited, offered, replied, pushes, log_event,
}
use arp.CloudRuntime.Decision.{Verdict}
use arp.CloudRuntime.Inbound.{note_verdict, dispatch_verified_message}
use arp.CloudRuntime.Delivery.{refusal_entry, verdict_entry}
use arp.CloudRuntime.Outcome.{Permitted, Outcome, quiet, thrown, noted, turned_down, permitted}
use arp.CloudRuntime.Cases.{dispatch_verified_message-Outcome}

-- the events that hand the message on
abbrev pub handed_on : List Event → List Event
handed_on [] = []
handed_on (audited did id e ∷ es) = handed_on es
handed_on (offered e ∷ es) = offered e ∷ handed_on es
handed_on (replied thid msg ∷ es) = replied thid msg ∷ handed_on es
handed_on (pushes id msg ∷ es) = pushes id msg ∷ handed_on es

handed_on-append : (es fs : List Event) → handed_on (es ++ fs) ≡ handed_on es ++ handed_on fs
handed_on-append [] fs = refl
handed_on-append (audited did id e ∷ es) fs = handed_on-append es fs
handed_on-append (offered e ∷ es) fs = ap (λ r. offered e ∷ r) (handed_on-append es fs)
handed_on-append (replied thid msg ∷ es) fs =
    ap (λ r. replied thid msg ∷ r) (handed_on-append es fs)
handed_on-append (pushes id msg ∷ es) fs = ap (λ r. pushes id msg ∷ r) (handed_on-append es fs)

-- the result, if there is one, is a denial
abbrev pub NotAllowed : Option Result → Type 0
NotAllowed none = Unit
NotAllowed (some r) = r.decision ≡ deny

-- the message has left no trace but perhaps an audit entry and the connection's last use
pub record IsUntouched (w after : World) : Type 0 where
  pub messages_kept : after.db.messages ≡ w.db.messages
  pub usage_kept : after.db.usage_counters ≡ w.db.usage_counters
  pub pending_kept : after.pending ≡ w.pending
  pub not_handed_on : handed_on after.events ≡ handed_on w.events

pub same-IsUntouched : (w : World) → IsUntouched w w
same-IsUntouched w = record {
  messages_kept = refl;
  usage_kept = refl;
  pending_kept = refl;
  not_handed_on = refl;
}

audited-IsUntouched :
    (did id : String) (e : EntryInput) (w : World) → IsUntouched w (log_event (audited did id e) w)
audited-IsUntouched did id e w = record {
  messages_kept = refl;
  usage_kept = refl;
  pending_kept = refl;
  not_handed_on =
      handed_on-append w.events (audited did id e ∷ []) ∙ append-nil (handed_on w.events);
}

note_verdict-IsUntouched :
    (x : Context) (msg : Message) (c : ConnectionRow) (v : Verdict) (w : World)
    → IsUntouched w (note_verdict x msg c v w)
unfolding touch_connection
note_verdict-IsUntouched x msg c v w = record {
  messages_kept = refl;
  usage_kept = refl;
  pending_kept = refl;
  not_handed_on =
      handed_on-append w.events (audited x.agent_did c.connection_id (verdict_entry msg v) ∷ [])
      ∙ append-nil (handed_on w.events);
}

module _ (x : Context) (msg : Message) (peer envelope : String) (w : World) where
  abbrev pub OnlyPermitted : Option Result × World → Type 0
  OnlyPermitted o =
      ((c : ConnectionRow) × (v : Verdict) × Permitted x msg peer w.db c v)
      ⊎ (NotAllowed o.0 × IsUntouched w o.1)

  Outcome-OnlyPermitted :
      (after : Option Result × World) → Outcome x msg peer envelope w after → OnlyPermitted after
  Outcome-OnlyPermitted after (quiet reason e) =
      subst OnlyPermitted (sym e) (inr (refl, same-IsUntouched w))
  Outcome-OnlyPermitted after (thrown e) =
      subst OnlyPermitted (sym e) (inr (tt, same-IsUntouched w))
  Outcome-OnlyPermitted after (noted c reason e) =
      subst OnlyPermitted (sym e)
        (inr (refl, audited-IsUntouched x.agent_did c.connection_id (refusal_entry msg reason) w))
  Outcome-OnlyPermitted after (turned_down c v denies e) =
      subst OnlyPermitted (sym e) (inr (refl, note_verdict-IsUntouched x msg c v w))
  Outcome-OnlyPermitted after (permitted c v d allows delivered e) =
      subst OnlyPermitted (sym e) (inl (c, v, allows))

  -- Unless the message is permitted (its connection involves the agent, is active, neither expired nor
  -- revoked, the message is fresh, a response or allowed by the decision point, and the tenant within
  -- its quota), the answer is no permission, no message is stored, counted or handed to a session, a
  -- waiting sender or a push runtime, and no waiting sender is dropped.
  pub dispatch-OnlyPermitted : OnlyPermitted (dispatch_verified_message x msg peer envelope w)
  dispatch-OnlyPermitted =
      Outcome-OnlyPermitted (dispatch_verified_message x msg peer envelope w)
        (dispatch_verified_message-Outcome x msg peer envelope w)
