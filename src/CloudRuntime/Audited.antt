-- ===== src/CloudRuntime/Audited.antt =====
-- The audit entries of packages/cloud-runtime/src/dispatch.ts.
use mathlib.Core.Path.{subst}
use mathlib.Core.List.{append-nil}
use arp.Common.{
  ◌≡◌, ◌⊎◌, refl, sym, ◌∙◌, ap, String, true, false, Option, none, some, inl, inr, List, [], ◌∷◌,
  ◌++◌, All, length, string_eq,
}
use arp.Audit.{allow, EntryInput}
use arp.Message.{Message}
use arp.CloudDb.Connections.{touch_connection}
use arp.CloudDb.Messages.{mark_message_failed}
use arp.CloudRuntime.World.{
  Context, World, Result, WsEvent, Event, audited, offered, replied, pushes,
}
use arp.CloudRuntime.Delivery.{refusal_entry, verdict_entry}
use arp.CloudRuntime.Inbound.{dispatch_verified_message}
use arp.CloudRuntime.Outcome.{
  Outcome, quiet, thrown, noted, turned_down, permitted, Delivery, to_session, after_failure,
  without_session, Elsewhere, to_sender, to_runtime, to_queue,
}
use arp.CloudRuntime.Cases.{dispatch_verified_message-Outcome}

-- the entries for the audit log
abbrev pub entries : List Event → List EntryInput
entries [] = []
entries (audited did id e ∷ es) = e ∷ entries es
entries (offered e ∷ es) = entries es
entries (replied thid msg ∷ es) = entries es
entries (pushes id msg ∷ es) = entries es

entries-append : (es fs : List Event) → entries (es ++ fs) ≡ entries es ++ entries fs
entries-append [] fs = refl
entries-append (audited did id e ∷ es) fs = ap (λ r. e ∷ r) (entries-append es fs)
entries-append (offered e ∷ es) fs = entries-append es fs
entries-append (replied thid msg ∷ es) fs = entries-append es fs
entries-append (pushes id msg ∷ es) fs = entries-append es fs

-- delivering answers a permission, and writes no entry
abbrev Permits : World → Result × World → Type 0
Permits w (r, after) =
    (r.ok ≡ true) × (r.decision ≡ allow) × (entries after.events ≡ entries w.events)

entries-offered : (e : WsEvent) (es : List Event) → entries (es ++ offered e ∷ []) ≡ entries es
entries-offered e es = entries-append es (offered e ∷ []) ∙ append-nil (entries es)

Elsewhere-Permits :
    (x : Context) (msg : Message) (w : World) (after : Result × World)
    → Elsewhere x msg w after
    → Permits w after
Elsewhere-Permits x msg w after (to_sender thid response waits e) =
    subst (Permits w) (sym e)
      (refl, refl, entries-append w.events (replied thid msg ∷ []) ∙ append-nil (entries w.events))
Elsewhere-Permits x msg w after (to_runtime is_push e) =
    subst (Permits w) (sym e) (
      refl,
      refl,
      entries-append w.events (pushes x.row_id msg ∷ []) ∙ append-nil (entries w.events),
    )
Elsewhere-Permits x msg w after (to_queue e) = subst (Permits w) (sym e) (refl, refl, refl)

Delivery-Permits :
    (x : Context) (msg : Message) (event : WsEvent) (w : World) (after : Result × World)
    → Delivery x msg event w after
    → Permits w after
unfolding mark_message_failed
Delivery-Permits x msg event w after (to_session h up sent e) =
    subst (Permits w) (sym e) (refl, refl, entries-offered event w.events)
Delivery-Permits x msg event w after (after_failure h up lost there) =
    let (ok, allowed, same) = Elsewhere-Permits x msg _ after there in
    (ok, allowed, same ∙ entries-offered event w.events)
Delivery-Permits x msg event w after (without_session alone there) =
    Elsewhere-Permits x msg w after there

module _ (x : Context) (msg : Message) (peer envelope : String) (w : World) where
  -- the entry says what the sender is told, of this message
  abbrev Agrees : Option Result → EntryInput → Type 0
  Agrees none e = ⊥
  Agrees (some r) e = (e.decision ≡ r.decision) × (e.msg_id ≡ msg.id)

  abbrev NotDecided : Option Result → Type 0
  NotDecided none = Unit
  NotDecided (some r) = r.ok ≡ false

  abbrev pub Audits : Option Result × World → Type 0
  Audits o =
      (notes : List EntryInput) × (entries o.1.events ≡ entries w.events ++ notes)
      × All (Agrees o.0) notes
      × ((length notes ≡ 1) ⊎ ((notes ≡ []) × NotDecided o.0))

  Outcome-Audits :
      (after : Option Result × World) → Outcome x msg peer envelope w after → Audits after
  unfolding touch_connection
  Outcome-Audits after (quiet reason e) =
      subst Audits (sym e) ([], sym (append-nil _), tt, inr (refl, refl))
  Outcome-Audits after (thrown e) =
      subst Audits (sym e) ([], sym (append-nil _), tt, inr (refl, tt))
  Outcome-Audits after (noted c reason e) =
      subst Audits (sym e)
        (refusal_entry msg reason ∷ [], entries-append w.events _, ((refl, refl), tt), inl refl)
  Outcome-Audits after (turned_down c v denies e) =
      subst Audits (sym e)
        (verdict_entry msg v ∷ [], entries-append w.events _, ((denies, refl), tt), inl refl)
  Outcome-Audits after (permitted c v d allows delivered e) =
      let (ok, allowed, same) = Delivery-Permits x msg _ _ d delivered in
      subst Audits (sym e) (
        verdict_entry msg v ∷ [],
        same
            ∙ entries-append w.events
                (audited x.agent_did c.connection_id (verdict_entry msg v) ∷ []),
        ((allows.allowed ∙ sym allowed, refl), tt),
        inl refl,
      )

  -- A dispatch writes at most one audit entry; each is of this message and has the decision that
  -- the sender is told, and a message that was decided (its result is ok) has exactly one.
  pub dispatch_audited : Audits (dispatch_verified_message x msg peer envelope w)
  dispatch_audited =
      Outcome-Audits (dispatch_verified_message x msg peer envelope w)
        (dispatch_verified_message-Outcome x msg peer envelope w)
