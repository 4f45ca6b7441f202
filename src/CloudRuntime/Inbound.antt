-- ===== src/CloudRuntime/Inbound.antt =====
-- Dispatch of one verified message (packages/cloud-runtime/src/dispatch.ts): the connection, the
-- guards, the decision, the quota, the audit entry, the stored row, the delivery. The policy
-- decision point is a parameter that may throw; so is whether a session's send is acknowledged.
use arp.Common.{String, Option, none, some, string_eq, if◌then◌else◌}
use arp.Text.{truthy}
use arp.Audit.{allow, deny}
use arp.Message.{Message, extract_connection_id}
use arp.CloudDb.Rows.{ConnectionRow}
use arp.CloudDb.Connections.{touch_connection}
use arp.CloudRuntime.World.{Context, Result, World, audited, log_event, set_db}
use arp.CloudRuntime.Guards.{Refusal, denied, found, refusal, resolve_connection}
use arp.CloudRuntime.Decision.{Verdict, apply_quota, decide}
use arp.CloudRuntime.Delivery.{
  deliver, denial, refusal_entry, refused, store_message, verdict_entry, ws_event,
}

-- the audit entry and the connection's last use
abbrev pub note_verdict : Context → Message → ConnectionRow → Verdict → World → World
note_verdict x msg c v w =
    set_db (touch_connection x.tenant x.now c.connection_id w.db)
      (log_event (audited x.agent_did c.connection_id (verdict_entry msg v)) w)

unfoldable pub act :
    Context → Message → String → String → ConnectionRow → Verdict → World → Result × World
unfolding store_message deliver
act x msg peer envelope c v w = elim v.decision [
  | deny ↦ (denial v, note_verdict x msg c v w)
  | allow ↦
      let noted = note_verdict x msg c v w in
      deliver x msg (ws_event x msg peer envelope c v)
        (set_db (store_message x msg peer envelope c noted.db) noted)
]

abbrev pub refuse : Context → Message → ConnectionRow → Refusal → World → World
refuse x msg c r w =
    if r.noted
    then log_event (audited x.agent_did c.connection_id (refusal_entry msg r.reason)) w
    else w

-- `none` where the decision point throws
unfoldable pub dispatch_on :
    Context → Message → String → String → ConnectionRow → World → Option Result × World
unfolding refusal decide apply_quota act
dispatch_on x msg peer envelope c w = elim (refusal x msg c w.db) [
  | some r ↦ (some (refused r.reason), refuse x msg c r w)
  | none ↦ elim (decide x msg peer c) [
    | none ↦ (none, w)
    | some v ↦
        let (result, after) = act x msg peer envelope c (apply_quota x v w.db) w in
        (some result, after)
  ]
]

unfoldable pub dispatch_verified_message :
    Context → Message → String → String → World → Option Result × World
unfolding resolve_connection dispatch_on
dispatch_verified_message x msg peer envelope w =
    elim (resolve_connection x (truthy (extract_connection_id msg)) peer w.db) [
      | denied reason ↦ (some (refused reason), w)
      | found c ↦ dispatch_on x msg peer envelope c w
    ]
