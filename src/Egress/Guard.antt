-- ===== src/Egress/Guard.antt =====
-- packages/sdk/src/guard.ts: an action of a framework, run between the agent's check and its egress.
-- The check, the action and the audit log are parameters; `none` is a throw, which ends the call.
use arp.Common.{
  String, Bool, true, Option, none, some, List, [], ◌∷◌, ◌++◌, string_eq, ◌==◌, if◌then◌else◌,
  or_else,
}
use arp.Text.{join}
use arp.Spec.{Json, Obligation}
use arp.Audit.{Decision, allow, deny}
use arp.Runtime.{PdpDecision}
use arp.Egress.{Services, apply_obligations}

pub record GuardActionInput : Type 0 where
  pub connection_id : String
  pub action : String
  pub resource : Json
  pub context : Option Json
  pub audit : Option Bool

pub record AuditEvent : Type 0 where
  pub connection_id : String
  pub decision : Decision
  pub reason : Option String
  pub policies_fired : List String
  pub obligations : Option (List Obligation)

-- the agent's methods, and the outcome of the action
pub record Agent : Type 0 where
  pub services : Services
  pub check : String → String → Json → Option Json → Option PdpDecision
  pub run : Option Json
  pub audits : AuditEvent → Bool

pub data Effect : Type 0 where
  runs : Effect
  audited : AuditEvent → Effect

pub data GuardActionResult : Type 0 where
  allowed : Json → List Obligation → PdpDecision → GuardActionResult
  denied : String → PdpDecision → GuardActionResult

-- what a call has done, and what it returns
pub record Outcome : Type 0 where
  pub effects : List Effect
  pub result : Option GuardActionResult

abbrev pub reason_of : PdpDecision → String
reason_of d =
    let reasons = join "; " d.reasons in if reasons == "" then "policy_denied" else reasons

abbrev pub deny_event : GuardActionInput → PdpDecision → AuditEvent
deny_event i d = record {
  connection_id = i.connection_id;
  decision = deny;
  reason = some (reason_of d);
  policies_fired = d.policies_fired;
  obligations = none;
}

abbrev some_of : List Obligation → Option (List Obligation)
some_of [] = none
some_of (o ∷ os) = some (o ∷ os)

abbrev pub allow_event : GuardActionInput → PdpDecision → AuditEvent
allow_event i d = record {
  connection_id = i.connection_id;
  decision = allow;
  reason = none;
  policies_fired = d.policies_fired;
  obligations = some_of d.obligations;
}

-- the audit of an event, where the call asks for it, and then the result
abbrev pub after_audit :
    Agent → GuardActionInput → AuditEvent → List Effect → GuardActionResult → Outcome
after_audit a i e done r =
    if or_else i.audit true
    then (if a.audits e
        then record { effects = done ++ audited e ∷ []; result = some r }
        else record { effects = done; result = none })
    else record { effects = done; result = some r }

abbrev pub run_allowed : Agent → GuardActionInput → PdpDecision → Option Json → Outcome
run_allowed a i d none = record { effects = runs ∷ []; result = none }
run_allowed a i d (some raw) =
    after_audit a i (allow_event i d) (runs ∷ [])
      (allowed (apply_obligations a.services d.obligations raw) d.obligations d)

abbrev pub decided : Agent → GuardActionInput → PdpDecision → Decision → Outcome
decided a i d deny = after_audit a i (deny_event i d) [] (denied (reason_of d) d)
decided a i d allow = run_allowed a i d a.run

abbrev pub checked : Agent → GuardActionInput → Option PdpDecision → Outcome
checked a i none = record { effects = []; result = none }
checked a i (some d) = decided a i d d.decision

unfoldable pub guard_action : Agent → GuardActionInput → Outcome
guard_action a i = checked a i (a.check i.connection_id i.action i.resource i.context)
