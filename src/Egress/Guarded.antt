-- ===== src/Egress/Guarded.antt =====
-- What a call guarded by packages/sdk/src/guard.ts does, and the data that it returns.
use arp.Common.{
  ◌≡◌, refl, Bool, true, false, Option, none, some, List, [], ◌∷◌, string_eq, or_else, any, inl,
  inr, Bool-cases, arith,
}
use arp.Spec.{Json}
use arp.Audit.{Decision, allow, deny}
use arp.Runtime.{PdpDecision}
use arp.Egress.{apply_obligations}
use arp.Egress.Guard.{
  Agent, GuardActionInput, GuardActionResult, Effect, runs, audited, AuditEvent, allow_event,
  deny_event, reason_of, Outcome, allowed, denied, guard_action, after_audit, run_allowed, decided,
  checked,
}

abbrev pub is_run : Effect → Bool
is_run runs = true
is_run (audited e) = false

-- whether the call has run the action
abbrev pub has_run : Outcome → Bool
has_run o = any is_run o.effects

-- the data that a result gives to the framework
abbrev pub data_of : Option GuardActionResult → Option Json
data_of none = none
data_of (some (allowed j os d)) = some j
data_of (some (denied r d)) = none

module _ (a : Agent) (i : GuardActionInput) where
  after_audit_data :
      (e : AuditEvent) (done : List Effect) (r : GuardActionResult) (j : Json)
      → data_of (after_audit a i e done r).result ≡ some j
      → data_of (some r) ≡ some j
  after_audit_data e done r j h = elim (Bool-cases (or_else i.audit true)) [
    | inl asked ↦ elim (Bool-cases (a.audits e)) [
      | inl ok ↦ rw (asked, ok) at h
      | inr fails ↦ grind arith
    ]
    | inr off ↦ rw off at h
  ]

  after_audit_run :
      (e : AuditEvent) (r : GuardActionResult) → has_run (after_audit a i e [] r) ≡ false
  after_audit_run e r = ground arith

  run_allowed_data :
      (d : PdpDecision) (x : Option Json) (j : Json)
      → data_of (run_allowed a i d x).result ≡ some j
      → (raw : Json) × (x ≡ some raw) × (j ≡ apply_obligations a.services d.obligations raw)
  run_allowed_data d none j h = cc
  run_allowed_data d (some raw) j h = (raw, refl, sent)
    where
      given : some (apply_obligations a.services d.obligations raw) ≡ some j
      given =
          after_audit_data (allow_event i d) (runs ∷ [])
            (allowed (apply_obligations a.services d.obligations raw) d.obligations d) j h

      sent : j ≡ apply_obligations a.services d.obligations raw
      sent = cc given

  decided_data :
      (d : PdpDecision) (v : Decision) (j : Json)
      → d.decision ≡ v
      → data_of (decided a i d v).result ≡ some j
      → (d.decision ≡ allow)
        × (raw : Json) × (a.run ≡ some raw)
        × (j ≡ apply_obligations a.services d.obligations raw)
  decided_data d deny j is_v h =
      cc (after_audit_data (deny_event i d) [] (denied (reason_of d) d) j h)
  decided_data d allow j is_v h =
      let (raw, ran, sent) = run_allowed_data d a.run j h in (is_v, raw, ran, sent)

  checked_data :
      (x : Option PdpDecision) (j : Json)
      → data_of (checked a i x).result ≡ some j
      → (d : PdpDecision) × (x ≡ some d)
        × (d.decision ≡ allow)
        × (raw : Json) × (a.run ≡ some raw)
        × (j ≡ apply_obligations a.services d.obligations raw)
  checked_data none j h = cc
  checked_data (some d) j h =
      let (is_allow, raw, ran, sent) = decided_data d d.decision j refl h in
      (d, refl, is_allow, raw, ran, sent)

  run_needs_allow :
      (d : PdpDecision) (v : Decision) (ran : has_run (decided a i d v) ≡ true) → v ≡ allow
  run_needs_allow d allow ran = refl
  run_needs_allow d deny ran = apart ran (after_audit_run (deny_event i d) (denied (reason_of d) d))
    where
      apart : {b : Bool} → b ≡ true → b ≡ false → deny ≡ allow
      apart holds fails = cc

  checked_run :
      (x : Option PdpDecision)
      → has_run (checked a i x) ≡ true
      → (d : PdpDecision) × (x ≡ some d) × (d.decision ≡ allow)
  checked_run none ran = cc
  checked_run (some d) ran = (d, refl, run_needs_allow d d.decision ran)

  -- A guarded call runs the action only if the check gives a decision that allows.
  pub guard_action_run :
      has_run (guard_action a i) ≡ true
      → (d : PdpDecision) × (a.check i.connection_id i.action i.resource i.context ≡ some d)
        × (d.decision ≡ allow)
  unfolding guard_action
  guard_action_run = checked_run (a.check i.connection_id i.action i.resource i.context)

  -- Data that a guarded call returns to the framework is the payload of the action, filtered by the
  -- obligations of a decision of the check that allows.
  pub guard_action_data :
      (j : Json)
      → data_of (guard_action a i).result ≡ some j
      → (d : PdpDecision) × (a.check i.connection_id i.action i.resource i.context ≡ some d)
        × (d.decision ≡ allow)
        × (raw : Json) × (a.run ≡ some raw)
        × (j ≡ apply_obligations a.services d.obligations raw)
  unfolding guard_action
  guard_action_data = checked_data (a.check i.connection_id i.action i.resource i.context)
