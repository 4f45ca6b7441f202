-- ===== src/CloudRuntime/Cases.antt =====
-- Every dispatch of packages/cloud-runtime/src/dispatch.ts ends in one of the listed ways.
use arp.Common.{
  ◌≡◌, refl, ◌∙◌, ap, ◌⊎◌, String, true, false, none, some, inl, inr, Bool-cases, Option-cases,
  string_eq, arith,
}
use arp.Text.{truthy}
use arp.Audit.{Decision, allow, deny}
use arp.Message.{Message, extract_connection_id}
use arp.CloudDb.Rows.{ConnectionRow, connection, Database}
use arp.CloudDb.Records.{is_revoked}
use arp.CloudDb.Quota.{check_quota}
use arp.CloudRuntime.World.{Context, World, Result, set_db}
use arp.CloudRuntime.Guards.{
  Resolution, found, denied, resolve_connection, Refusal, refusal, involves, has_expired, is_stale,
}
use arp.CloudRuntime.Decision.{Verdict, decide, plan_of, inbound_so_far, apply_quota}
use arp.CloudRuntime.Delivery.{refused, store_message, ws_event, deliver}
use arp.CloudRuntime.Inbound.{note_verdict, act, refuse, dispatch_on, dispatch_verified_message}
use arp.CloudRuntime.Outcome.{Outcome, deliver-Delivery}

Resolution-cases :
    (r : Resolution)
    → ((c : ConnectionRow) × (r ≡ found c)) ⊎ ((reason : String) × (r ≡ denied reason))
Resolution-cases (found c) = inl (c, refl)
Resolution-cases (denied reason) = inr (reason, refl)

Decision-cases : (d : Decision) → (d ≡ allow) ⊎ (d ≡ deny)
Decision-cases allow = inl refl
Decision-cases deny = inr refl

-- where nothing refuses, every guard has passed
refusal-none :
    (x : Context) (msg : Message) (c : ConnectionRow) (db : Database)
    → refusal x msg c db ≡ none
    → (involves x.agent_did c ≡ true)
      × (c.status ≡ "active")
      × (has_expired x.now c ≡ false)
      × (is_revoked x.tenant x.agent_did connection c.connection_id db ≡ false)
      × (is_stale x.now msg ≡ false)
unfolding refusal
refusal-none x msg c db passed = ground (
  arith,
  string_eq.agrees_iff c.status "active",
  Bool-cases (involves x.agent_did c),
  Bool-cases (has_expired x.now c),
  Bool-cases (is_stale x.now msg),
)

-- an allowed verdict after the quota is the verdict before it, within the quota
apply_quota_allow :
    (x : Context) (v : Verdict) (db : Database)
    → (apply_quota x v db).decision ≡ allow
    → (apply_quota x v db ≡ v)
      × (v.decision ≡ allow)
      × (check_quota (plan_of x db) (inbound_so_far x db) ≡ none)
unfolding apply_quota
apply_quota_allow x v db h = elim (Decision-cases v.decision) [
  | inr denies ↦ cc (rw (denies, apply_quota) at h)
  | inl allows ↦ elim (Option-cases (check_quota (plan_of x db) (inbound_so_far x db))) [
    | inl within ↦ (simp (allows, within, apply_quota) refl, allows, within)
    | inr (limit, over) ↦ cc (rw (allows, over, apply_quota) at h)
  ]
]

module _ (x : Context) (msg : Message) (peer envelope : String) (w : World) where
  act_allow :
      (c : ConnectionRow) (v : Verdict)
      → v.decision ≡ allow
      → act x msg peer envelope c v w
        ≡ deliver x msg (ws_event x msg peer envelope c v) (
            set_db
              (store_message x msg peer envelope c (note_verdict x msg c v w).db)
              (note_verdict x msg c v w))
  unfolding act
  act_allow c v h = simp (h, act) refl

  act-Outcome :
      (c : ConnectionRow) (v : Verdict)
      → resolve_connection x (truthy (extract_connection_id msg)) peer w.db ≡ found c
      → refusal x msg c w.db ≡ none
      → decide x msg peer c ≡ some v
      → Outcome x msg peer envelope w (
        some (act x msg peer envelope c (apply_quota x v w.db) w).0,
        (act x msg peer envelope c (apply_quota x v w.db) w).1,
      )
  unfolding act
  act-Outcome c v at passed decided = elim (Decision-cases (apply_quota x v w.db).decision) [
    | inr denies ↦ Outcome.turned_down c (apply_quota x v w.db) denies (simp (denies, act) refl)
    | inl allows ↦
        let (same, is_allow, within) = apply_quota_allow x v w.db allows in
        let (involved, active, unexpired, unrevoked, fresh) = refusal-none x msg c w.db passed in
        Outcome.permitted c v _
          (record {
            resolved = at;
            is_involved = involved;
            is_active = active;
            unexpired = unexpired;
            unrevoked = unrevoked;
            is_fresh = fresh;
            decided = decided;
            allowed = is_allow;
            within_quota = within;
          })
          (deliver-Delivery x msg (ws_event x msg peer envelope c v) (
            set_db (store_message x msg peer envelope c (note_verdict x msg c v w).db)
              (note_verdict x msg c v w)))
          (ap (λ (d : Result × World). (some d.0, d.1))
            (ap (λ (u : Verdict). act x msg peer envelope c u w) same ∙ act_allow c v is_allow))
  ]

  refuse-Outcome :
      (c : ConnectionRow) (r : Refusal)
      → Outcome x msg peer envelope w (some (refused r.reason), refuse x msg c r w)
  refuse-Outcome c r = elim (Bool-cases r.noted) [
    | inl yes_ ↦ Outcome.noted c r.reason (rw yes_ refl)
    | inr no_ ↦ Outcome.quiet r.reason (rw no_ refl)
  ]

  -- Every dispatch ends in one of the ways: refused quietly or with an entry in the audit log,
  -- stopped by the decision point, denied, or stored and delivered under all conditions of `Permitted`.
  pub dispatch_verified_message-Outcome :
      Outcome x msg peer envelope w (dispatch_verified_message x msg peer envelope w)
  unfolding dispatch_verified_message dispatch_on
  dispatch_verified_message-Outcome =
      elim (Resolution-cases
        (resolve_connection x (truthy (extract_connection_id msg)) peer w.db)) [
          | inr (reason, none_) ↦ Outcome.quiet reason (rw (none_, dispatch_verified_message) refl)
          | inl (c, at) ↦ elim (Option-cases (refusal x msg c w.db)) [
            | inr (r, stopped) ↦
                rw (at, stopped, dispatch_verified_message, dispatch_on) (refuse-Outcome c r)
            | inl passed ↦ elim (Option-cases (decide x msg peer c)) [
              | inl threw ↦
                  Outcome.thrown
                    (rw (at, passed, threw, dispatch_verified_message, dispatch_on) refl)
              | inr (v, decided) ↦
                  rw (at, passed, decided, dispatch_verified_message, dispatch_on)
                    (act-Outcome c v at passed decided)
            ]
          ]
        ]
