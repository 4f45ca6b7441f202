-- ===== src/CloudRuntime/Usage.antt =====
-- The quota of packages/cloud-runtime/src/dispatch.ts: counting the messages of a period.
use mathlib.Core.Path.{subst}
use arp.Common.{
  ℕ, ◌+◌, ◌≤◌, ◌≡◌, ◌⊎◌, refl, sym, ◌∙◌, ap, String, Option, none, some, inl, inr, List, [], ◌∷◌,
  All, map, ==_refl, string_eq, arith, ltb, List-cases, Bool-cases,
}
use arp.Audit.{Decision, allow, deny}
use arp.Message.{Message}
use arp.CloudDb.Tables.{TenantId, Table, select, select-insert, select-update_where}
use arp.CloudDb.Rows.{ConnectionRow, UsageRow, TenantRow, Database}
use arp.CloudDb.Connections.{touch_connection}
use arp.CloudDb.Records.{increment_usage, get_usage, of_period, added}
use arp.CloudDb.Order.{first}
use arp.CloudDb.Agents.{get_tenant}
use arp.CloudDb.Messages.{mark_message_delivered, mark_message_failed, enqueue_message}
use arp.CloudDb.Quota.{PlanLimits, plan_limits, check_quota}
use arp.CloudRuntime.World.{Context, World, Result, WsEvent}
use arp.CloudRuntime.Decision.{Verdict, inbound_so_far, plan_of}
use arp.CloudRuntime.Inbound.{note_verdict, dispatch_verified_message}
use arp.CloudRuntime.Delivery.{store_message}
use arp.CloudRuntime.Outcome.{
  Outcome, quiet, thrown, noted, turned_down, permitted, Delivery, to_session, after_failure,
  without_session, Elsewhere, to_sender, to_runtime, to_queue,
}
use arp.CloudRuntime.Cases.{dispatch_verified_message-Outcome}

-- the inbound messages of a tenant that a period counts
abbrev pub count : TenantId → String → Database → ℕ
count t period db = elim (get_usage t period db) [ none ↦ 0 | some u ↦ u.inbound_messages ]

abbrev tally : List UsageRow → ℕ
tally rows = elim (first rows) [ none ↦ 0 | some u ↦ u.inbound_messages ]

count-increment :
    (t : TenantId) (period : String) (db : Database)
    → count t period (increment_usage t period 1 0 db) ≡ count t period db + 1
unfolding increment_usage get_usage
count-increment t period db = elim (List-cases (select t (of_period period) db.usage_counters)) [
  | inl fresh ↦
      rw (fresh, increment_usage)
        (ap tally (select-insert t (of_period period) _ db.usage_counters)
          ∙ (ground (arith, ==_refl period, ap tally fresh, fresh)))
  | inr (old, olds, at) ↦
      rw (at, increment_usage)
        (ap tally
            (select-update_where t (of_period period) (added 1 0) db.usage_counters (λ r. refl))
          ∙ (ap (λ rows. tally (map (added 1 0) rows)) at ∙ ap (λ n. n + 1) (sym (ap tally at))))
]

abbrev SameCount : Database → Result × World → Type 0
SameCount db (r, after) =
    (r.decision ≡ allow)
    × (after.db.usage_counters ≡ db.usage_counters)
    × (after.db.tenants ≡ db.tenants)

Elsewhere-SameCount :
    (x : Context) (msg : Message) (w : World) (after : Result × World)
    → Elsewhere x msg w after
    → SameCount w.db after
unfolding mark_message_delivered
Elsewhere-SameCount x msg w after (to_sender thid response waits e) =
    subst (SameCount w.db) (sym e) (refl, refl, refl)
Elsewhere-SameCount x msg w after (to_runtime is_push e) =
    subst (SameCount w.db) (sym e) (refl, refl, refl)
Elsewhere-SameCount x msg w after (to_queue e) = subst (SameCount w.db) (sym e) (refl, refl, refl)

Delivery-SameCount :
    (x : Context) (msg : Message) (event : WsEvent) (w : World) (after : Result × World)
    → Delivery x msg event w after
    → SameCount w.db after
unfolding mark_message_delivered mark_message_failed
Delivery-SameCount x msg event w after (to_session h up sent e) =
    subst (SameCount w.db) (sym e) (refl, refl, refl)
Delivery-SameCount x msg event w after (after_failure h up lost there) =
    Elsewhere-SameCount x msg _ after there
Delivery-SameCount x msg event w after (without_session alone there) =
    Elsewhere-SameCount x msg w after there

abbrev worth : Decision → ℕ
worth allow = 1
worth deny = 0

-- what a result counts
abbrev pub counted : Option Result → ℕ
counted none = 0
counted (some r) = worth r.decision

count-SameCount :
    (t : TenantId) (period : String) (db : Database) (after : Result × World)
    → SameCount db after
    → count t period after.1.db ≡ count t period db
unfolding get_usage
count-SameCount t period db (r, after) (allowed, same, tenants) =
    ap (λ (tb : Table UsageRow). tally (select t (of_period period) tb)) same

module _ (x : Context) (msg : Message) (peer envelope : String) (w : World) where
  stored-count :
      (c : ConnectionRow) (v : Verdict)
      → count x.tenant
          (x.period x.now)
          (store_message x msg peer envelope c (note_verdict x msg c v w).db)
        ≡ count x.tenant (x.period x.now) w.db + 1
  unfolding store_message enqueue_message touch_connection get_usage
  stored-count c v = count-increment x.tenant (x.period x.now) _

  stored-tenants :
      (c : ConnectionRow) (v : Verdict)
      → (store_message x msg peer envelope c (note_verdict x msg c v w).db).tenants ≡ w.db.tenants
  unfolding store_message enqueue_message touch_connection increment_usage
  stored-tenants c v =
      elim (List-cases (
        select x.tenant (of_period (x.period x.now))
          (note_verdict x msg c v w).db.usage_counters)) [
            | inl fresh ↦ rw (fresh, increment_usage) refl
            | inr (old, olds, at) ↦ rw (at, increment_usage) refl
          ]

  -- The count grows by one for a message that is allowed and else not at all, the tenant stays, and
  -- an allowed message was within the quota.
  abbrev Counts : Option Result × World → Type 0
  Counts (result, after) =
      (count x.tenant (x.period x.now) after.db
        ≡ count x.tenant (x.period x.now) w.db + counted result)
      × (after.db.tenants ≡ w.db.tenants)
      × (counted result ≡ 1 → check_quota (plan_of x w.db) (inbound_so_far x w.db) ≡ none)

  Outcome-Counts :
      (after : Option Result × World) → Outcome x msg peer envelope w after → Counts after
  unfolding touch_connection get_usage
  Outcome-Counts after (quiet reason e) =
      subst Counts (sym e) (omega arith, refl, λ h. absurd (omega arith))
  Outcome-Counts after (thrown e) =
      subst Counts (sym e) (omega arith, refl, λ h. absurd (omega arith))
  Outcome-Counts after (noted c reason e) =
      subst Counts (sym e) (omega arith, refl, λ h. absurd (omega arith))
  Outcome-Counts after (turned_down c v denies e) =
      subst Counts (sym e) (omega arith, refl, λ h. absurd (omega arith))
  Outcome-Counts after (permitted c v d allows delivered e) =
      let (allowed, same, tenants) = Delivery-SameCount x msg _ _ d delivered in
      subst Counts (sym e) (
        count-SameCount x.tenant (x.period x.now)
              (store_message x msg peer envelope c (note_verdict x msg c v w).db) d
              (allowed, same, tenants)
            ∙ stored-count c v
            ∙ ap (λ n. count x.tenant (x.period x.now) w.db + n) (sym (one_of d allowed)),
        tenants ∙ stored-tenants c v,
        λ h. allows.within_quota,
      )
    where
      one_of : (d : Result × World) → (d.0).decision ≡ allow → counted (some d.0) ≡ 1
      one_of d h = rw h refl

  dispatch-Counts : Counts (dispatch_verified_message x msg peer envelope w)
  dispatch-Counts =
      Outcome-Counts (dispatch_verified_message x msg peer envelope w)
        (dispatch_verified_message-Outcome x msg peer envelope w)

-- messages that arrive one after another, each with the context of its dispatch
pub record Arrival : Type 0 where
  pub x : Context
  pub msg : Message
  pub peer : String
  pub envelope : String

unfoldable pub dispatch_all : List Arrival → World → World
dispatch_all [] w = w
dispatch_all (a ∷ rest) w =
    dispatch_all rest (dispatch_verified_message a.x a.msg a.peer a.envelope w).1

abbrev pub InPeriod : TenantId → String → Arrival → Type 0
InPeriod t period a = (((a.x).tenant) ≡ t) × ((a.x).period (a.x).now ≡ period)

-- the tenant's plan has this cap on the inbound messages of a month
abbrev pub HasCap : TenantId → Database → ℕ → Type 0
HasCap t db cap =
    (l : PlanLimits) × (plan_limits (elim (get_tenant t db) [ none ↦ "free" | some row ↦ row.plan ])
      ≡ some l)
    × (l.max_inbound_messages_per_month ≡ some cap)

check_quota-none :
    (plan : String) (n cap : ℕ) (l : PlanLimits)
    → plan_limits plan ≡ some l
    → l.max_inbound_messages_per_month ≡ some cap
    → check_quota plan n ≡ none
    → n + 1 ≤ cap
unfolding check_quota
check_quota-none plan n cap l at max within = elim (Bool-cases (ltb n cap)) [
  | inl below ↦ ground arith
  | inr over ↦ cc (rw (at, max, over, check_quota) at within)
]

worth_cases : (d : Decision) → (worth d ≡ 0) ⊎ (worth d ≡ 1)
worth_cases allow = inr refl
worth_cases deny = inl refl

counted_cases : (r : Option Result) → (counted r ≡ 0) ⊎ (counted r ≡ 1)
counted_cases none = inl refl
counted_cases (some r) = worth_cases r.decision

dispatch_bounded :
    (x : Context) (msg : Message) (peer envelope : String) (w : World) (cap : ℕ)
    → HasCap x.tenant w.db cap
    → count x.tenant (x.period x.now) w.db ≤ cap
    → count x.tenant (x.period x.now) (dispatch_verified_message x msg peer envelope w).1.db ≤ cap
dispatch_bounded x msg peer envelope w cap (l, at, max) below =
    let (grows, tenants, within) = dispatch-Counts x msg peer envelope w in
    elim (counted_cases (dispatch_verified_message x msg peer envelope w).0) [
      | inl zero_ ↦ omega (arith, grows)
      | inr one ↦ omega (
        arith,
        grows,
        check_quota-none (plan_of x w.db) (inbound_so_far x w.db) cap l at max (within one),
      )
    ]

-- However many messages arrive for the agents of a tenant within a period, if each is dispatched
-- after the one before, the count of its inbound messages in that period stays within the cap of the
-- tenant's plan, if it was before. (Dispatches that run at once read the same count and may pass it.)
pub dispatch_all_bounded :
    (t : TenantId) (period : String) (arrivals : List Arrival) (w : World) (cap : ℕ)
    → All (InPeriod t period) arrivals
    → HasCap t w.db cap
    → count t period w.db ≤ cap
    → count t period (dispatch_all arrivals w).db ≤ cap
unfolding dispatch_all get_tenant
dispatch_all_bounded t period [] w cap here has below = below
dispatch_all_bounded t period (a ∷ rest) w cap ((of_tenant, in_period), here) has below =
    let next = (dispatch_verified_message a.x a.msg a.peer a.envelope w).1 in
    let (grows, tenants, within) = dispatch-Counts a.x a.msg a.peer a.envelope w in
    dispatch_all_bounded t period rest next cap here
      (subst (λ (tb : Table TenantRow). HasCap t (record w.db { tenants = tb }) cap) (sym tenants)
        has)
      (subst
        (λ (u : TenantId).
          count u period w.db ≤ cap → HasCap u w.db cap → count u period next.db ≤ cap)
        of_tenant
        (subst
          (λ (p : String).
            count ((a.x).tenant) p w.db ≤ cap
            → HasCap ((a.x).tenant) w.db cap
            → count ((a.x).tenant) p next.db ≤ cap)
          in_period (λ few capped. dispatch_bounded a.x a.msg a.peer a.envelope w cap capped few))
        below has)
