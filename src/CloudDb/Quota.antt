-- ===== src/CloudDb/Quota.antt =====
-- The plans of packages/cloud-db/src/types.ts: the monthly cap on inbound messages.
use arp.Common.{
  ℕ, String, Bool, true, ◌||◌, Option, none, some, ltb, string_eq, ◌==◌, if◌then◌else◌,
}

pub record PlanLimits : Type 0 where
  pub plan : String
  pub max_agents : Option ℕ
  pub max_inbound_messages_per_month : Option ℕ
  pub per_agent_price_cents : ℕ

abbrev limits : String → Option ℕ → PlanLimits
limits plan cap = record {
  plan = plan;
  max_agents = none;
  max_inbound_messages_per_month = cap;
  per_agent_price_cents = 0;
}

-- `PLAN_LIMITS[plan]`
abbrev pub plan_limits : String → Option PlanLimits
plan_limits plan =
    if plan == "free"
    then some (limits "free" (some 10000))
    else if plan == "pro"
    then some (limits "pro" (some 10000))
    else if plan == "internal"
    then some (limits "internal" none)
    else none

-- the cap that the next message would exceed, `none` within it
unfoldable pub check_quota : String → ℕ → Option ℕ
check_quota plan inbound = elim (plan_limits plan) [
  | none ↦ none
  | some l ↦ elim l.max_inbound_messages_per_month [
    | none ↦ none
    | some cap ↦ if ltb inbound cap then none else some cap
  ]
]

-- `connectStatus === 'active' || connectStatus === 'past_due'`
abbrev paying : Option String → Bool
paying none = Bool.false
paying (some s) = s == "active" || s == "past_due"

unfoldable pub can_pair : String → Option String → Bool
can_pair plan connect_status = if plan == "internal" then true else paying connect_status
