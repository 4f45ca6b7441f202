-- ===== src/CloudRuntime/Decision.antt =====
-- The decision of a message and the quota (packages/cloud-runtime/src/dispatch.ts).
use arp.Common.{ℕ, String, Option, none, some, List, [], ◌∷◌, ◌++◌, string_eq, if◌then◌else◌}
use arp.Text.{concat}
use arp.Spec.{str, obj, end, member, Obligation}
use arp.Audit.{Decision, allow, deny}
use arp.Message.{Message, Request}
use arp.Runtime.{EvaluateInput, PdpDecision}
use arp.CloudDb.Rows.{ConnectionRow, Database}
use arp.CloudDb.Agents.{get_tenant}
use arp.CloudDb.Records.{get_usage}
use arp.CloudDb.Quota.{check_quota}
use arp.CloudRuntime.Request.{map_request, is_response}
use arp.CloudRuntime.World.{Context}

pub record Verdict : Type 0 where
  pub decision : Decision
  pub obligations : List Obligation
  pub policies_fired : List String
  pub reasons : List String

abbrev denial_text : Request → String
denial_text r = concat "policy_denied: " (
    concat r.action
      (concat " on " (concat (r.resource).type (concat "::\"" (concat (r.resource).id "\"")))))

abbrev reasons_of : Request → PdpDecision → List String
reasons_of r d = elim d.decision [
  | allow ↦ d.reasons
  | deny ↦ elim d.reasons [ [] ↦ denial_text r ∷ [] | s ∷ ss ↦ s ∷ ss ]
]

abbrev pub evaluate_input : Context → Message → String → ConnectionRow → EvaluateInput
evaluate_input x msg peer c = record {
  cedar_policies = c.cedar_policies;
  principal = record {
    type = "Agent";
    id = peer;
    attrs = some (
        obj (
          member "connection_id" (str c.connection_id)
            (member "owner_did" (str c.token_issuer) end)));
  };
  request = map_request x.actions msg;
}

-- `none` where the decision point throws
unfoldable pub decide : Context → Message → String → ConnectionRow → Option Verdict
unfolding is_response
decide x msg peer c =
    if is_response msg.type
    then some (record {
      decision = allow;
      obligations = c.obligations;
      policies_fired = [];
      reasons = "auto_allow_response" ∷ [];
    })
    else elim (x.evaluate (evaluate_input x msg peer c)) [
      | none ↦ none
      | some d ↦ some (record {
        decision = d.decision;
        obligations = c.obligations ++ d.obligations;
        policies_fired = d.policies_fired;
        reasons = reasons_of (map_request x.actions msg) d;
      })
    ]

abbrev pub plan_of : Context → Database → String
plan_of x db = elim (get_tenant x.tenant db) [ none ↦ "free" | some t ↦ t.plan ]

abbrev pub inbound_so_far : Context → Database → ℕ
inbound_so_far x db = elim (get_usage x.tenant (x.period x.now) db) [
  | none ↦ 0
  | some u ↦ u.inbound_messages
]

abbrev quota_text : Context → String → ℕ → ℕ → String
quota_text x plan inbound cap =
    concat "quota_exceeded:"
      (concat plan (concat ":" (concat (x.decimal inbound) (concat "/" (x.decimal cap)))))

-- An allowed message over the tenant's cap is denied. The code counts the message later, in another
-- statement; here no other dispatch comes between.
unfoldable pub apply_quota : Context → Verdict → Database → Verdict
apply_quota x v db = elim v.decision [
  | deny ↦ v
  | allow ↦ elim (check_quota (plan_of x db) (inbound_so_far x db)) [
    | none ↦ v
    | some cap ↦ record v {
      decision = deny;
      reasons = quota_text x (plan_of x db) (inbound_so_far x db) cap ∷ [];
    }
  ]
]
