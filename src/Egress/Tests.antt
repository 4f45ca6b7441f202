-- ===== src/Egress/Tests.antt =====
-- A reply with a field inside the rows of an array, and the theorems at it.
use arp.Common.{◌≡◌, refl, false, [], ◌∷◌, none, ◌++◌}
use arp.Text.{split}
use arp.Spec.{Json, str, arr, obj, nil, cons, member, end, Obligation}
use arp.Egress.{Services, apply_obligations}
use arp.Egress.Paths.{has_path}
use arp.Egress.Redacted.{redacted_field_absent}
use arp.Egress.Guard.{Agent, GuardActionInput, guard_action}
use arp.Egress.Guarded.{guard_action_data, guard_action_run}
use arp.Audit.{allow, deny}
use arp.Runtime.{PdpDecision}
use arp.Common.{some, ◌==◌, string_eq, if◌then◌else◌, true}

abbrev services : Services
services = record { stringify = λ j. "{}"; words = λ s. s ∷ []; replace = λ p r. none }

abbrev row : Json
row = obj (member "name" (str "Ann") (member "phone" (str "555") end))

abbrev reply : Json
reply = obj (member "rows" (arr (cons row nil)) end)

abbrev redact : Obligation
redact = record {
  type = "redact_fields";
  params = member "fields" (arr (cons (str "rows.phone") nil)) end;
}

abbrev watermark : Obligation
watermark = record { type = "insert_watermark"; params = end }

abbrev limit : Obligation
limit = record { type = "rate_limit"; params = end }

redacts :
    apply_obligations services (redact ∷ []) reply
    ≡ obj (member "rows" (arr (cons (obj (member "name" (str "Ann") end)) nil)) end)
unfolding apply_obligations arp.Message.find_member split
redacts = refl

-- fields of the items of an array that is the payload itself are left
leaves_top_array :
    apply_obligations services
      (record {
        type = "redact_fields";
        params = member "fields" (arr (cons (str "phone") nil)) end;
      }
        ∷ [])
      (arr (cons row nil))
    ≡ arr (cons row nil)
unfolding apply_obligations arp.Message.find_member
leaves_top_array = refl

-- nor those inside an array of an array
leaves_nested_array :
    apply_obligations services
      (redact ∷ [])
      (obj (member "rows" (arr (cons (arr (cons row nil)) nil)) end))
    ≡ obj (member "rows" (arr (cons (arr (cons row nil)) nil)) end)
unfolding apply_obligations arp.Message.find_member split
leaves_nested_array = refl

redacted_field_absent_example :
    has_path
      (split b'.' "rows.phone")
      (apply_obligations services ((watermark ∷ []) ++ redact ∷ limit ∷ []) reply)
    ≡ false
unfolding arp.Message.find_member arp.Egress.texts_of
redacted_field_absent_example =
    redacted_field_absent services (watermark ∷ []) (limit ∷ []) redact "rows.phone" reply refl refl
      (refl, tt)

abbrev permit : PdpDecision
permit = record {
  decision = allow;
  obligations = redact ∷ [];
  policies_fired = "p1" ∷ [];
  reasons = [];
}

abbrev refusal : PdpDecision
refusal = record { decision = deny; obligations = []; policies_fired = []; reasons = [] }

-- it may search, and nothing else
abbrev searcher : Agent
searcher = record {
  services = services;
  check = λ id action r c. some (if action == "search" then permit else refusal);
  run = some reply;
  audits = λ e. true;
}

abbrev call : GuardActionInput
call = record {
  connection_id = "conn_1";
  action = "search";
  resource = obj end;
  context = none;
  audit = none;
}

guard_action_data_example :
    (d : PdpDecision) × (some permit ≡ some d)
    × (d.decision ≡ allow)
    × (raw : Json) × (some reply ≡ some raw)
    × (apply_obligations services (redact ∷ []) reply
        ≡ apply_obligations services d.obligations raw)
unfolding guard_action
guard_action_data_example =
    guard_action_data searcher call (apply_obligations services (redact ∷ []) reply) refl

guard_action_run_example : (d : PdpDecision) × (some permit ≡ some d) × (d.decision ≡ allow)
unfolding guard_action
guard_action_run_example = guard_action_run searcher call refl
