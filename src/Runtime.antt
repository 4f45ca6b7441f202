-- ===== src/Runtime.antt =====
-- packages/runtime/src/runtime.ts: how the runtime answers an incoming message. The policy decision
-- point, the application's handler and the request mapper are parameters; the first two may throw,
-- which the listener catches. The registry is that of packages/registry. A reply that cannot be delivered has
-- no effect here: the code catches the error and drops it.
pub mod Events
pub mod Answers
pub mod Frame
pub mod Dispatch
pub mod Revoked
mod Tests
use arp.Common.{
  ℕ, String, Bool, true, false, not, ◌||◌, Option, none, some, List, [], ◌∷◌, ◌++◌, string_eq, ◌==◌,
  if◌then◌else◌, or_else,
}
use arp.Common.JsMap.{JsMap, get, set}
use arp.Text.{concat, join}
use arp.Message.{Message, Meta, Entity, Request, extract_connection_id, is_response_type}
use arp.Spec.{Json, str, obj, Members, end, member, Obligation, ConnectionToken}
use arp.Audit.{Decision, allow, deny, EntryInput}
use arp.Registry.{
  Registry, ConnectionRecord, ConnectionStatus, active, suspended, revoked, connection,
  get_connection, record_of, is_revoked, touch_last_message,
}

pub record EvaluateInput : Type 0 where
  pub cedar_policies : List String
  pub principal : Entity
  pub request : Request

pub record PdpDecision : Type 0 where
  pub decision : Decision
  pub obligations : List Obligation
  pub policies_fired : List String
  pub reasons : List String

pub record DispatchInput : Type 0 where
  pub message : Message
  pub meta : Meta
  pub connection : ConnectionToken
  pub connection_id : String
  pub obligations : List Obligation
  pub policies_fired : List String

pub record DispatchResult : Type 0 where
  pub reply_type : Option String
  pub reply : Option Json

-- the body of a reply: a denial, or the result of the handler
pub data ReplyBody : Type 0 where
  denied : String → List String → ReplyBody
  allowed : List Obligation → Json → ReplyBody

pub record Reply : Type 0 where
  pub id : String
  pub type : String
  pub to : String
  pub thid : String
  pub connection_id : String
  pub body : ReplyBody

-- What the runtime does besides changing the registry, in order: an entry in a connection's audit
-- log, a run of the handler, an attempt to send.
pub data Event : Type 0 where
  audited : String → EntryInput → Event
  handled : DispatchInput → Event
  sent : Reply → Event

-- One connection's memory, and the memories of all.
abbrev pub Bucket : Type 0
Bucket = JsMap String Json

-- The application and the environment. A handler sees and changes the memory of its connection
-- only. `none` means that the handler, or the decision point, throws.
pub record Options : Type 0 where
  pub request_mapper : Message → Request
  pub evaluate : EvaluateInput → Option PdpDecision
  pub dispatch : Option (DispatchInput → Bucket → Bucket × Option DispatchResult)

pub record World : Type 0 where
  pub registry : Registry
  pub memory : JsMap String Bucket
  pub events : List Event

-- the reason `connection_${record.status}` of a connection that is not active
abbrev pub inactive_reason : ConnectionStatus → Option String
inactive_reason active = none
inactive_reason suspended = some "connection_suspended"
inactive_reason revoked = some "connection_revoked"

abbrev deny_entry : Message → String → EntryInput
deny_entry msg reason = record {
  msg_id = msg.id;
  decision = deny;
  policies_fired = [];
  obligations = none;
  spend_delta_cents = none;
  reason = some reason;
  timestamp = none;
}

abbrev joined : List String → Option String
joined [] = none
joined (r ∷ rs) = some (join "; " (r ∷ rs))

abbrev pub decision_entry : Message → PdpDecision → List Obligation → EntryInput
decision_entry msg d obligations = record {
  msg_id = msg.id;
  decision = d.decision;
  policies_fired = d.policies_fired;
  obligations = some obligations;
  spend_delta_cents = none;
  reason = joined d.reasons;
  timestamp = none;
}

-- `msg.thid`, or the message's id where it is missing or empty
abbrev pub thread_of : Message → String
thread_of msg = elim msg.thid [ none ↦ msg.id | some t ↦ if t == "" then msg.id else t ]

unfoldable pub reply_deny : Message → Meta → String → String → List String → Reply
reply_deny msg meta connection_id reason policies_fired = record {
  id = concat msg.id ".deny";
  type = "https://didcomm.org/arp/1.0/response";
  to = meta.peer_did;
  thid = thread_of msg;
  connection_id = connection_id;
  body = denied reason policies_fired;
}

abbrev default_reply : Json
default_reply = obj (member "ok" (Json.bool true) end)

unfoldable pub reply_allow : Message → Meta → String → List Obligation → DispatchResult → Reply
reply_allow msg meta connection_id obligations result = record {
  id = concat msg.id ".reply";
  type = or_else result.reply_type "https://didcomm.org/arp/1.0/response";
  to = meta.peer_did;
  thid = thread_of msg;
  connection_id = connection_id;
  body = allowed obligations (or_else result.reply default_reply);
}

abbrev pub log_events : List Event → World → World
log_events new w = record w { events = w.events ++ new }

-- an audited denial, and the best-effort reply to it
abbrev pub refuse : Message → Meta → String → String → World → World
refuse msg meta id reason w =
    log_events (audited id (deny_entry msg reason) ∷ sent (reply_deny msg meta id reason []) ∷ []) w

abbrev pub evaluate_input : Options → Meta → ConnectionRecord → String → Message → EvaluateInput
evaluate_input opts meta record_ id msg = record {
  cedar_policies = record_.cedar_policies;
  principal = record {
    type = "Agent";
    id = meta.peer_did;
    attrs = some (
        obj
          (member "connection_id" (str id) (member "owner_did" (str (record_.token).issuer) end)));
  };
  request = opts.request_mapper msg;
}

abbrev pub bucket : String → World → Bucket
bucket id w = or_else (get id w.memory) []

abbrev no_result : DispatchResult
no_result = record { reply_type = none; reply = none }

-- The handler's run, and the reply: a handler that throws sends none.
unfoldable pub run_handler : Options → DispatchInput → World → World
run_handler opts input w = elim opts.dispatch [
  | none ↦
      log_events
        (sent (reply_allow input.message input.meta input.connection_id input.obligations no_result)
          ∷ [])
        w
  | some handler ↦
      let (kept, result) = handler input (bucket input.connection_id w) in
      let after = record w {
        memory = set input.connection_id kept w.memory;
        events = w.events ++ handled input ∷ [];
      } in
      elim result [
        | none ↦ after
        | some r ↦
            log_events
              (sent (reply_allow input.message input.meta input.connection_id input.obligations r)
                ∷ [])
              after
      ]
]

-- The part of `evaluateAndDispatch` after the revocation check.
unfoldable pub apply_decision :
    Options → Message → Meta → String → ConnectionRecord → PdpDecision → World → World
unfolding run_handler
apply_decision opts msg meta id conn d w =
    let obligations = (conn.token).obligations ++ d.obligations in
    let noted = log_events (audited id (decision_entry msg d obligations) ∷ []) w in
    elim d.decision [
      | deny ↦
          log_events (sent (reply_deny msg meta id "policy_denied" d.policies_fired) ∷ []) noted
      | allow ↦
          run_handler opts
            (record {
              message = msg;
              meta = meta;
              connection = conn.token;
              connection_id = id;
              obligations = obligations;
              policies_fired = d.policies_fired;
            })
            noted
    ]

unfoldable pub decide : Options → Message → Meta → String → ConnectionRecord → World → World
decide opts msg meta id conn w = elim (opts.evaluate (evaluate_input opts meta conn id msg)) [
  | none ↦ w
  | some d ↦ apply_decision opts msg meta id conn d w
]

-- Where `getConnection` throws, the dispatch ends as it does for a missing row.
unfoldable pub evaluate_and_dispatch : Options → ℕ → Message → Meta → World → World
evaluate_and_dispatch opts now msg meta w = elim (extract_connection_id msg) [
  | none ↦ w
  | some id ↦ elim (id == "") [
    | true ↦ w
    | false ↦ elim (record_of (get_connection id w.registry)) [
      | none ↦ w
      | some conn ↦ elim (inactive_reason conn.status) [
        | some reason ↦ refuse msg meta id reason w
        | none ↦ elim (is_revoked connection id w.registry) [
          | true ↦ refuse msg meta id "revoked" w
          | false ↦
              decide opts msg meta id conn
                (record w { registry = (touch_last_message now id w.registry).0 })
        ]
      ]
    ]
  ]
]

-- the listener that `createRuntime` registers with the transport
unfoldable pub on_message : Options → ℕ → Message → Meta → World → World
on_message opts now msg meta w =
    if is_response_type msg.type then w else evaluate_and_dispatch opts now msg meta w
