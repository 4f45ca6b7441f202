-- ===== src/Runtime/Answers.antt =====
-- `evaluateAndDispatch` of packages/runtime/src/runtime.ts: what one answered message adds to the
-- audit logs and which handler runs it makes.
use mathlib.Core.List.{append-nil}
use arp.Common.{
  ◌≤◌, length, arith, ◌≡◌, ◌≢◌, ◌⊎◌, refl, sym, ◌∙◌, ap, String, true, false, inl, inr, Option,
  none, some, Option-cases, List, [], ◌∷◌, ◌++◌, string_eq, ◌==◌, All,
}
use arp.Message.{Message, Meta, extract_connection_id}
use arp.Spec.{Obligation}
use arp.Audit.{Decision, allow, deny, EntryInput}
use arp.Registry.{
  ConnectionStatus, active, suspended, revoked, connection, ConnectionRecord, Registry,
  get_connection, record_of, is_revoked,
}
use arp.Runtime.Events.{audits, audits-append, handled_inputs, handled_inputs-append}
use arp.Runtime.{
  bucket, apply_decision, log_events, decision_entry, Options, World, audited, handled,
  DispatchInput, PdpDecision, evaluate_input, run_handler, refuse, inactive_reason,
}

-- the connection that a message names, if the registry has it and can read it
unfoldable pub addressee : Message → Registry → Option (String × ConnectionRecord)
addressee msg g = elim (extract_connection_id msg) [
  | none ↦ none
  | some id ↦ elim (id == "") [
    | true ↦ none
    | false ↦ elim (record_of (get_connection id g)) [ none ↦ none | some conn ↦ some (id, conn) ]
  ]
]

-- What a handler run rests on: the registry, before the message, has the connection, active and not
-- revoked, and the decision point allows the request under the policies of the connection.
pub record IsPermitted (opts : Options) (msg : Message) (meta : Meta) (g : Registry)
    (h : DispatchInput) : Type 0 where
  pub conn : ConnectionRecord
  pub found : addressee msg g ≡ some (h.connection_id, conn)
  pub is_active : conn.status ≡ active
  pub not_revoked : is_revoked connection h.connection_id g ≡ false
  pub decision : PdpDecision
  pub decided : opts.evaluate (evaluate_input opts meta conn h.connection_id msg) ≡ some decision
  pub is_allowed : decision.decision ≡ allow
  pub own_token : h.connection ≡ conn.token

-- What one message adds to the events of the runtime.
pub record IsAnswer (opts : Options) (msg : Message) (meta : Meta) (w w' : World) (id : String)
    : Type 0 where
  pub entry : EntryInput
  pub runs : List DispatchInput
  pub at_most_one : length runs ≤ 1
  pub about_message : entry.msg_id ≡ msg.id
  pub one_entry : audits w'.events ≡ audits w.events ++ (id, entry) ∷ []
  pub all_runs : handled_inputs w'.events ≡ handled_inputs w.events ++ runs
  pub permitted : All (IsPermitted opts msg meta w.registry) runs
  pub denied : entry.decision ≡ deny → runs ≡ []

pub active_status : (s : ConnectionStatus) → inactive_reason s ≡ none → s ≡ active
active_status active h = refl
active_status suspended h = cc
active_status revoked h = cc

pub Decision-cases : (d : Decision) → (d ≡ allow) ⊎ (d ≡ deny)
Decision-cases allow = inl refl
Decision-cases deny = inr refl

allow≢deny : allow ≢ deny
allow≢deny h = cc

module _ (opts : Options) (msg : Message) (meta : Meta) (w : World) (id : String) where
  -- the answer of a refusal
  pub refuse-IsAnswer :
      (reason : String) → IsAnswer opts msg meta w (refuse msg meta id reason w) id
  unfolding audits handled_inputs
  refuse-IsAnswer reason = record {
    entry = _;
    runs = [];
    at_most_one = omega arith;
    about_message = refl;
    one_entry = audits-append w.events _;
    all_runs = handled_inputs-append w.events _;
    permitted = tt;
    denied = λ d. refl;
  }

  run_handler-audits :
      (h : DispatchInput) (v : World) → audits (run_handler opts h v).events ≡ audits v.events
  unfolding run_handler audits
  run_handler-audits h v = elim (Option-cases opts.dispatch) [
    | inl no_app ↦
        rw (no_app, run_handler) (audits-append v.events _ ∙ append-nil (audits v.events))
    | inr (handler, app) ↦ elim (Option-cases (handler h (bucket h.connection_id v)).1) [
      | inl threw ↦
          rw (app, threw, run_handler) (audits-append v.events _ ∙ append-nil (audits v.events))
      | inr (r, result) ↦
          rw (app, result, run_handler)
            (audits-append (v.events ++ handled h ∷ []) _
              ∙ append-nil (audits (v.events ++ handled h ∷ []))
              ∙ audits-append v.events _
              ∙ append-nil (audits v.events))
    ]
  ]

  run_handler-runs :
      (h : DispatchInput) (v : World)
      → (handled_inputs (run_handler opts h v).events ≡ handled_inputs v.events)
        ⊎ (handled_inputs (run_handler opts h v).events ≡ handled_inputs v.events ++ h ∷ [])
  unfolding run_handler handled_inputs
  run_handler-runs h v = elim (Option-cases opts.dispatch) [
    | inl no_app ↦ inl (
        rw (no_app, run_handler)
          (handled_inputs-append v.events _ ∙ append-nil (handled_inputs v.events)))
    | inr (handler, app) ↦ elim (Option-cases (handler h (bucket h.connection_id v)).1) [
      | inl threw ↦ inr (rw (app, threw, run_handler) (handled_inputs-append v.events _))
      | inr (r, result) ↦ inr (
          rw (app, result, run_handler)
            (handled_inputs-append (v.events ++ handled h ∷ []) _
              ∙ append-nil (handled_inputs (v.events ++ handled h ∷ []))
              ∙ handled_inputs-append v.events _))
    ]
  ]

  pub apply-IsAnswer :
      (conn : ConnectionRecord) (d : PdpDecision) (g : Registry)
      → addressee msg w.registry ≡ some (id, conn)
      → conn.status ≡ active
      → is_revoked connection id w.registry ≡ false
      → opts.evaluate (evaluate_input opts meta conn id msg) ≡ some d
      → IsAnswer opts msg meta w
          (apply_decision opts msg meta id conn d (record w { registry = g }))
          id
  unfolding apply_decision audits handled_inputs
  apply-IsAnswer conn d g found is_active not_revoked decided = elim (Decision-cases d.decision) [
    | inr refused ↦
        rw (refused, apply_decision)
          (record {
            entry = entry;
            runs = [];
            at_most_one = omega arith;
            about_message = refl;
            one_entry =
                audits-append (w.events ++ audited id entry ∷ []) _
                ∙ append-nil (audits (w.events ++ audited id entry ∷ []))
                ∙ audits-append w.events _;
            all_runs =
                handled_inputs-append (w.events ++ audited id entry ∷ []) _
                ∙ append-nil (handled_inputs (w.events ++ audited id entry ∷ []))
                ∙ handled_inputs-append w.events _;
            permitted = tt;
            denied = λ e. refl;
          })
    | inl granted ↦
        rw (granted, apply_decision)
          (elim (run_handler-runs input noted) [
            | inl none_run ↦ record {
              entry = entry;
              runs = [];
              at_most_one = omega arith;
              about_message = refl;
              one_entry = run_handler-audits input noted ∙ audits-append w.events _;
              all_runs = none_run ∙ handled_inputs-append w.events _;
              permitted = tt;
              denied = λ e. refl;
            }
            | inr one_run ↦ record {
              entry = entry;
              runs = input ∷ [];
              at_most_one = omega arith;
              about_message = refl;
              one_entry = run_handler-audits input noted ∙ audits-append w.events _;
              all_runs =
                  one_run
                  ∙ ap (λ r. r ++ input ∷ [])
                      (handled_inputs-append w.events (audited id entry ∷ [])
                        ∙ append-nil (handled_inputs w.events));
              permitted = (
                record {
                  conn = conn;
                  found = found;
                  is_active = is_active;
                  not_revoked = not_revoked;
                  decision = d;
                  decided = decided;
                  is_allowed = granted;
                  own_token = refl;
                },
                tt,
              );
              denied = λ e. absurd (allow≢deny (sym granted ∙ e));
            }
          ])
  ]
    where
      obligations : List Obligation
      obligations = (conn.token).obligations ++ d.obligations

      entry : EntryInput
      entry = decision_entry msg d obligations

      noted : World
      noted = log_events (audited id entry ∷ []) (record w { registry = g })

      input : DispatchInput
      input = record {
        message = msg;
        meta = meta;
        connection = conn.token;
        connection_id = id;
        obligations = obligations;
        policies_fired = d.policies_fired;
      }
