-- ===== src/Runtime/Frame.antt =====
-- What a decision of packages/runtime/src/runtime.ts leaves as it was: revocations and the memories
-- of other connections.
use arp.Common.{ℕ, ◌≡◌, ◌∙◌, String, false, inl, inr, Option-cases, string_eq, ◌==◌}
use arp.Message.{Message, Meta}
use arp.Common.JsMap.{get, set, get-set}
use arp.Registry.{ConnectionRecord, Registry, touch_last_message, select_conn}
use arp.Runtime.Answers.{Decision-cases}
use arp.Runtime.{bucket, apply_decision, Options, World, DispatchInput, PdpDecision, run_handler}

pub touch-revocations :
    (now : ℕ) (id : String) (g : Registry)
    → (touch_last_message now id g).0.revocations ≡ g.revocations
unfolding touch_last_message
touch-revocations now id g = elim (Option-cases (select_conn id g.connections)) [
  | inl missing ↦ rw (missing, touch_last_message)
  | inr (r, found) ↦ rw (found, touch_last_message)
]

run_handler-registry :
    (opts : Options) (h : DispatchInput) (w : World) → (run_handler opts h w).registry ≡ w.registry
unfolding run_handler
run_handler-registry opts h w = elim (Option-cases opts.dispatch) [
  | inl no_app ↦ rw (no_app, run_handler)
  | inr (handler, app) ↦ elim (Option-cases (handler h (bucket h.connection_id w)).1) [
    | inl threw ↦ rw (app, threw, run_handler)
    | inr (r, result) ↦ rw (app, result, run_handler)
  ]
]

pub apply_decision-registry :
    (opts : Options) (msg : Message) (meta : Meta) (id : String) (conn : ConnectionRecord)
    (d : PdpDecision) (w : World)
    → (apply_decision opts msg meta id conn d w).registry ≡ w.registry
unfolding apply_decision
apply_decision-registry opts msg meta id conn d w = elim (Decision-cases d.decision) [
  | inr refused ↦ rw (refused, apply_decision)
  | inl granted ↦ rw (granted, apply_decision) (run_handler-registry opts _ _)
]

-- the memories of the other connections stay as they were
run_handler-memory :
    (opts : Options) (h : DispatchInput) (w : World) (j : String)
    → (h.connection_id == j) ≡ false
    → get j (run_handler opts h w).memory ≡ get j w.memory
unfolding run_handler
run_handler-memory opts h w j other = elim (Option-cases opts.dispatch) [
  | inl no_app ↦ rw (no_app, run_handler)
  | inr (handler, app) ↦
      let kept = (handler h (bucket h.connection_id w)).0 in
      let apart : get j (set h.connection_id kept w.memory) ≡ get j w.memory =
        get-set h.connection_id j kept w.memory ∙ rw other in
      elim (Option-cases (handler h (bucket h.connection_id w)).1) [
        | inl threw ↦ rw (app, threw, run_handler) apart
        | inr (r, result) ↦ rw (app, result, run_handler) apart
      ]
]

pub apply_decision-memory :
    (opts : Options) (msg : Message) (meta : Meta) (id : String) (conn : ConnectionRecord)
    (d : PdpDecision) (w : World) (j : String)
    → (id == j) ≡ false
    → get j (apply_decision opts msg meta id conn d w).memory ≡ get j w.memory
unfolding apply_decision
apply_decision-memory opts msg meta id conn d w j other = elim (Decision-cases d.decision) [
  | inr refused ↦ rw (refused, apply_decision)
  | inl granted ↦ rw (granted, apply_decision) (run_handler-memory opts _ _ j other)
]
