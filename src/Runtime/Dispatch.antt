-- ===== src/Runtime/Dispatch.antt =====
-- The listener of packages/runtime/src/runtime.ts: what is audited and what is handled.
use mathlib.Core.Path.{subst}
use arp.Common.{
  ℕ, ◌≡◌, ◌⊎◌, refl, sym, ◌∙◌, ap, String, true, false, inl, inr, none, some, Bool-cases,
  Option-cases, string_eq, ◌==◌,
}
use arp.Message.{Message, Meta, extract_connection_id, is_response_type}
use arp.Common.JsMap.{get}
use arp.Registry.{
  active, connection, ConnectionRecord, Registry, get_connection, record_of, is_revoked,
  touch_last_message,
}
use arp.Runtime.Answers.{addressee, IsAnswer, active_status, refuse-IsAnswer, apply-IsAnswer}
use arp.Runtime.Frame.{touch-revocations, apply_decision-registry, apply_decision-memory}
use arp.Runtime.{
  Options, World, evaluate_input, evaluate_and_dispatch, on_message, decide, inactive_reason,
}

module _ (opts : Options) (now : ℕ) (msg : Message) (meta : Meta) (w : World) where
  -- The three ways in which a message ends: it is a response or names no connection that
  -- the registry can read; the decision point throws on it; it is answered.
  abbrev pub Outcome : World → Type 0
  Outcome w' =
      ((w' ≡ w) × ((is_response_type msg.type ≡ true) ⊎ (addressee msg w.registry ≡ none)))
      ⊎ ((id : String) × (conn : ConnectionRecord) × (addressee msg w.registry ≡ some (id, conn))
          × (is_response_type msg.type ≡ false)
          × ((w'.registry).revocations ≡ (w.registry).revocations)
          × ((j : String) → (id == j) ≡ false → get j w'.memory ≡ get j w.memory)
          × (((w'.events ≡ w.events)
                × (opts.evaluate (evaluate_input opts meta conn id msg) ≡ none))
              ⊎ IsAnswer opts msg meta w w' id))

  unnamed : addressee msg w.registry ≡ none → Outcome w
  unnamed h = inl (refl, inr h)

  decide-Outcome :
      (id : String) (conn : ConnectionRecord)
      → addressee msg w.registry ≡ some (id, conn)
      → conn.status ≡ active
      → is_revoked connection id w.registry ≡ false
      → (((decide opts msg meta id conn
              (record w { registry = (touch_last_message now id w.registry).0 })).events
            ≡ w.events)
          × (opts.evaluate (evaluate_input opts meta conn id msg) ≡ none))
        ⊎ IsAnswer opts msg meta w
            (decide opts msg meta id conn
              (record w { registry = (touch_last_message now id w.registry).0 }))
            id
  unfolding decide
  decide-Outcome id conn at running kept =
      elim (Option-cases (opts.evaluate (evaluate_input opts meta conn id msg))) [
        | inl threw ↦ inl (rw (threw, decide), threw)
        | inr (d, decided) ↦ inr (
            rw (decided, decide)
              (apply-IsAnswer opts msg meta w id conn d (touch_last_message now id w.registry).0 at
                running kept decided))
      ]

  decide-revocations :
      (id : String) (conn : ConnectionRecord)
      → (decide opts msg meta id conn
          (record w { registry = (touch_last_message now id w.registry).0 })).registry.revocations
        ≡ (w.registry).revocations
  unfolding decide
  decide-revocations id conn =
      elim (Option-cases (opts.evaluate (evaluate_input opts meta conn id msg))) [
        | inl threw ↦ rw (threw, decide) (touch-revocations now id w.registry)
        | inr (d, decided) ↦
            rw (decided, decide)
              (ap (λ (g : Registry). g.revocations)
                  (apply_decision-registry opts msg meta id conn d
                    (record w { registry = (touch_last_message now id w.registry).0 }))
                ∙ touch-revocations now id w.registry)
      ]

  decide-memory :
      (id : String) (conn : ConnectionRecord) (j : String)
      → (id == j) ≡ false
      → get j
          (decide opts msg meta id conn
            (record w { registry = (touch_last_message now id w.registry).0 })).memory
        ≡ get j w.memory
  unfolding decide
  decide-memory id conn j other =
      elim (Option-cases (opts.evaluate (evaluate_input opts meta conn id msg))) [
        | inl threw ↦ rw (threw, decide)
        | inr (d, decided) ↦
            rw (decided, decide)
              (apply_decision-memory opts msg meta id conn d
                (record w { registry = (touch_last_message now id w.registry).0 }) j other)
      ]

  dispatch-Outcome :
      is_response_type msg.type ≡ false → Outcome (evaluate_and_dispatch opts now msg meta w)
  unfolding evaluate_and_dispatch addressee
  dispatch-Outcome request = elim (Option-cases (extract_connection_id msg)) [
    | inl none_named ↦ rw (none_named, evaluate_and_dispatch) (unnamed (rw (none_named, addressee)))
    | inr (id, named) ↦ elim (Bool-cases (id == "")) [
      | inl empty ↦
          rw (named, empty, evaluate_and_dispatch) (unnamed (rw (named, empty, addressee)))
      | inr given ↦ elim (Option-cases (record_of (get_connection id w.registry))) [
        | inl missing ↦
            rw (named, given, missing, evaluate_and_dispatch)
              (unnamed (rw (named, given, missing, addressee)))
        | inr (conn, found) ↦
            let at : addressee msg w.registry ≡ some (id, conn) =
              rw (named, given, found, addressee) in
            elim (Option-cases (inactive_reason conn.status)) [
              | inr (reason, inactive) ↦
                  rw (named, given, found, inactive, evaluate_and_dispatch)
                    (inr (
                      id,
                      conn,
                      at,
                      request,
                      refl,
                      (λ j other. refl),
                      inr (refuse-IsAnswer opts msg meta w id reason),
                    ))
              | inl running ↦ elim (Bool-cases (is_revoked connection id w.registry)) [
                | inl gone ↦
                    rw (named, given, found, running, gone, evaluate_and_dispatch)
                      (inr (
                        id,
                        conn,
                        at,
                        request,
                        refl,
                        (λ j other. refl),
                        inr (refuse-IsAnswer opts msg meta w id "revoked"),
                      ))
                | inr kept ↦
                    rw (named, given, found, running, kept, evaluate_and_dispatch)
                      (inr (
                        id,
                        conn,
                        at,
                        request,
                        decide-revocations id conn,
                        decide-memory id conn,
                        decide-Outcome id conn at (active_status conn.status running) kept,
                      ))
              ]
            ]
      ]
    ]
  ]

  -- A message that is a response or names no connection that the registry can read changes nothing. Any other
  -- one changes no revocation and no memory but that of the connection that it names, and, unless the decision point throws on it, adds exactly one entry about it to the audit log
  -- of the connection that it names and no entry to another; the handler runs for it at most once,
  -- and only if the connection is active and not revoked and the decision point allows the request
  -- under the policies of this connection, never under an entry that denies.
  pub on_message_lem : Outcome (on_message opts now msg meta w)
  unfolding on_message
  on_message_lem = elim (Bool-cases (is_response_type msg.type)) [
    | inl response ↦ rw (response, on_message) (inl (refl, inl refl))
    | inr request ↦
        let same : on_message opts now msg meta w ≡ evaluate_and_dispatch opts now msg meta w =
          rw (request, on_message) in
        subst Outcome (sym same) (dispatch-Outcome request)
  ]
