-- ===== src/Runtime/Revoked.antt =====
-- The runtime with its registry, over a sequence of messages and administration calls: the
-- kill switch of packages/runtime/src/runtime.ts.
use mathlib.Core.List.{append-nil}
use mathlib.Core.Bool.{false≢true}
use arp.Common.{
  ℕ, ◌≡◌, refl, sym, ◌∙◌, ap, String, true, false, inl, inr, Option, Bool-cases, List, [], ◌∷◌,
  ◌++◌, string_eq, ◌==◌, keep, keep-append, All,
}
use arp.Message.{Message, Meta}
use arp.Registry.{connection, Registry, Call, perform, is_revoked}
use arp.Registry.Revoked.{perform_keeps}
use arp.Runtime.{Options, World, DispatchInput, Event, on_message}
use arp.Runtime.Events.{handled_inputs}
use arp.Runtime.Answers.{IsAnswer, IsPermitted}
use arp.Runtime.Dispatch.{on_message_lem}

-- the handler runs for one connection
abbrev pub runs_for : String → List Event → List DispatchInput
runs_for id es = keep (λ h. h.connection_id == id) (handled_inputs es)

-- an incoming message at a time, or a call of the registry by the owner
pub data Step : Type 0 where
  message : ℕ → Message → Meta → Step
  admin : Call → Step

-- runs that were permitted are not for a revoked connection
permitted_elsewhere :
    (opts : Options) (msg : Message) (meta : Meta) (g : Registry) (id : String)
    (hs : List DispatchInput)
    → is_revoked connection id g ≡ true
    → All (IsPermitted opts msg meta g) hs
    → keep (λ h. h.connection_id == id) hs ≡ []
permitted_elsewhere opts msg meta g id [] gone p = refl
permitted_elsewhere opts msg meta g id (h ∷ hs) gone (p, ps) =
    elim (Bool-cases (h.connection_id == id)) [
      | inl same ↦
          let here : is_revoked connection id g ≡ false =
            rw ((string_eq.agrees_iff h.connection_id id).0 same) at p.not_revoked in
          absurd (false≢true (sym here ∙ gone))
      | inr other ↦ rw other (permitted_elsewhere opts msg meta g id hs gone ps)
    ]

no_runs :
    {opts : Options} (w w' : World) (msg : Message) (meta : Meta) (id j : String)
    → is_revoked connection id w.registry ≡ true
    → IsAnswer opts msg meta w w' j
    → runs_for id w'.events ≡ runs_for id w.events
no_runs {opts} w w' msg meta id j gone answer =
    ap (keep (λ h. h.connection_id == id)) answer.all_runs
    ∙ keep-append _ (handled_inputs w.events) answer.runs
    ∙ ap (λ r. runs_for id w.events ++ r)
        (permitted_elsewhere opts msg meta w.registry id answer.runs gone answer.permitted)
    ∙ append-nil (runs_for id w.events)

module _ (parse_date : String → Option ℕ) (opts : Options) where
  unfoldable pub step : Step → World → World
  step (message now msg meta) w = on_message opts now msg meta w
  step (admin c) w = record w { registry = perform parse_date c w.registry }

  unfoldable pub run : List Step → World → World
  run [] w = w
  run (s ∷ ss) w = run ss (step s w)

  message_keeps :
      (now : ℕ) (msg : Message) (meta : Meta) (id : String) (w : World)
      → is_revoked connection id w.registry ≡ true
      → (is_revoked connection id (on_message opts now msg meta w).registry ≡ true)
        × (runs_for id (on_message opts now msg meta w).events ≡ runs_for id w.events)
  unfolding is_revoked
  message_keeps now msg meta id w gone = elim (on_message_lem opts now msg meta w) [
    | inl (same, why) ↦ rw same (gone, refl)
    | inr (j, conn, at, request, kept, apart, inl (same, threw)) ↦
        (rw kept gone, ap (runs_for id) same)
    | inr (j, conn, at, request, kept, apart, inr answer) ↦
        (rw kept gone, no_runs w (on_message opts now msg meta w) msg meta id j gone answer)
  ]

  -- Once a connection is revoked, no sequence of incoming messages and registry calls, calls that
  -- set its status back to active included, runs the handler for it again, and it stays revoked.
  pub revoked_never_handled :
      (ss : List Step) (id : String) (w : World)
      → is_revoked connection id w.registry ≡ true
      → (is_revoked connection id (run ss w).registry ≡ true)
        × (runs_for id (run ss w).events ≡ runs_for id w.events)
  unfolding run step
  revoked_never_handled [] id w gone = (gone, refl)
  revoked_never_handled (message now msg meta ∷ ss) id w gone =
      let (still, same) = message_keeps now msg meta id w gone in
      let (last, none_more) = revoked_never_handled ss id (on_message opts now msg meta w) still in
      (last, none_more ∙ same)
  revoked_never_handled (admin c ∷ ss) id w gone =
      revoked_never_handled ss id (record w { registry = perform parse_date c w.registry })
        (perform_keeps parse_date c connection id w.registry gone)
