-- ===== src/Sessions/Latest.antt =====
-- The latest session of an agent in packages/cloud-runtime/src/sessions.ts.
use mathlib.Core.Bool.{false≢true}
use mathlib.Core.Option.{some-injective}
use arp.Common.{
  sym, ◌∙◌, ◌≡◌, refl, String, Bool, true, false, some, Bool-cases, Option-cases, inl, inr, List,
  [], ◌∷◌, arith, string_eq, ◌==◌,
}
use arp.Common.JsMap.{JsMap, get, get-set, get-delete}
use arp.Sessions.{
  AgentSessionHandle, SessionRegistry, add, remove, unindexed, get_by_agent, Call, connect,
  disconnect, perform_all,
}

-- calls that neither connect the agent again nor disconnect its session
abbrev pub Unrelated : AgentSessionHandle → List Call → Type 0
Unrelated h [] = Unit
Unrelated h (connect g ∷ cs) = ((g.did == h.did) ≡ false) × Unrelated h cs
Unrelated h (disconnect id ∷ cs) = ((h.session_id == id) ≡ false) × Unrelated h cs

unindexed_keeps :
    (h : AgentSessionHandle) (did id : String) (m : JsMap String AgentSessionHandle)
    → (h.session_id == id) ≡ false
    → get h.did m ≡ some h
    → get h.did (unindexed did id m) ≡ some h
unindexed_keeps h did id m other found = elim (Option-cases (get did m)) [
  | inl absent ↦ rw (absent, unindexed) found
  | inr (current, at) ↦ elim (Bool-cases (current.session_id == id)) [
    | inr kept ↦ rw (at, kept, unindexed) found
    | inl gone ↦
        let elsewhere : (did == h.did) ≡ false = elim (Bool-cases (did == h.did)) [
          | inr apart ↦ apart
          | inl same ↦
              let here : get h.did m ≡ some current =
                rw (← (string_eq.agrees_iff did h.did).0 same) at in
              absurd (differs current here gone)
        ] in
        rw (at, gone, unindexed) (ground (arith, get-delete did h.did m))
  ]
]
  where
    differs :
        (current : AgentSessionHandle)
        → get h.did m ≡ some current
        → (current.session_id == id) ≡ true
        → ⊥
    differs current here gone =
        let same : h ≡ current = some-injective h current (sym found ∙ here) in
        false≢true (sym other ∙ rw same gone)

remove_keeps :
    (h : AgentSessionHandle) (id : String) (r : SessionRegistry)
    → (h.session_id == id) ≡ false
    → get h.did r.by_agent ≡ some h
    → get h.did (remove id r).by_agent ≡ some h
unfolding remove
remove_keeps h id r other found = elim (Option-cases (get id r.by_session)) [
  | inl absent ↦ rw (absent, remove) found
  | inr (g, at) ↦ rw (at, remove) (unindexed_keeps h g.did id r.by_agent other found)
]

perform_all_keeps :
    (h : AgentSessionHandle) (cs : List Call) (r : SessionRegistry)
    → Unrelated h cs
    → get h.did r.by_agent ≡ some h
    → get h.did (perform_all cs r).by_agent ≡ some h
unfolding perform_all add
perform_all_keeps h [] r u found = found
perform_all_keeps h (connect g ∷ cs) r (apart, u) found =
    perform_all_keeps h cs (add g r) u (ground (arith, get-set g.did h.did g r.by_agent))
perform_all_keeps h (disconnect id ∷ cs) r (other, u) found =
    perform_all_keeps h cs (remove id r) u (remove_keeps h id r other found)

-- The session that an agent opened last is the one that messages for it go to, while it is open,
-- whatever other agents connect and other sessions disconnect, the one that it superseded included.
pub get_by_agent-latest :
    (is_open : AgentSessionHandle → Bool) (h : AgentSessionHandle) (cs : List Call)
    (r : SessionRegistry)
    → is_open h ≡ true
    → Unrelated h cs
    → get_by_agent is_open h.did (perform_all cs (add h r)) ≡ some h
unfolding get_by_agent add
get_by_agent-latest is_open h cs r up u =
    rw
      (
        perform_all_keeps h cs (add h r) u
            (ground (arith, get-set h.did h.did h r.by_agent, string_eq.agrees_iff h.did h.did)),
        up,
      )
      refl
