-- ===== src/Sessions/Tests.antt =====
-- Two sessions of one agent, and the theorem at them.
use arp.Common.{◌≡◌, refl, true, some, [], ◌∷◌}
use arp.Sessions.{AgentSessionHandle, SessionRegistry, add, get_by_agent, disconnect, perform_all}
use arp.Sessions.Latest.{get_by_agent-latest}

abbrev old : AgentSessionHandle
old = record { session_id = "s1"; did = "did:web:a"; tenant_id = "t" }

abbrev new : AgentSessionHandle
new = record { session_id = "s2"; did = "did:web:a"; tenant_id = "t" }

abbrev with_old : SessionRegistry
with_old = add old (record { by_session = []; by_agent = [] })

get_by_agent-latest_example :
    get_by_agent (λ h. true) "did:web:a" (perform_all (disconnect "s1" ∷ []) (add new with_old))
    ≡ some new
get_by_agent-latest_example =
    get_by_agent-latest (λ h. true) new (disconnect "s1" ∷ []) with_old refl (refl, tt)
