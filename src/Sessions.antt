-- ===== src/Sessions.antt =====
-- packages/cloud-runtime/src/sessions.ts: the open sessions of agents, by session and by agent.
-- Closing a superseded socket is I/O; whether a socket is open is an argument.
pub mod Latest
mod Tests
use arp.Common.{
  ℕ, String, Bool, true, false, ◌&&◌, Option, none, some, List, [], ◌∷◌, string_eq, ◌==◌,
  if◌then◌else◌, length,
}
use arp.Common.JsMap.{JsMap, get, set, delete}

pub record AgentSessionHandle : Type 0 where
  pub session_id : String
  pub did : String
  pub tenant_id : String

pub record SessionRegistry : Type 0 where
  pub by_session : JsMap String AgentSessionHandle
  pub by_agent : JsMap String AgentSessionHandle

-- the sessions without the one that a new session of the same agent supersedes
abbrev superseded : AgentSessionHandle → SessionRegistry → JsMap String AgentSessionHandle
superseded h r = elim (get h.did r.by_agent) [
  | none ↦ r.by_session
  | some prev ↦
      if prev.session_id == h.session_id then r.by_session else delete prev.session_id r.by_session
]

unfoldable pub add : AgentSessionHandle → SessionRegistry → SessionRegistry
add h r = record {
  by_session = set h.session_id h (superseded h r);
  by_agent = set h.did h r.by_agent;
}

-- the index by agent without a session, if it still points at this session
abbrev pub unindexed :
    String → String → JsMap String AgentSessionHandle → JsMap String AgentSessionHandle
unindexed did id m = elim (get did m) [
  | none ↦ m
  | some current ↦ if current.session_id == id then delete did m else m
]

unfoldable pub remove : String → SessionRegistry → SessionRegistry
remove id r = elim (get id r.by_session) [
  | none ↦ r
  | some h ↦ record {
    by_session = delete id r.by_session;
    by_agent = unindexed h.did id r.by_agent;
  }
]

abbrev if_open : (AgentSessionHandle → Bool) → Option AgentSessionHandle → Option AgentSessionHandle
if_open is_open none = none
if_open is_open (some h) = if is_open h then some h else none

unfoldable pub get_by_agent :
    (AgentSessionHandle → Bool) → String → SessionRegistry → Option AgentSessionHandle
get_by_agent is_open did r = if_open is_open (get did r.by_agent)

unfoldable pub get_by_session :
    (AgentSessionHandle → Bool) → String → SessionRegistry → Option AgentSessionHandle
get_by_session is_open id r = if_open is_open (get id r.by_session)

unfoldable pub list_by_tenant :
    (AgentSessionHandle → Bool) → String → JsMap String AgentSessionHandle → List AgentSessionHandle
list_by_tenant is_open tenant [] = []
list_by_tenant is_open tenant ((did, h) ∷ m) =
    let rest = list_by_tenant is_open tenant m in
    if h.tenant_id == tenant && is_open h then h ∷ rest else rest

pub size : SessionRegistry → ℕ
size r = length r.by_session

pub data Call : Type 0 where
  connect : AgentSessionHandle → Call
  disconnect : String → Call

unfoldable pub perform_all : List Call → SessionRegistry → SessionRegistry
perform_all [] r = r
perform_all (connect h ∷ cs) r = perform_all cs (add h r)
perform_all (disconnect id ∷ cs) r = perform_all cs (remove id r)
