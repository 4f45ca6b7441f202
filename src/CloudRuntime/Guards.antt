-- ===== src/CloudRuntime/Guards.antt =====
-- The connection of a message and the guards before its decision
-- (packages/cloud-runtime/src/dispatch.ts).
use arp.Common.{
  ℕ, ◌+◌, ◌-◌, ◌*◌, String, Bool, true, false, not, ◌&&◌, ◌||◌, Option, none, some, is_some, List,
  [], ◌∷◌, keep, ltb, leb, string_eq, ◌==◌, if◌then◌else◌,
}
use arp.Text.{concat}
use arp.Message.{Message}
use arp.CloudDb.Rows.{ConnectionRow, connection, Database}
use arp.CloudDb.Connections.{list_connections, get_connection}
use arp.CloudDb.Records.{is_revoked}
use arp.CloudRuntime.World.{Context}

pub data Resolution : Type 0 where
  found : ConnectionRow → Resolution
  denied : String → Resolution

-- the row is of this agent and this peer, from either side
abbrev pub links : String → String → ConnectionRow → Bool
links agent peer c =
    (c.agent_did == agent && c.peer_did == peer) || (c.peer_did == agent && c.agent_did == peer)

abbrev only_match : Option String → List ConnectionRow → Resolution
only_match explicit [] =
    denied (if is_some explicit then "unknown_connection" else "missing_connection_id")
only_match explicit (c ∷ []) = found c
only_match explicit (c ∷ d ∷ cs) = denied "ambiguous_connection"

unfoldable pub resolve_by_peer : Context → Option String → String → Database → Resolution
resolve_by_peer x explicit peer db = only_match explicit (
    keep (links x.agent_did peer)
      (list_connections x.tenant (record { agent_did = none; status = some "active" }) db))

unfoldable pub resolve_connection : Context → Option String → String → Database → Resolution
unfolding resolve_by_peer
resolve_connection x explicit peer db = elim explicit [
  | none ↦ resolve_by_peer x none peer db
  | some id ↦ elim (get_connection x.tenant id db) [
    | some c ↦ found c
    | none ↦ resolve_by_peer x (some id) peer db
  ]
]

-- a refusal before the decision, with whether the audit log gets an entry for it
pub record Refusal : Type 0 where
  pub noted : Bool
  pub reason : String

abbrev pub involves : String → ConnectionRow → Bool
involves agent c = c.agent_did == agent || c.peer_did == agent

abbrev pub has_expired : ℕ → ConnectionRow → Bool
has_expired now c = elim c.expires_at [ none ↦ false | some at ↦ leb at now ]

-- more than five minutes off the clock
abbrev pub is_stale : ℕ → Message → Bool
is_stale now msg = elim msg.created_time [
  | none ↦ false
  | some at ↦ ltb 300000 ((now - at * 1000) + (at * 1000 - now))
]

unfoldable pub refusal : Context → Message → ConnectionRow → Database → Option Refusal
refusal x msg c db =
    if not (involves x.agent_did c)
    then some (record { noted = false; reason = "wrong_agent" })
    else if not (c.status == "active")
    then some (record { noted = true; reason = concat "connection_" c.status })
    else if has_expired x.now c
    then some (record { noted = true; reason = "connection_expired" })
    else if is_revoked x.tenant x.agent_did connection c.connection_id db
    then some (record { noted = true; reason = "revoked" })
    else if is_stale x.now msg
    then some (record { noted = false; reason = "stale_envelope" })
    else none
