-- ===== src/CloudRuntime/World.antt =====
-- What a dispatch of packages/cloud-runtime/src/dispatch.ts is given, answers and changes.
use arp.Common.{ℕ, String, Bool, Option, List, [], ◌∷◌, ◌++◌, string_eq}
use arp.Common.JsMap.{JsMap}
use arp.Spec.{Obligation}
use arp.Audit.{Decision, EntryInput}
use arp.Message.{Message}
use arp.Runtime.{EvaluateInput, PdpDecision}
use arp.Sessions.{AgentSessionHandle, SessionRegistry}
use arp.CloudDb.Tables.{TenantId}
use arp.CloudDb.Rows.{Database}
use arp.CloudRuntime.Request.{ActionMap}

-- `WsServerEvent` of kind inbound_message
pub record WsEvent : Type 0 where
  pub message_id : String
  pub msg_id : String
  pub msg_type : String
  pub envelope : String
  pub connection_id : Option String
  pub peer_did : Option String
  pub decision : Decision
  pub obligations : List Obligation
  pub policies_fired : List String

-- `DispatchResult`; `none` is an absent field
pub record Result : Type 0 where
  pub ok : Bool
  pub message_id : Option String
  pub decision : Decision
  pub reason : Option String
  pub queued : Option Bool
  pub pushed : Option Bool

-- What dispatch does besides the database, in order: an entry to the agent's audit log of a
-- connection, an event given to a session, a reply to a waiting sender, a delivery to a push runtime.
pub data Event : Type 0 where
  audited : String → String → EntryInput → Event
  offered : WsEvent → Event
  replied : String → Message → Event
  pushes : String → Message → Event

-- `pending` has the waiting calls by the threads whose replies they await (push.ts).
pub record World : Type 0 where
  pub db : Database
  pub pending : JsMap String String
  pub events : List Event

-- `DispatchContext`, at one reading of the clock. `period` is currentUsagePeriod, `decimal` prints a
-- number, `row_id` is the id that the database draws for the row.
pub record Context : Type 0 where
  pub tenant : TenantId
  pub agent_did : String
  pub now : ℕ
  pub actions : ActionMap
  pub evaluate : EvaluateInput → Option PdpDecision
  pub sessions : SessionRegistry
  pub is_open : AgentSessionHandle → Bool
  pub send : AgentSessionHandle → WsEvent → Bool
  pub push : Bool
  pub period : ℕ → String
  pub decimal : ℕ → String
  pub row_id : String

abbrev pub log_event : Event → World → World
log_event e w = record w { events = w.events ++ e ∷ [] }

abbrev pub set_db : Database → World → World
set_db db w = record w { db = db }
