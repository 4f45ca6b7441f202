-- ===== src/Runtime/Tests.antt =====
-- A runtime with one connection, a message to it, and the theorems at them.
use arp.Common.{ℕ, ◌≡◌, refl, String, true, Option, none, some, List, [], ◌∷◌, string_eq}
use arp.Spec.{ConnectionToken, str, obj, end, member}
use arp.Message.{Message, Meta, default_request_mapper}
use arp.Audit.{allow}
use arp.Registry.{
  Registry, update, active, connection, create_connection, revoke_connection, is_revoked,
  select_conn, insert_revoke,
}
use arp.Runtime.{
  Options, World, PdpDecision, EvaluateInput, DispatchInput, DispatchResult, Bucket, on_message,
}
use arp.Runtime.Events.{handled_inputs}
use arp.Runtime.Dispatch.{Outcome, on_message_lem}
use arp.Runtime.Revoked.{Step, message, admin, run, runs_for, revoked_never_handled}

abbrev token : ConnectionToken
token = record {
  connection_id = "conn_1";
  issuer = "did:web:bob";
  subject = "did:web:alice";
  audience = "did:web:bob";
  purpose = "notes";
  cedar_policies = "permit" ∷ [];
  obligations = [];
  scope_catalog_version = "v1";
  expires = "2030-01-01T00:00:00Z";
  sigs = [];
  replaces = none;
}

abbrev parse_date : String → Option ℕ
parse_date s = none

abbrev open_registry : Registry
open_registry =
    (create_connection parse_date 1000
      (record {
        token = token;
        token_jws = some token;
        label = none;
        self_did = "did:web:alice";
        metadata = none;
      })
      (record { connections = []; spend = []; revocations = [] })).0

abbrev allow_all : EvaluateInput → Option PdpDecision
allow_all i =
    some
      (record { decision = allow; obligations = []; policies_fired = "policy0" ∷ []; reasons = [] })

abbrev echo : DispatchInput → Bucket → Bucket × Option DispatchResult
echo h b = (b, some (record { reply_type = none; reply = some (str "hi") }))

abbrev options : Options
options = record {
  request_mapper = default_request_mapper;
  evaluate = allow_all;
  dispatch = some echo;
}

abbrev hello : Message
hello = record {
  id = "m1";
  type = "https://didcomm.org/arp/1.0/request";
  thid = none;
  created_time = none;
  body = some (member "connection_id" (str "conn_1") (member "resource" (str "notes:7") end));
}

abbrev from_bob : Meta
from_bob = record { peer_did = "did:web:bob"; received_at_ms = 2000 }

maps_request : default_request_mapper hello ≡ record {
  action = "request";
  resource = record { type = "notes"; id = "7"; attrs = none };
  context = obj end;
}
unfolding default_request_mapper
maps_request = refl

abbrev before : World
before = record { registry = open_registry; memory = []; events = [] }

on_message_lem_example :
    Outcome options 2000 hello from_bob before (on_message options 2000 hello from_bob before)
on_message_lem_example = on_message_lem options 2000 hello from_bob before

abbrev after_revocation : World
after_revocation = record before {
  registry = (revoke_connection 1500 "conn_1" "closed" open_registry).0;
}

is_gone : is_revoked connection "conn_1" after_revocation.registry ≡ true
unfolding revoke_connection create_connection is_revoked select_conn insert_revoke
is_gone = refl

abbrev steps : List Step
steps = admin (update "conn_1" active) ∷ message 2000 hello from_bob ∷ []

revoked_never_handled_example :
    (is_revoked connection "conn_1" (run parse_date options steps after_revocation).registry ≡ true)
    × (runs_for "conn_1" (run parse_date options steps after_revocation).events ≡ [])
unfolding handled_inputs
revoked_never_handled_example =
    revoked_never_handled parse_date options steps "conn_1" after_revocation is_gone
