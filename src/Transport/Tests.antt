-- ===== src/Transport/Tests.antt =====
-- An inbox fed with two envelopes of one message, and the theorems at it.
use arp.Common.{
  ◌≡◌, refl, String, Bool, true, false, Option, none, some, List, [], ◌∷◌, string_eq, ◌==◌,
}
use arp.Message.{Message, Meta}
use arp.Text.{trim, before_first}
use arp.Transport.{
  Mailbox, Services, receive_envelope, do_deliver, dequeue_pending, extract_signer_did, enqueue,
  verified_message, mark_delivered,
}
use arp.Transport.Inbox.{IsInbox, Kept, Step, arrive, drain, run, receive_envelope_lem, run-IsInbox}

abbrev message : String → Message
message id = record {
  id = id;
  type = "https://didcomm.org/arp/1.0/request";
  thid = none;
  created_time = none;
  body = none;
}

abbrev services : Services String
services = record {
  peek = λ raw. some (record { kid = some "did:web:bob#key-1"; from = none });
  resolve = λ did. if_bob did;
  verify = λ raw k. some (message raw);
}
  where
    if_bob : String → Option String
    if_bob did = elim (did == "did:web:bob") [ true ↦ some "bob_key" | false ↦ none ]

abbrev empty : Mailbox
empty = record { rows = []; next_seq = 1 }

abbrev collect : Message → Meta → List String → List String × Bool
collect msg meta seen = (msg.id ∷ seen, true)

empty-IsInbox : IsInbox services empty
empty-IsInbox = record { unique = tt; all_verified = tt }

abbrev steps : List (Step services collect)
steps = arrive 1 " m1 " ∷ arrive 2 "m1" ∷ drain ∷ drain ∷ []

run-IsInbox_example : IsInbox services (run services collect steps empty []).0
run-IsInbox_example = run-IsInbox services collect steps empty [] empty-IsInbox

receive_envelope_lem_example : Kept services empty (receive_envelope services 1 " m1 " empty)
receive_envelope_lem_example = receive_envelope_lem services 1 " m1 " empty empty-IsInbox

-- the second envelope of the same id is kept out, and a second delivery finds nothing to do
delivers_once : (run services collect steps empty []).1 ≡ "m1" ∷ []
unfolding run do_deliver dequeue_pending receive_envelope trim extract_signer_did before_first
    enqueue verified_message mark_delivered
delivers_once = refl
