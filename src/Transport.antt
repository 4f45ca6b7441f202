-- ===== src/Transport.antt =====
-- packages/transport/src/transport.ts and mailbox.ts: receiving signed envelopes into an inbox and
-- delivering them to the handler. The JWS decoder and verifier, the key resolver and the handler are
-- parameters; the polling timer is a sequence of deliveries.
pub mod Inbox
mod Tests
use arp.Common.{
  ℕ, zero, suc, ◌+◌, String, Bool, true, false, not, Option, none, some, List, [], ◌∷◌, ◌++◌, ltb,
  string_eq, nat_eq, ◌==◌, if◌then◌else◌, any, keep, take, length,
}
use arp.Text.{trim, before_first}
use arp.Message.{Message, Meta}

pub record InboxEntry : Type 0 where
  pub seq : ℕ
  pub msg_id : String
  pub peer_did : String
  pub envelope_raw : String
  pub received_at_ms : ℕ
  pub delivered : Bool

-- the table `inbox`, in the order of `seq`, and the next number that AUTOINCREMENT gives
pub record Mailbox : Type 0 where
  pub rows : List InboxEntry
  pub next_seq : ℕ

abbrev pub has_msg_id : String → InboxEntry → Bool
has_msg_id id r = r.msg_id == id

-- `INSERT OR IGNORE`: a row of the same `msg_id` stays.
unfoldable pub enqueue : String → String → String → ℕ → Mailbox → Mailbox × Option ℕ
enqueue id peer raw at m = if any (has_msg_id id) m.rows then (m, none) else (
  record {
    rows =
        m.rows
        ++ record {
          seq = m.next_seq;
          msg_id = id;
          peer_did = peer;
          envelope_raw = raw;
          received_at_ms = at;
          delivered = false;
        }
          ∷ [];
    next_seq = m.next_seq + 1;
  },
  some m.next_seq,
)

abbrev pub is_pending : InboxEntry → Bool
is_pending r = not r.delivered

unfoldable pub dequeue_pending : ℕ → Mailbox → List InboxEntry
dequeue_pending limit m = take limit (keep is_pending m.rows)

abbrev pub delivered_row : InboxEntry → InboxEntry
delivered_row r = record r { delivered = true }

mark_rows : ℕ → List InboxEntry → List InboxEntry
mark_rows seq [] = []
mark_rows seq (r ∷ rs) =
    let rest = mark_rows seq rs in (if r.seq == seq then delivered_row r else r) ∷ rest

unfoldable pub mark_delivered : ℕ → Mailbox → Mailbox
unfolding mark_rows
mark_delivered seq m = record m { rows = mark_rows seq m.rows }

unfoldable pub size_pending : Mailbox → ℕ
size_pending m = length (keep is_pending m.rows)

pub data TransportError : Type 0 where
  invalid_envelope : TransportError
  unknown_peer : TransportError
  invalid_signature : TransportError

pub data Received : Type 0 where
  accepted : String → Received
  refused : TransportError → Received

-- the unverified header and payload of an envelope: the key id and the sender
pub record Preview : Type 0 where
  pub kid : Option String
  pub from : Option String

-- `none` where the code throws, or the verification answers that it failed. P are public keys.
pub record Services (P : Type 0) : Type 0 where
  pub peek : String → Option Preview
  pub resolve : String → Option P
  pub verify : String → P → Option Message

abbrev did_of_kid : String → String
did_of_kid kid = elim (before_first b'#' kid) [
  | none ↦ kid
  | some front ↦ if front == "" then kid else front
]

-- the DID part of the key id, or else the sender; an empty text is none
unfoldable pub extract_signer_did : Option String → Option String → Option String
extract_signer_did none from = from
extract_signer_did (some kid) from = if kid == "" then from else some (did_of_kid kid)

abbrev pub present : Option String → Option String
present none = none
present (some s) = if s == "" then none else some s

module _ {P : Type 0} (s : Services P) where
  unfoldable pub receive_envelope : ℕ → String → Mailbox → Mailbox × Received
  receive_envelope now raw m =
      let trimmed = trim raw in
      elim (trimmed == "") [
        | true ↦ (m, refused invalid_envelope)
        | false ↦ elim (s.peek trimmed) [
          | none ↦ (m, refused invalid_envelope)
          | some preview ↦ elim (present (extract_signer_did preview.kid preview.from)) [
            | none ↦ (m, refused invalid_envelope)
            | some peer ↦ elim (s.resolve peer) [
              | none ↦ (m, refused unknown_peer)
              | some k ↦ elim (s.verify trimmed k) [
                | none ↦ (m, refused invalid_signature)
                | some msg ↦ ((enqueue msg.id peer trimmed now m).0, accepted msg.id)
              ]
            ]
          ]
        ]
      ]

  -- the message of an entry, verified again before its delivery
  unfoldable pub verified_message : InboxEntry → Option Message
  verified_message r = elim (s.resolve r.peer_did) [
    | none ↦ none
    | some k ↦ s.verify r.envelope_raw k
  ]

  -- The handler changes the application's state W and may throw, which leaves the entry pending.
  module _ {W : Type 0} (handler : Message → Meta → W → W × Bool) where
    abbrev meta_of : InboxEntry → Meta
    meta_of r = record { peer_did = r.peer_did; received_at_ms = r.received_at_ms }

    -- the loop of `doDeliver` over the entries taken from the inbox
    unfoldable pub deliver_entries : List InboxEntry → Mailbox → W → ℕ → Mailbox × W × ℕ
    deliver_entries [] m w n = (m, w, n)
    deliver_entries (r ∷ rs) m w n = elim (verified_message r) [
      | none ↦ deliver_entries rs m w n
      | some msg ↦ elim ((handler msg (meta_of r) w).1) [
        | false ↦ deliver_entries rs m ((handler msg (meta_of r) w).0) n
        | true ↦ deliver_entries rs (mark_delivered r.seq m) ((handler msg (meta_of r) w).0) (n + 1)
      ]
    ]

    unfoldable pub do_deliver : Mailbox → W → Mailbox × W × ℕ
    unfolding deliver_entries
    do_deliver m w = deliver_entries (dequeue_pending 50 m) m w 0
