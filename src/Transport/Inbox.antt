-- ===== src/Transport/Inbox.antt =====
-- The inbox of packages/transport/src/mailbox.ts, kept by receiving and delivering.
use arp.Common.{
  ℕ, ◌+◌, ◌≡◌, ◌⊎◌, refl, String, Bool, true, false, ◌||◌, inl, inr, some, Bool-cases, Option-cases,
  List, [], ◌∷◌, ◌++◌, arith, string_eq, nat_eq, ◌==◌, any,
}
use arp.Text.{trim}
use arp.Message.{Message, Meta}
use arp.Transport.{
  InboxEntry, Mailbox, Services, Received, accepted, refused, has_msg_id, enqueue, mark_rows,
  mark_delivered, present, extract_signer_did, receive_envelope, verified_message, deliver_entries,
  do_deliver, dequeue_pending,
}

-- UNIQUE(msg_id)
abbrev pub UniqueIds : List InboxEntry → Type 0
UniqueIds [] = Unit
UniqueIds (r ∷ rs) = (any (has_msg_id r.msg_id) rs ≡ false) × UniqueIds rs

any-append :
    (id : String) (rs new : List InboxEntry)
    → any (has_msg_id id) (rs ++ new) ≡ (any (has_msg_id id) rs || any (has_msg_id id) new)
any-append id [] new = refl
any-append id (r ∷ rs) new = ground (arith, any-append id rs new)

any-concat :
    (id : String) (rs : List InboxEntry) (r : InboxEntry)
    → r.msg_id ≡ id
    → any (has_msg_id id) (rs ++ r ∷ []) ≡ true
any-concat id rs r h = ground (arith, any-append id rs (r ∷ []), string_eq.agrees_iff r.msg_id id)

UniqueIds-concat :
    (rs : List InboxEntry) (r : InboxEntry)
    → UniqueIds rs
    → any (has_msg_id r.msg_id) rs ≡ false
    → UniqueIds (rs ++ r ∷ [])
UniqueIds-concat [] r u h = (refl, tt)
UniqueIds-concat (s ∷ rs) r (n, u) h = (
  ground (
    arith,
    any-append s.msg_id rs (r ∷ []),
    string_eq.agrees_iff s.msg_id r.msg_id,
    string_eq.agrees_iff r.msg_id s.msg_id,
  ),
  UniqueIds-concat rs r u (ground arith),
)

any-mark_rows :
    (id : String) (seq : ℕ) (rs : List InboxEntry)
    → any (has_msg_id id) (mark_rows seq rs) ≡ any (has_msg_id id) rs
unfolding mark_rows
any-mark_rows id seq [] = refl
any-mark_rows id seq (r ∷ rs) = ground (arith, any-mark_rows id seq rs)

UniqueIds-mark_rows : (seq : ℕ) (rs : List InboxEntry) → UniqueIds rs → UniqueIds (mark_rows seq rs)
unfolding mark_rows
UniqueIds-mark_rows seq [] u = tt
UniqueIds-mark_rows seq (r ∷ rs) (n, u) =
    (ground (arith, any-mark_rows r.msg_id seq rs), UniqueIds-mark_rows seq rs u)

module _ {P : Type 0} (s : Services P) where
  -- each row holds an envelope that verifies under its peer's key, to the message of its id
  abbrev pub AllVerified : List InboxEntry → Type 0
  AllVerified [] = Unit
  AllVerified (r ∷ rs) =
      ((msg : Message) × (verified_message s r ≡ some msg) × (msg.id ≡ r.msg_id)) × AllVerified rs

  AllVerified-concat :
      (rs : List InboxEntry) (r : InboxEntry) (msg : Message)
      → AllVerified rs
      → verified_message s r ≡ some msg
      → msg.id ≡ r.msg_id
      → AllVerified (rs ++ r ∷ [])
  AllVerified-concat [] r msg v p q = ((msg, p, q), tt)
  AllVerified-concat (t ∷ rs) r msg (h, v) p q = (h, AllVerified-concat rs r msg v p q)

  AllVerified-mark_rows :
      (seq : ℕ) (rs : List InboxEntry) → AllVerified rs → AllVerified (mark_rows seq rs)
  unfolding mark_rows verified_message
  AllVerified-mark_rows seq [] v = tt
  AllVerified-mark_rows seq (r ∷ rs) (h, v) = elim (Bool-cases (r.seq == seq)) [
    | inl here ↦ rw here (h, AllVerified-mark_rows seq rs v)
    | inr elsewhere ↦ rw elsewhere (h, AllVerified-mark_rows seq rs v)
  ]

  pub record IsInbox (m : Mailbox) : Type 0 where
    pub unique : UniqueIds m.rows
    pub all_verified : AllVerified m.rows

  enqueue-IsInbox :
      (msg : Message) (peer raw : String) (k : P) (at : ℕ) (m : Mailbox)
      → s.resolve peer ≡ some k
      → s.verify raw k ≡ some msg
      → IsInbox m
      → IsInbox (enqueue msg.id peer raw at m).0
  unfolding enqueue verified_message
  enqueue-IsInbox msg peer raw k at m resolved verified v =
      elim (Bool-cases (any (has_msg_id msg.id) m.rows)) [
        | inl known ↦ rw (known, enqueue) v
        | inr new ↦
            rw (new, enqueue)
              (record {
                unique = UniqueIds-concat m.rows _ v.unique new;
                all_verified =
                    AllVerified-concat m.rows _ msg v.all_verified
                      (rw (resolved, verified, verified_message)) refl;
              })
      ]

  -- what an answer of `receiveEnvelope` tells about the inbox
  abbrev pub Told : Mailbox → Mailbox → Received → Type 0
  Told m m' (refused e) = m' ≡ m
  Told m m' (accepted id) =
      (any (has_msg_id id) m'.rows ≡ true)
      × ((m' ≡ m)
          ⊎ ((r : InboxEntry) × (any (has_msg_id id) m.rows ≡ false)
              × (m'.rows ≡ m.rows ++ r ∷ [])
              × (r.msg_id ≡ id)
              × (r.delivered ≡ false)))

  enqueue-Told :
      (id peer raw : String) (at : ℕ) (m : Mailbox)
      → Told m (enqueue id peer raw at m).0 (accepted id)
  unfolding enqueue
  enqueue-Told id peer raw at m = elim (Bool-cases (any (has_msg_id id) m.rows)) [
    | inl known ↦ rw (known, enqueue) (known, inl refl)
    | inr new ↦ rw (new, enqueue) (any-concat id m.rows _ refl, inr (_, refl, refl, refl, refl))
  ]

  abbrev pub Kept : Mailbox → Mailbox × Received → Type 0
  Kept m (m', a) = IsInbox m' × Told m m' a

  -- A received envelope that is refused changes nothing. One that is accepted leaves an entry of its
  -- message id in the inbox: a new pending one at the end, or the one that was there. Either way the
  -- ids of the inbox stay distinct and every entry stays an envelope that verifies under its
  -- sender's key, to the message of its id.
  pub receive_envelope_lem :
      (now : ℕ) (raw : String) (m : Mailbox) → IsInbox m → Kept m (receive_envelope s now raw m)
  unfolding receive_envelope
  receive_envelope_lem now raw m v = elim (Bool-cases (trim raw == "")) [
    | inl blank ↦ rw (blank, receive_envelope) (v, refl)
    | inr full ↦ elim (Option-cases (s.peek (trim raw))) [
      | inl garbled ↦ rw (full, garbled, receive_envelope) (v, refl)
      | inr (preview, peeked) ↦
          elim (Option-cases (present (extract_signer_did preview.kid preview.from))) [
            | inl unsigned ↦ rw (full, peeked, unsigned, receive_envelope) (v, refl)
            | inr (peer, named) ↦ elim (Option-cases (s.resolve peer)) [
              | inl unknown ↦ rw (full, peeked, named, unknown, receive_envelope) (v, refl)
              | inr (k, resolved) ↦ elim (Option-cases (s.verify (trim raw) k)) [
                | inl forged ↦
                    rw (full, peeked, named, resolved, forged, receive_envelope) (v, refl)
                | inr (msg, verified) ↦
                    rw (full, peeked, named, resolved, verified, receive_envelope)
                      (
                        enqueue-IsInbox msg peer (trim raw) k now m resolved verified v,
                        enqueue-Told msg.id peer (trim raw) now m,
                      )
              ]
            ]
          ]
    ]
  ]

  module _ {W : Type 0} (handler : Message → Meta → W → W × Bool) where
    deliver_entries-IsInbox :
        (rs : List InboxEntry) (m : Mailbox) (w : W) (n : ℕ)
        → IsInbox m
        → IsInbox (deliver_entries s handler rs m w n).0
    unfolding deliver_entries mark_delivered
    deliver_entries-IsInbox [] m w n v = v
    deliver_entries-IsInbox (r ∷ rs) m w n v = elim (Option-cases (verified_message s r)) [
      | inl failed ↦ rw (failed, deliver_entries) (deliver_entries-IsInbox rs m w n v)
      | inr (msg, good) ↦
          let meta : Meta = record { peer_did = r.peer_did; received_at_ms = r.received_at_ms } in
          elim (Bool-cases ((handler msg meta w).1)) [
            | inr threw ↦
                rw (good, threw, deliver_entries)
                  (deliver_entries-IsInbox rs m ((handler msg meta w).0) n v)
            | inl handled ↦
                rw (good, handled, deliver_entries)
                  (deliver_entries-IsInbox rs (mark_delivered r.seq m) ((handler msg meta w).0)
                    (n + 1)
                    (record {
                      unique = UniqueIds-mark_rows r.seq m.rows v.unique;
                      all_verified = AllVerified-mark_rows r.seq m.rows v.all_verified;
                    }))
          ]
    ]

    -- what happens to a transport: an envelope arrives, or the inbox is drained
    pub data Step : Type 0 where
      arrive : ℕ → String → Step
      drain : Step

    unfoldable pub run : List Step → Mailbox → W → Mailbox × W
    run [] m w = (m, w)
    run (arrive now raw ∷ ss) m w = run ss (receive_envelope s now raw m).0 w
    run (drain ∷ ss) m w = let (m', w', n) = do_deliver s handler m w in run ss m' w'

    -- Any sequence of arrivals and deliveries, with a handler that may throw, keeps the message ids
    -- of the inbox distinct and every entry verified.
    pub run-IsInbox : (ss : List Step) (m : Mailbox) (w : W) → IsInbox m → IsInbox (run ss m w).0
    unfolding run do_deliver
    run-IsInbox [] m w v = v
    run-IsInbox (arrive now raw ∷ ss) m w v =
        run-IsInbox ss (receive_envelope s now raw m).0 w (receive_envelope_lem now raw m v).0
    run-IsInbox (drain ∷ ss) m w v =
        run-IsInbox ss _ _ (deliver_entries-IsInbox (dequeue_pending 50 m) m w 0 v)
