-- ===== src/CloudRuntime/Signed.antt =====
-- Envelopes in packages/cloud-runtime/src/dispatch.ts: what is handed on was signed by its peer.
use mathlib.Core.Path.{subst}
use arp.Common.{
  ◌≡◌, ◌⊎◌, refl, ◌∙◌, String, Option, none, some, inl, inr, List, ap, eqb, string_eq, ◌==◌,
  Bool-cases, Option-cases,
}
use arp.Text.{truthy}
use arp.Message.{Message}
use arp.CloudRuntime.World.{Context, World, Result}
use arp.CloudRuntime.Decision.{Verdict}
use arp.CloudDb.Rows.{ConnectionRow}
use arp.CloudRuntime.Outcome.{Permitted}
use arp.CloudRuntime.Effects.{NotAllowed, IsUntouched, same-IsUntouched, dispatch-OnlyPermitted}
use arp.CloudRuntime.Envelope.{
  VerificationMethod, Services, front, extract_ed25519_key, Opened, opened, rejected, verified,
  of_peer, open_envelope, dispatch_inbound, segments,
}

module _ {P : Type 0} (s : Services P) where
  -- the envelope's key id names the peer, and the peer's key verifies the envelope as this message
  abbrev pub IsSigned : String → String → Message → Type 0
  IsSigned envelope peer msg =
      (kid : String) × (methods : List VerificationMethod) × (k : P) × (s.header_kid
          (front b'.' envelope)
        ≡ some (some kid))
      × (peer ≡ front b'#' kid)
      × (s.resolve_did peer ≡ some methods)
      × (extract_ed25519_key s methods ≡ some k)
      × (s.verify_envelope envelope k ≡ some msg)

  Opened-cases :
      (o : Opened)
      → ((peer : String) × (msg : Message) × (o ≡ opened peer msg))
        ⊎ ((reason : String) × (o ≡ rejected reason))
  Opened-cases (opened peer msg) = inl (peer, msg, refl)
  Opened-cases (rejected reason) = inr (reason, refl)

  abbrev HasSender : String → Opened → Type 0
  HasSender envelope (opened peer msg) = IsSigned envelope peer msg
  HasSender envelope (rejected reason) = Unit

  verified-HasSender :
      (envelope kid : String) (methods : List VerificationMethod)
      → s.header_kid (front b'.' envelope) ≡ some (some kid)
      → s.resolve_did (front b'#' kid) ≡ some methods
      → HasSender envelope (verified s envelope (front b'#' kid) (extract_ed25519_key s methods))
  verified-HasSender envelope kid methods header doc =
      elim (Option-cases (extract_ed25519_key s methods)) [
        | inl keyless ↦ rw keyless tt
        | inr (k, at) ↦ elim (Option-cases (s.verify_envelope envelope k)) [
          | inl forged ↦ rw (at, forged, verified) tt
          | inr (msg, good) ↦ rw (at, good, verified) (kid, methods, k, header, refl, doc, at, good)
        ]
      ]

  of_peer-HasSender :
      (envelope kid : String)
      → s.header_kid (front b'.' envelope) ≡ some (some kid)
      → HasSender envelope (of_peer s envelope (front b'#' kid))
  of_peer-HasSender envelope kid header = elim (Bool-cases (front b'#' kid == "")) [
    | inl empty ↦ rw empty tt
    | inr named ↦ elim (Option-cases (s.resolve_did (front b'#' kid))) [
      | inl unknown ↦ rw (named, unknown) tt
      | inr (methods, doc) ↦ rw (named, doc) (verified-HasSender envelope kid methods header doc)
    ]
  ]

  truthy-some : (o : Option String) (k : String) → truthy o ≡ some k → o ≡ some k
  truthy-some none k h = cc
  truthy-some (some t) k h = elim (Bool-cases (t == "")) [
    | inl empty ↦ cc (rw empty at h)
    | inr given ↦ rw given at h
  ]

  open_envelope-HasSender : (envelope : String) → HasSender envelope (open_envelope s envelope)
  unfolding open_envelope
  open_envelope-HasSender envelope = elim (Bool-cases (eqb (segments envelope) 3)) [
    | inr other ↦ rw (other, open_envelope) tt
    | inl three ↦ elim (Option-cases (s.header_kid (front b'.' envelope))) [
      | inl bad ↦ rw (three, bad, open_envelope) tt
      | inr (kid, header) ↦ elim (Option-cases (truthy kid)) [
        | inl missing ↦ rw (three, header, missing, open_envelope) tt
        | inr (k, given) ↦
            rw (three, header, given, open_envelope)
              (of_peer-HasSender envelope k (header ∙ ap some (truthy-some kid k given)))
      ]
    ]
  ]

  -- the conclusion of `dispatch_inbound_signed`
  abbrev pub OnlySigned : Context → String → World → Option Result × World → Type 0
  OnlySigned x envelope w o =
      ((peer : String) × (msg : Message) × (c : ConnectionRow) × (v : Verdict) × IsSigned envelope
          peer msg
        × Permitted x msg peer w.db c v)
      ⊎ (NotAllowed o.0 × IsUntouched w o.1)

  -- An envelope is handed on, stored or counted only if the key of the peer that its key id names, the
  -- first Ed25519 key of the peer's document, verifies it, and the message it carries is permitted for
  -- that peer. Else the answer is no permission, and the stored messages, the usage, the awaited
  -- replies and what was handed on are as before; an audit entry may be added and the last use of a
  -- connection noted.
  pub dispatch_inbound_signed :
      (x : Context) (envelope : String) (w : World)
      → OnlySigned x envelope w (dispatch_inbound s x envelope w)
  unfolding dispatch_inbound
  dispatch_inbound_signed x envelope w = elim (Opened-cases (open_envelope s envelope)) [
    | inr (reason, bad) ↦ rw (bad, dispatch_inbound) (inr (refl, same-IsUntouched w))
    | inl (peer, msg, good) ↦
        let signed : IsSigned envelope peer msg =
          subst (HasSender envelope) good (open_envelope-HasSender envelope) in
        rw (good, dispatch_inbound)
          (elim (dispatch-OnlyPermitted x msg peer envelope w) [
            | inl (c, v, allows) ↦ inl (peer, msg, c, v, signed, allows)
            | inr kept ↦ inr kept
          ])
  ]
