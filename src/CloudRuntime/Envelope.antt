-- ===== src/CloudRuntime/Envelope.antt =====
-- Dispatch of an envelope (packages/cloud-runtime/src/dispatch.ts, dispatchInbound): its key id, the
-- peer's DID document and key, the signature. The header's decoder, the resolver, the decoder of
-- keys and the verifier are parameters, `none` where they throw or find nothing.
use Prim.Native.Char.{code}
use arp.Common.{
  ℕ, suc, String, Option, none, some, List, [], ◌∷◌, eqb, string_eq, ◌==◌, if◌then◌else◌, or_else,
}
use arp.Text.{before_first, truthy}
use arp.Message.{Message}
use arp.CloudRuntime.World.{Context, World, Result}
use arp.CloudRuntime.Delivery.{refused}
use arp.CloudRuntime.Inbound.{dispatch_verified_message}

pub record VerificationMethod : Type 0 where
  pub type : String
  pub public_key_multibase : Option String

-- P are raw public keys.
pub record Services (P : Type 0) : Type 0 where
  -- the `kid` of the header that a segment encodes; `none` where there is no object with a `kid`
  pub header_kid : String → Option (Option String)
  pub resolve_did : String → Option (List VerificationMethod)
  pub multibase_to_raw : String → Option P
  pub verify_envelope : String → P → Option Message

-- the sender of an envelope and its message, or why it is refused
pub data Opened : Type 0 where
  opened : String → Message → Opened
  rejected : String → Opened

-- `envelope.split('.').length`
unfoldable pub segments : String → ℕ
segments String.[] = 1
segments (String.◌∷◌ c s) = let rest = segments s in if eqb (code c) b'.' then suc rest else rest

-- `s.split(c)[0]`
abbrev pub front : ℕ → String → String
front c s = or_else (before_first c s) s

module _ {P : Type 0} (s : Services P) where
  -- the first Ed25519 method with a key decides, even where that key does not decode
  unfoldable pub extract_ed25519_key : List VerificationMethod → Option P
  extract_ed25519_key [] = none
  extract_ed25519_key (m ∷ ms) =
      let rest = extract_ed25519_key ms in
      if m.type == "Ed25519VerificationKey2020"
      then elim (truthy m.public_key_multibase) [ none ↦ rest | some k ↦ s.multibase_to_raw k ]
      else rest

  abbrev pub verified : String → String → Option P → Opened
  verified envelope peer none = rejected "no_peer_ed25519_key"
  verified envelope peer (some k) = elim (s.verify_envelope envelope k) [
    | none ↦ rejected "invalid_signature"
    | some msg ↦ opened peer msg
  ]

  abbrev pub of_peer : String → String → Opened
  of_peer envelope peer =
      if peer == "" then rejected "malformed_kid" else (elim (s.resolve_did peer) [
        | none ↦ rejected "unknown_peer"
        | some methods ↦ verified envelope peer (extract_ed25519_key methods)
      ])

  unfoldable pub open_envelope : String → Opened
  unfolding extract_ed25519_key segments before_first
  open_envelope envelope =
      if eqb (segments envelope) 3
      then elim (s.header_kid (front b'.' envelope)) [
        | none ↦ rejected "invalid_envelope_header"
        | some kid ↦ elim (truthy kid) [
          | none ↦ rejected "missing_kid"
          | some k ↦ of_peer envelope (front b'#' k)
        ]
      ]
      else rejected "invalid_envelope"

  unfoldable pub dispatch_inbound : Context → String → World → Option Result × World
  unfolding open_envelope dispatch_verified_message
  dispatch_inbound x envelope w = elim (open_envelope envelope) [
    | rejected reason ↦ (some (refused reason), w)
    | opened peer msg ↦ dispatch_verified_message x msg peer envelope w
  ]
