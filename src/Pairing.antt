-- ===== src/Pairing.antt =====
-- packages/pairing/src: countersigning a proposal and verifying proposals and tokens
-- (countersign.ts, verify.ts, signing.ts, canonical.ts). Ed25519, the canonical JSON bytes, the text
-- codecs of signatures and keys, the DID resolver and the clock are parameters.
pub mod Verify
pub mod Returned
pub mod Countersign
pub mod Recompile
mod Tests
use arp.Common.{
  ℕ, String, Bool, true, false, not, ◌&&◌, ◌||◌, Option, none, some, List, [], ◌∷◌, ◌++◌, map, leb,
  ltb, string_eq, ◌==◌, if◌then◌else◌, length, keep, any, or_else,
}
use arp.Common.JsMap.{JsMap, get, set}
use arp.Text.{ends_with}
use arp.Spec.{Json, Obligation, ConnectionToken, FieldTests, token_ok}

pub record SignatureEntry : Type 0 where
  pub value : String
  pub kid : String
  pub alg : String

pub record VerificationMethod : Type 0 where
  pub id : String
  pub public_key_multibase : String

pub record DidDocument : Type 0 where
  pub id : String
  pub verification_method : List VerificationMethod
  pub principal : Option String

-- The fields of a proposal that countersigning and verification read.
pub record PairingProposal : Type 0 where
  pub connection_id : String
  pub issuer : String
  pub subject : String
  pub audience : String
  pub purpose : String
  pub scope_selections : List (String × Option (JsMap String Json))
  pub cedar_policies : List String
  pub obligations : List Obligation
  pub scope_catalog_version : String
  pub expires_at : String
  pub replaces : Option String
  pub sigs : JsMap String SignatureEntry

-- `CanonicalConnectionPayload`: what both sides sign
pub record Payload : Type 0 where
  pub connection_id : String
  pub issuer : String
  pub subject : String
  pub audience : String
  pub purpose : String
  pub cedar_policies : List String
  pub obligations : List Obligation
  pub scope_catalog_version : String
  pub expires : String
  pub replaces : Option String

-- an empty text is falsy, and then left out
abbrev pub truthy : Option String → Option String
truthy none = none
truthy (some s) = if s == "" then none else some s

unfoldable pub payload_from_proposal : PairingProposal → Payload
payload_from_proposal p = record {
  connection_id = p.connection_id;
  issuer = p.issuer;
  subject = p.subject;
  audience = p.audience;
  purpose = p.purpose;
  cedar_policies = p.cedar_policies;
  obligations = p.obligations;
  scope_catalog_version = p.scope_catalog_version;
  expires = p.expires_at;
  replaces = truthy p.replaces;
}

unfoldable pub payload_from_token : ConnectionToken → Payload
payload_from_token t = record {
  connection_id = t.connection_id;
  issuer = t.issuer;
  subject = t.subject;
  audience = t.audience;
  purpose = t.purpose;
  cedar_policies = t.cedar_policies;
  obligations = t.obligations;
  scope_catalog_version = t.scope_catalog_version;
  expires = t.expires;
  replaces = truthy t.replaces;
}

-- Signing keys K, public keys P, signatures S and signed bytes Y with the operations on them; `none`
-- where a decoder or the key check throws. A verification that throws is one that fails.
pub record Crypto (K P S Y : Type 0) : Type 0 where
  pub canonical_bytes : Payload → Y
  pub is_seed : K → Bool
  pub sign : Y → K → S
  pub verify : S → Y → P → Bool
  pub encode : S → String
  pub decode : String → Option S
  pub key_of : String → Option P

pub record KeyPair (K : Type 0) : Type 0 where
  pub private_key : K
  pub kid : String

-- a signature of a token's map (the value alone), or of a proposal's
pub data RawSignature : Type 0 where
  bare : String → RawSignature
  entry : SignatureEntry → RawSignature

pub data Reason : Type 0 where
  expired : Reason
  too_few : Reason
  unresolved : String → Reason
  no_principal : Reason
  missing : String → Reason
  rejected : String → Reason

pub data Verdict : Type 0 where
  ok : Verdict
  failed : Reason → Verdict

abbrev pub normalize : RawSignature → SignatureEntry × Bool
normalize (bare value) = (record { value = value; kid = ""; alg = "EdDSA" }, false)
normalize (entry e) = (e, true)

abbrev pub matches_kid : String → VerificationMethod → Bool
matches_kid kid vm = vm.id == kid || ends_with kid vm.id

abbrev pub map_values : {V W : Type 0} → (V → W) → JsMap String V → JsMap String W
map_values f [] = []
map_values f ((k, v) ∷ m) = (k, f v) ∷ map_values f m

abbrev pub value_of : SignatureEntry → String
value_of e = e.value

unfoldable pub project_token : PairingProposal → JsMap String SignatureEntry → ConnectionToken
project_token p sigs = record {
  connection_id = p.connection_id;
  issuer = p.issuer;
  subject = p.subject;
  audience = p.audience;
  purpose = p.purpose;
  cedar_policies = p.cedar_policies;
  obligations = p.obligations;
  scope_catalog_version = p.scope_catalog_version;
  expires = p.expires_at;
  sigs = map_values value_of sigs;
  replaces = none;
}

module _ {K P S Y : Type 0} (c : Crypto K P S Y) where
  unfoldable pub sign_bytes : Y → KeyPair K → Option SignatureEntry
  sign_bytes bytes key =
      if c.is_seed key.private_key
      then some
          (record { value = c.encode (c.sign bytes key.private_key); kid = key.kid; alg = "EdDSA" })
      else none

  -- one round of the loop over the verification methods
  unfoldable pub verifies_with : Y → S → VerificationMethod → Bool
  verifies_with bytes sig vm = elim (c.key_of vm.public_key_multibase) [
    | none ↦ false
    | some k ↦ c.verify sig bytes k
  ]

  unfoldable pub verify_bytes : Y → SignatureEntry → DidDocument → Bool → Bool
  verify_bytes bytes sig doc match_kid =
      if sig.alg == "EdDSA"
      then elim (c.decode sig.value) [
        | none ↦ false
        | some s ↦ any (verifies_with bytes s) (
            if match_kid
            then keep (matches_kid sig.kid) doc.verification_method
            else doc.verification_method)
      ]
      else false

  module _ (resolve : String → Option DidDocument) where
    -- the loop of `verifySigMap` over the required signers
    unfoldable pub check_signers : JsMap String RawSignature → Y → List String → Verdict
    check_signers sigs bytes [] = ok
    check_signers sigs bytes (did ∷ dids) = elim (get did sigs) [
      | none ↦ failed (missing did)
      | some raw ↦ elim (resolve did) [
        | none ↦ failed (unresolved did)
        | some doc ↦ elim (verify_bytes bytes ((normalize raw).0) doc ((normalize raw).1)) [
          | false ↦ failed (rejected did)
          | true ↦ check_signers sigs bytes dids
        ]
      ]
    ]

    unfoldable pub verify_sig_map : JsMap String RawSignature → Y → String → String → Verdict
    verify_sig_map sigs bytes audience issuer = elim (resolve audience) [
      | none ↦ failed (unresolved audience)
      | some doc ↦ elim doc.principal [
        | none ↦ failed no_principal
        | some principal ↦ check_signers sigs bytes (issuer ∷ principal ∷ [])
      ]
    ]

    module _ (parse_date : String → Option ℕ) (now : ℕ) where
      abbrev pub has_expired : Bool → String → Bool
      has_expired allow_expired date =
          not allow_expired && (elim (parse_date date) [ none ↦ false | some t ↦ leb t now ])

      unfoldable pub verify_connection_token : Bool → ConnectionToken → Verdict
      verify_connection_token allow_expired t =
          if has_expired allow_expired t.expires
          then failed expired
          else if ltb (length t.sigs) 2
          then failed too_few
          else (verify_sig_map (map_values bare t.sigs) (c.canonical_bytes (payload_from_token t))
              t.audience t.issuer)

      unfoldable pub verify_pairing_proposal : Bool → PairingProposal → Verdict
      verify_pairing_proposal allow_expired p =
          if has_expired allow_expired p.expires_at
          then failed expired
          else (verify_sig_map (map_values entry p.sigs)
              (c.canonical_bytes (payload_from_proposal p)) p.audience p.issuer)

  -- `countersignProposal`; `recompiles` is the check against the audience's catalog, if it has one,
  -- and `none` stands for each of its exceptions.
  unfoldable pub countersign_proposal :
      FieldTests
      → (PairingProposal → Bool)
      → PairingProposal
      → KeyPair K
      → String
      → Option (ConnectionToken × PairingProposal)
  countersign_proposal tests recompiles p key did =
      if recompiles p
      then elim (sign_bytes (c.canonical_bytes (payload_from_proposal p)) key) [
        | none ↦ none
        | some sig ↦
            let sigs = set did sig p.sigs in
            let token = project_token p sigs in
            if token_ok tests token then some (token, record p { sigs = sigs }) else none
      ]
      else none
