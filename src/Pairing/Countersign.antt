-- ===== src/Pairing/Countersign.antt =====
-- `countersignProposal` of packages/pairing/src/countersign.ts, up to the verification of its token.
use mathlib.Core.Path.{subst}
use mathlib.Core.Option.{some-injective}
use arp.Common.{
  ℕ, ◌≤◌, ◌≡◌, ◌⊎◌, ◌↔◌, refl, sym, ◌∙◌, ap, String, Bool, true, false, Option, none, some,
  Bool-cases, inl, inr, List, [], ◌∷◌, arith, string_eq, ◌==◌, length, any,
}
use arp.Common.JsMap.{JsMap, set, get-set}
use arp.Spec.{ConnectionToken, FieldTests, token_ok}
use arp.Pairing.{
  Crypto, DidDocument, KeyPair, SignatureEntry, PairingProposal, VerificationMethod, ok, Payload,
  map_values, value_of, truthy, payload_from_token, payload_from_proposal, project_token,
  sign_bytes, verifies_with, has_expired, verify_connection_token, countersign_proposal,
}
use arp.Pairing.Returned.{countersign-Countersigned, token_ok-two_sigs, none≢some}
use arp.Pairing.Verify.{
  SignedBy, DualSigned, IsVerified, verify_connection_token_iff, get-map_values,
}

-- What the code relies on: a signature verifies under the signer's public key, and its text decodes.
pub record IsCrypto {K P S Y : Type 0} (c : Crypto K P S Y) : Type 0 where
  pub public_key : K → P
  pub verify-sign : (y : Y) (k : K) → c.verify (c.sign y k) y (public_key k) ≡ true
  pub decode-encode : (s : S) → c.decode (c.encode s) ≡ some s

-- A countersigned token carries the payload that was signed exactly if the proposal replaces no
-- connection: the signed payload names the replaced one, which the token has no field for.
payload-project_token_iff :
    (p : PairingProposal) (sigs : JsMap String SignatureEntry)
    → (payload_from_token (project_token p sigs) ≡ payload_from_proposal p)
      ↔ (truthy p.replaces ≡ none)
unfolding payload_from_token payload_from_proposal project_token
payload-project_token_iff p sigs = (λ h. sym (ap (λ (q : Payload). q.replaces) h), λ h. rw h)

module _ {K P S Y : Type 0} (c : Crypto K P S Y) (laws : IsCrypto c) where
  -- the document lists the public key
  abbrev pub Lists : P → List VerificationMethod → Type 0
  Lists k [] = ⊥
  Lists k (vm ∷ vms) = (c.key_of vm.public_key_multibase ≡ some k) ⊎ Lists k vms

  any-verifies_with :
      (bytes : Y) (k : K) (vms : List VerificationMethod)
      → Lists (laws.public_key k) vms
      → any (verifies_with c bytes (c.sign bytes k)) vms ≡ true
  unfolding verifies_with
  any-verifies_with bytes k [] h = absurd h
  any-verifies_with bytes k (vm ∷ vms) (inl here) =
      rw (here, laws.verify-sign bytes k, verifies_with)
  any-verifies_with bytes k (vm ∷ vms) (inr there) =
      ground (arith, any-verifies_with bytes k vms there)

  own_signature :
      (resolve : String → Option DidDocument) (bytes : Y) (key : KeyPair K) (did : String)
      (sigs : JsMap String SignatureEntry) (sig : SignatureEntry) (doc : DidDocument)
      → sign_bytes c bytes key ≡ some sig
      → resolve did ≡ some doc
      → Lists (laws.public_key key.private_key) doc.verification_method
      → SignedBy c resolve (map_values value_of (set did sig sigs)) bytes did
  unfolding sign_bytes
  own_signature resolve bytes key did sigs sig doc signed resolved listed =
      elim (Bool-cases (c.is_seed key.private_key)) [
        | inr bad ↦ absurd (none≢some (rw (bad, sign_bytes) at signed))
        | inl good ↦
            let made = some-injective _ sig (rw (good, sign_bytes) at signed) in
            record {
              value = c.encode (c.sign bytes key.private_key);
              doc = doc;
              sig = c.sign bytes key.private_key;
              given =
                  get-map_values value_of did (set did sig sigs)
                  ∙ rw (get-set did did sig sigs, (string_eq.agrees_iff did did).1 refl, ← made);
              resolved = resolved;
              decoded = laws.decode-encode (c.sign bytes key.private_key);
              verified = any-verifies_with bytes key.private_key doc.verification_method listed;
            }
      ]

  -- a signature of another signer survives the addition of one's own
  other_signature :
      (resolve : String → Option DidDocument) (bytes : Y) (did other : String)
      (sigs : JsMap String SignatureEntry) (sig : SignatureEntry)
      → (did == other) ≡ false
      → SignedBy c resolve (map_values value_of sigs) bytes other
      → SignedBy c resolve (map_values value_of (set did sig sigs)) bytes other
  other_signature resolve bytes did other sigs sig apart s = record {
    value = s.value;
    doc = s.doc;
    sig = s.sig;
    given =
        get-map_values value_of other (set did sig sigs)
        ∙ rw (get-set did other sig sigs, apart)
            (sym (get-map_values value_of other sigs) ∙ s.given);
    resolved = s.resolved;
    decoded = s.decoded;
    verified = s.verified;
  }

  module _ (resolve : String → Option DidDocument) (parse_date : String → Option ℕ) (now : ℕ) where
    accepted :
        (p : PairingProposal) (sigs : JsMap String SignatureEntry)
        → has_expired c resolve parse_date now false p.expires_at ≡ false
        → 2 ≤ length (project_token p sigs).sigs
        → DualSigned c resolve
            (map_values value_of sigs)
            (c.canonical_bytes (payload_from_token (project_token p sigs)))
            p.audience
            p.issuer
        → IsVerified c resolve parse_date now false (project_token p sigs)
    unfolding project_token
    accepted p sigs in_time enough signed = record {
      in_time = in_time;
      two_sigs = enough;
      signed = signed;
    }

    -- A token that countersigning returns verifies at a time before its expiry, if the proposal
    -- replaces no connection, the issuer's signature on it is good, and the audience's document
    -- names the countersigning DID, whose document lists the key that countersigned.
    pub verify-countersign_proposal :
        (tests : FieldTests) (recompiles : PairingProposal → Bool) (p : PairingProposal)
        (key : KeyPair K) (did : String) (token : ConnectionToken) (signed : PairingProposal)
        (agent doc : DidDocument)
        → countersign_proposal c tests recompiles p key did ≡ some (token, signed)
        → truthy p.replaces ≡ none
        → has_expired c resolve parse_date now false p.expires_at ≡ false
        → resolve p.audience ≡ some agent
        → agent.principal ≡ some did
        → resolve did ≡ some doc
        → Lists (laws.public_key key.private_key) doc.verification_method
        → SignedBy c resolve
            (map_values value_of p.sigs)
            (c.canonical_bytes (payload_from_proposal p))
            p.issuer
        → verify_connection_token c resolve parse_date now false token ≡ ok
    verify-countersign_proposal tests recompiles p key did token signed agent doc h fresh in_time
          found bound resolved listed issued =
        let made = countersign-Countersigned c tests recompiles p key did token signed h in
        let bytes = c.canonical_bytes (payload_from_proposal p) in
        let sigs = set did made.sig p.sigs in
        let own =
          own_signature resolve bytes key did p.sigs made.sig doc made.own resolved listed in
        let by_issuer : SignedBy c resolve (map_values value_of sigs) bytes p.issuer =
          elim (Bool-cases (did == p.issuer)) [
            | inl same ↦
                subst (SignedBy c resolve (map_values value_of sigs) bytes)
                  ((string_eq.agrees_iff did p.issuer).0 same) own
            | inr apart ↦ other_signature resolve bytes did p.issuer p.sigs made.sig apart issued
          ] in
        let dual : DualSigned c resolve (map_values value_of sigs) bytes p.audience p.issuer =
          record {
            doc = agent;
            principal = did;
            resolved = found;
            bound = bound;
            by_issuer = by_issuer;
            by_principal = own;
          } in
        let payload = (payload-project_token_iff p sigs).1 fresh in
        (verify_connection_token_iff c resolve parse_date now false token).1 (
          subst (IsVerified c resolve parse_date now false) made.projected (
            accepted p sigs in_time
              (token_ok-two_sigs tests _
                (subst (λ t. token_ok tests t ≡ true) (sym made.projected) made.valid))
              (subst
                (λ q.
                  DualSigned c resolve (map_values value_of sigs) (c.canonical_bytes q) p.audience
                    p.issuer)
                (sym payload) dual)))
