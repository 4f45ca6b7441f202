-- ===== src/Pairing/Verify.antt =====
-- `verifyConnectionToken` of packages/pairing/src/verify.ts, against a description of a good token.
use arp.Common.{
  ℕ, ◌≤◌, ◌≡◌, ◌≢◌, ◌↔◌, refl, String, Bool, true, false, Option, none, some, Bool-cases,
  Option-cases, inl, inr, List, [], ◌∷◌, arith, ltb, string_eq, length, any, All,
}
use arp.Common.JsMap.{JsMap, get}
use arp.Spec.{ConnectionToken}
use arp.Pairing.{
  Crypto, DidDocument, bare, ok, failed, map_values, payload_from_token, verifies_with,
  verify_bytes, check_signers, verify_sig_map, has_expired, verify_connection_token,
}

pub get-map_values :
    {V W : Type 0} (f : V → W) (k : String) (m : JsMap String V)
    → get k (map_values f m) ≡ (elim (get k m) [ none ↦ none | some v ↦ some (f v) ])
unfolding get
get-map_values f k [] = refl
get-map_values f k ((j, v) ∷ m) = ground (arith, get-map_values f k m)

pub length-map_values :
    {V W : Type 0} (f : V → W) (m : JsMap String V) → length (map_values f m) ≡ length m
length-map_values f [] = refl
length-map_values f ((j, v) ∷ m) = omega (arith, length-map_values f m)

failed≢ok : (r : _) → failed r ≢ ok
failed≢ok r h = cc

module _ {K P S Y : Type 0} (c : Crypto K P S Y) (resolve : String → Option DidDocument) where
  -- The map has a value under the DID that decodes to a signature of the bytes by a key that the
  -- document of the DID lists.
  pub record SignedBy (sigs : JsMap String String) (bytes : Y) (did : String) : Type 0 where
    pub value : String
    pub doc : DidDocument
    pub sig : S
    pub given : get did sigs ≡ some value
    pub resolved : resolve did ≡ some doc
    pub decoded : c.decode value ≡ some sig
    pub verified : any (verifies_with c bytes sig) doc.verification_method ≡ true

  check_signers_sound :
      (sigs : JsMap String String) (bytes : Y) (dids : List String)
      → check_signers c resolve (map_values bare sigs) bytes dids ≡ ok
      → All (SignedBy sigs bytes) dids
  unfolding check_signers verify_bytes
  check_signers_sound sigs bytes [] h = tt
  check_signers_sound sigs bytes (did ∷ dids) h = elim (Option-cases (get did sigs)) [
    | inl absent ↦
        absurd (failed≢ok _ (rw (get-map_values bare did sigs, absent, check_signers) at h))
    | inr (value, given) ↦ elim (Option-cases (resolve did)) [
      | inl lost ↦
          absurd (failed≢ok _ (rw (get-map_values bare did sigs, given, lost, check_signers) at h))
      | inr (doc, resolved) ↦ elim (Option-cases (c.decode value)) [
        | inl garbled ↦ absurd (
            failed≢ok _ (
              rw
                (
                  get-map_values bare did sigs,
                  given,
                  resolved,
                  garbled,
                  verify_bytes,
                  check_signers,
                )
                at h))
        | inr (sig, decoded) ↦
            elim (Bool-cases (any (verifies_with c bytes sig) doc.verification_method)) [
              | inr bad ↦ absurd (
                  failed≢ok _ (
                    rw
                      (
                        get-map_values bare did sigs,
                        given,
                        resolved,
                        decoded,
                        bad,
                        verify_bytes,
                        check_signers,
                      )
                      at h))
              | inl verified ↦ (
                record {
                  value = value;
                  doc = doc;
                  sig = sig;
                  given = given;
                  resolved = resolved;
                  decoded = decoded;
                  verified = verified;
                },
                check_signers_sound sigs bytes dids (
                    rw
                      (
                        get-map_values bare did sigs,
                        given,
                        resolved,
                        decoded,
                        verified,
                        verify_bytes,
                        check_signers,
                      )
                      at h),
              )
            ]
      ]
    ]
  ]

  pub check_signers_complete :
      (sigs : JsMap String String) (bytes : Y) (dids : List String)
      → All (SignedBy sigs bytes) dids
      → check_signers c resolve (map_values bare sigs) bytes dids ≡ ok
  unfolding check_signers verify_bytes
  check_signers_complete sigs bytes [] h = refl
  check_signers_complete sigs bytes (did ∷ dids) (s, rest) =
      rw
        (
          get-map_values bare did sigs,
          s.given,
          s.resolved,
          s.decoded,
          s.verified,
          verify_bytes,
          check_signers,
        )
        (check_signers_complete sigs bytes dids rest)

  -- The bytes are signed by the issuer and by the principal that the audience's document names.
  pub record DualSigned (sigs : JsMap String String) (bytes : Y) (audience issuer : String)
      : Type 0 where
    pub doc : DidDocument
    pub principal : String
    pub resolved : resolve audience ≡ some doc
    pub bound : doc.principal ≡ some principal
    pub by_issuer : SignedBy sigs bytes issuer
    pub by_principal : SignedBy sigs bytes principal

  verify_sig_map_iff :
      (sigs : JsMap String String) (bytes : Y) (audience issuer : String)
      → (verify_sig_map c resolve (map_values bare sigs) bytes audience issuer ≡ ok)
        ↔ DualSigned sigs bytes audience issuer
  unfolding verify_sig_map
  verify_sig_map_iff sigs bytes audience issuer = (sound, complete)
    where
      sound :
          verify_sig_map c resolve (map_values bare sigs) bytes audience issuer ≡ ok
          → DualSigned sigs bytes audience issuer
      sound h = elim (Option-cases (resolve audience)) [
        | inl lost ↦ absurd (failed≢ok _ (rw (lost, verify_sig_map) at h))
        | inr (doc, resolved) ↦ elim (Option-cases doc.principal) [
          | inl unbound ↦ absurd (failed≢ok _ (rw (resolved, unbound, verify_sig_map) at h))
          | inr (principal, bound) ↦
              let (by_issuer, (by_principal, _)) =
                check_signers_sound sigs bytes (issuer ∷ principal ∷ [])
                  (rw (resolved, bound, verify_sig_map) at h) in
              record {
                doc = doc;
                principal = principal;
                resolved = resolved;
                bound = bound;
                by_issuer = by_issuer;
                by_principal = by_principal;
              }
        ]
      ]

      complete :
          DualSigned sigs bytes audience issuer
          → verify_sig_map c resolve (map_values bare sigs) bytes audience issuer ≡ ok
      complete d =
          rw (d.resolved, d.bound, verify_sig_map)
            (check_signers_complete sigs bytes (issuer ∷ d.principal ∷ [])
              (d.by_issuer, (d.by_principal, tt)))

  module _ (parse_date : String → Option ℕ) (now : ℕ) where
    -- a token that its verification should accept
    pub record IsVerified (allow_expired : Bool) (t : ConnectionToken) : Type 0 where
      pub in_time : has_expired c resolve parse_date now allow_expired t.expires ≡ false
      pub two_sigs : 2 ≤ length t.sigs
      pub signed : DualSigned t.sigs (c.canonical_bytes (payload_from_token t)) t.audience t.issuer

    -- The verification of a token succeeds exactly if the token has not expired (or may have), carries
    -- at least two signatures, and its canonical payload is signed, by keys that the resolved
    -- documents list, by its issuer and by the principal that its audience's document names.
    pub verify_connection_token_iff :
        (allow_expired : Bool) (t : ConnectionToken)
        → (verify_connection_token c resolve parse_date now allow_expired t ≡ ok)
          ↔ IsVerified allow_expired t
    unfolding verify_connection_token
    verify_connection_token_iff allow_expired t = (sound, complete)
      where
        sound :
            verify_connection_token c resolve parse_date now allow_expired t ≡ ok
            → IsVerified allow_expired t
        sound h = elim (Bool-cases (has_expired c resolve parse_date now allow_expired t.expires)) [
          | inl late ↦ absurd (failed≢ok _ (rw (late, verify_connection_token) at h))
          | inr in_time ↦ elim (Bool-cases (ltb (length t.sigs) 2)) [
            | inl few ↦ absurd (failed≢ok _ (rw (in_time, few, verify_connection_token) at h))
            | inr enough ↦ record {
              in_time = in_time;
              two_sigs = ground arith;
              signed =
                  (verify_sig_map_iff t.sigs (c.canonical_bytes (payload_from_token t)) t.audience
                      t.issuer).0
                    (rw (in_time, enough, verify_connection_token) at h);
            }
          ]
        ]

        complete :
            IsVerified allow_expired t
            → verify_connection_token c resolve parse_date now allow_expired t ≡ ok
        complete v =
            let enough : ltb (length t.sigs) 2 ≡ false = ground (arith, v.two_sigs) in
            rw (v.in_time, enough, verify_connection_token)
              ((verify_sig_map_iff t.sigs (c.canonical_bytes (payload_from_token t)) t.audience
                  t.issuer).1
                v.signed)
