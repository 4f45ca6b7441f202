-- ===== src/Pairing/Returned.antt =====
-- What `countersignProposal` of packages/pairing/src/countersign.ts has done when it returns.
use mathlib.Core.Path.{subst}
use mathlib.Core.Option.{some-injective}
use arp.Common.{
  ◌≤◌, ◌≡◌, ◌≢◌, ap, String, Bool, true, none, some, Bool-cases, Option-cases, inl, inr, arith,
  string_eq, length,
}
use arp.Common.JsMap.{set}
use arp.Spec.{ConnectionToken, FieldTests, token_ok}
use arp.Pairing.{
  Crypto, KeyPair, SignatureEntry, PairingProposal, payload_from_proposal, project_token,
  sign_bytes, countersign_proposal,
}

pub none≢some : {A : Type 0} {a : A} → none ≢ some a
none≢some h = cc

pub token_ok-two_sigs :
    (tests : FieldTests) (t : ConnectionToken) → token_ok tests t ≡ true → 2 ≤ length t.sigs
unfolding token_ok
token_ok-two_sigs tests t h = ground arith

module _ {K P S Y : Type 0} (c : Crypto K P S Y) where
  -- what a successful countersigning has done
  pub record Countersigned (tests : FieldTests) (recompiles : PairingProposal → Bool)
      (p : PairingProposal) (key : KeyPair K) (did : String) (token : ConnectionToken)
      (signed : PairingProposal) : Type 0 where
    pub recompiled : recompiles p ≡ true
    pub sig : SignatureEntry
    pub own : sign_bytes c (c.canonical_bytes (payload_from_proposal p)) key ≡ some sig
    pub projected : project_token p (set did sig p.sigs) ≡ token
    pub valid : token_ok tests token ≡ true

  pub countersign-Countersigned :
      (tests : FieldTests) (recompiles : PairingProposal → Bool) (p : PairingProposal)
      (key : KeyPair K) (did : String) (token : ConnectionToken) (signed : PairingProposal)
      → countersign_proposal c tests recompiles p key did ≡ some (token, signed)
      → Countersigned tests recompiles p key did token signed
  unfolding countersign_proposal
  countersign-Countersigned tests recompiles p key did token signed h =
      elim (Bool-cases (recompiles p)) [
        | inr bad ↦ absurd (none≢some (rw (bad, countersign_proposal) at h))
        | inl good ↦
            elim (Option-cases (sign_bytes c (c.canonical_bytes (payload_from_proposal p)) key)) [
              | inl bad ↦ absurd (none≢some (rw (good, bad, countersign_proposal) at h))
              | inr (sig, own) ↦
                  elim (Bool-cases (token_ok tests (project_token p (set did sig p.sigs)))) [
                    | inr bad ↦ absurd (none≢some (rw (good, own, bad, countersign_proposal) at h))
                    | inl valid ↦
                        let same : project_token p (set did sig p.sigs) ≡ token =
                          ap (λ (x : ConnectionToken × PairingProposal). x.0)
                            (some-injective _ (token, signed)
                              (rw (good, own, valid, countersign_proposal) at h)) in
                        record {
                          recompiled = good;
                          sig = sig;
                          own = own;
                          projected = same;
                          valid = subst (λ t. token_ok tests t ≡ true) same valid;
                        }
                  ]
            ]
      ]
