-- ===== src/Auth.antt =====
-- packages/runtime/src/auth-store.ts: WebAuthn challenges, each consumed once, and the rotation of
-- the principal's identity with its grace period. The primary key of a challenge is its text and its
-- purpose, so that each purpose has its own map.
pub mod Single
pub mod Rotation
mod Tests
use arp.Common.{
  ℕ, ◌+◌, ◌-◌, String, Bool, true, false, not, ◌&&◌, Option, none, some, List, [], ◌∷◌, ltb, leb,
  string_eq, ◌==◌, if◌then◌else◌,
}

pub data WebauthnPurpose : Type 0 where
  register : WebauthnPurpose
  auth : WebauthnPurpose

pub record Challenge : Type 0 where
  pub expires_at : ℕ
  pub consumed_at : Option ℕ

-- the rows of one purpose by their challenge
abbrev pub Table : Type 0
Table = String → Option Challenge

abbrev pub store : String → Challenge → Table → Table
store k c t j = if k == j then some c else t j

pub record Challenges : Type 0 where
  pub registering : Table
  pub signing_in : Table

abbrev pub table : WebauthnPurpose → Challenges → Table
table register cs = cs.registering
table auth cs = cs.signing_in

abbrev pub with_table : WebauthnPurpose → Table → Challenges → Challenges
with_table register t cs = record cs { registering = t }
with_table auth t cs = record cs { signing_in = t }

abbrev challenge_ttl_ms : ℕ
challenge_ttl_ms = 60000

-- `DELETE FROM webauthn_challenges WHERE expires_at < @cutoff`
unfoldable pub sweep : ℕ → Table → Table
sweep cutoff t j = elim (t j) [
  | none ↦ none
  | some c ↦ if ltb c.expires_at cutoff then none else some c
]

-- `swept` tells whether this call is one of those that clean up. The cutoff is negative in the code
-- only in the first minute of 1970, where it removes nothing, as 0 does.
unfoldable pub persist_challenge : ℕ → Bool → String → WebauthnPurpose → Challenges → Challenges
persist_challenge now swept challenge purpose cs =
    let stored =
      with_table purpose
        (store challenge (record { expires_at = now + challenge_ttl_ms; consumed_at = none })
          (table purpose cs))
        cs in
    if swept
    then (record {
      registering = sweep (now - challenge_ttl_ms) stored.registering;
      signing_in = sweep (now - challenge_ttl_ms) stored.signing_in;
    })
    else stored

abbrev pub usable : ℕ → Challenge → Bool
usable now c = elim c.consumed_at [ none ↦ ltb now c.expires_at | some t ↦ false ]

unfoldable pub consume_challenge : ℕ → String → WebauthnPurpose → Challenges → Challenges × Bool
consume_challenge now challenge purpose cs = elim ((table purpose cs) challenge) [
  | none ↦ (cs, false)
  | some c ↦
      if usable now c
      then (
        with_table purpose
            (store challenge (record c { consumed_at = some now }) (table purpose cs)) cs,
        true,
      )
      else (cs, false)
]

pub record IdentityRotationState : Type 0 where
  pub principal_did : String
  pub principal_public_key_multibase : String
  pub previous_principal_did : Option String
  pub previous_principal_public_key_multibase : Option String
  pub previous_deprecated_at_ms : Option ℕ

unfoldable pub initialize_identity_rotation :
    String → String → Option IdentityRotationState → Option IdentityRotationState
initialize_identity_rotation did key (some s) = some s
initialize_identity_rotation did key none = some (record {
  principal_did = did;
  principal_public_key_multibase = key;
  previous_principal_did = none;
  previous_principal_public_key_multibase = none;
  previous_deprecated_at_ms = none;
})

unfoldable pub record_rotation :
    String
    → String
    → String
    → String
    → ℕ
    → ℕ
    → Option IdentityRotationState
    → Option IdentityRotationState
record_rotation did key previous_did previous_key now_ms grace_ms s = some (record {
  principal_did = did;
  principal_public_key_multibase = key;
  previous_principal_did = some previous_did;
  previous_principal_public_key_multibase = some previous_key;
  previous_deprecated_at_ms = some (now_ms + grace_ms);
})

abbrev without_previous : IdentityRotationState → IdentityRotationState
without_previous s = record s {
  previous_principal_did = none;
  previous_principal_public_key_multibase = none;
  previous_deprecated_at_ms = none;
}

-- the state after, and whether a row was cleared
unfoldable pub expire_rotation_grace_if_due :
    ℕ → Option IdentityRotationState → Option IdentityRotationState × Bool
expire_rotation_grace_if_due now none = (none, false)
expire_rotation_grace_if_due now (some s) = elim s.previous_deprecated_at_ms [
  | none ↦ (some s, false)
  | some t ↦ if leb t now then (some (without_previous s), true) else (some s, false)
]
