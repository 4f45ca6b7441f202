-- ===== src/Auth/Rotation.antt =====
-- The grace period of an identity rotation in packages/runtime/src/auth-store.ts.
use arp.Common.{ℕ, ◌+◌, ◌≤◌, ◌<◌, ◌≡◌, refl, String, true, false, Option, none, arith, leb}
use arp.Auth.{
  IdentityRotationState, initialize_identity_rotation, record_rotation,
  expire_rotation_grace_if_due,
}

pub record_rotation_lem :
    (did key previous_did previous_key : String) (now grace t : ℕ)
    (s : Option IdentityRotationState)
    → let rotated = record_rotation did key previous_did previous_key now grace s in
      let initial = initialize_identity_rotation did key none in
      (t < now + grace → expire_rotation_grace_if_due t rotated ≡ (rotated, false))
      × (now + grace ≤ t → expire_rotation_grace_if_due t rotated ≡ (initial, true))
      × (expire_rotation_grace_if_due t initial ≡ (initial, false))
      × ((other_did other_key : String)
          → (initialize_identity_rotation other_did other_key rotated ≡ rotated)
            × (initialize_identity_rotation other_did other_key initial ≡ initial))
unfolding record_rotation initialize_identity_rotation expire_rotation_grace_if_due
record_rotation_lem did key previous_did previous_key now grace t s =
    (λ early. rw (the_test early), λ due. rw (the_due due), refl, λ d k. (refl, refl))
  where
    the_test : t < now + grace → leb (now + grace) t ≡ false
    the_test h = ground (arith, h)

    the_due : now + grace ≤ t → leb (now + grace) t ≡ true
    the_due h = ground (arith, h)
