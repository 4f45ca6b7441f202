-- ===== src/Auth/Tests.antt =====
-- A challenge persisted and consumed, a rotation, and the theorems at them.
use arp.Common.{
  ◌+◌, ◌≤◌, ◌<◌, ◌≡◌, refl, String, true, false, Option, none, List, [], ◌∷◌, string_eq,
}
use arp.Auth.{
  Challenge, register, auth, Challenges, persist_challenge, consume_challenge,
  initialize_identity_rotation, record_rotation, expire_rotation_grace_if_due,
}
use arp.Auth.Single.{Call, persist, consume, perform_all, consume_challenge_once}
use arp.Auth.Rotation.{record_rotation_lem}

abbrev nothing : String → Option Challenge
nothing k = none

abbrev opened : Challenges
opened = record { registering = nothing; signing_in = nothing }

abbrev stored : Challenges
stored = persist_challenge 1000 false "c1" auth opened

first_use : (consume_challenge 2000 "c1" auth stored).1 ≡ true
unfolding persist_challenge consume_challenge
first_use = refl

abbrev calls : List Call
calls = persist 3000 true "c2" auth ∷ persist 3500 false "c1" register ∷ consume 4000 "c2" auth ∷ []

consume_challenge_once_example :
    (consume_challenge 5000 "c1" auth
      (perform_all calls (consume_challenge 2000 "c1" auth stored).0)).1
    ≡ false
consume_challenge_once_example =
    consume_challenge_once 2000 5000 "c1" auth calls stored first_use (refl, (refl, (refl, tt)))

record_rotation_lem_example :
    let rotated = record_rotation "did:key:2" "k2" "did:key:1" "k1" 1000 500 none in
    let initial = initialize_identity_rotation "did:key:2" "k2" none in
    (1200 < 1000 + 500 → expire_rotation_grace_if_due 1200 rotated ≡ (rotated, false))
    × (1000 + 500 ≤ 1200 → expire_rotation_grace_if_due 1200 rotated ≡ (initial, true))
    × (expire_rotation_grace_if_due 1200 initial ≡ (initial, false))
    × ((other_did other_key : String)
        → (initialize_identity_rotation other_did other_key rotated ≡ rotated)
          × (initialize_identity_rotation other_did other_key initial ≡ initial))
record_rotation_lem_example =
    record_rotation_lem "did:key:2" "k2" "did:key:1" "k1" 1000 500 1200 none
