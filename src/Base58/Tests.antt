-- ===== src/Base58/Tests.antt =====
-- Texts of small byte strings, and the theorem at a key.
use arp.Common.{
  ℕ, ◌≡◌, ◌≢◌, ◌⊎◌, refl, some, none, List, [], ◌∷◌, length, ◌<◌, All, arith, suc, zero,
}
use arp.Base58.{base58btc_encode, base58btc_decode}
use arp.Base58.Keys.{
  key_texts_lem, ed25519_raw_to_multibase, ed25519_public_key_to_did_key, multibase_ed25519_to_raw,
  parse_did_key, key,
}

hundred : base58btc_encode (100 ∷ 7 ∷ []) ≡ b'8' ∷ b'c' ∷ b'W' ∷ []
unfolding base58btc_encode
hundred = refl

-- one byte that is zero is written as two ones, which decode to three zeros
zero_grows : base58btc_encode (0 ∷ []) ≡ b'1' ∷ b'1' ∷ []
unfolding base58btc_encode
zero_grows = refl

ones_grow : base58btc_decode (b'1' ∷ b'1' ∷ []) ≡ some (0 ∷ 0 ∷ 0 ∷ [])
unfolding base58btc_decode
ones_grow = refl

abbrev sevens : ℕ → List ℕ
sevens zero = []
sevens (suc n) = 7 ∷ sevens n

low_sevens : (n : ℕ) → All (λ b. b < 256) (sevens n)
low_sevens zero = tt
low_sevens (suc n) = (omega arith, low_sevens n)

key_texts_lem_example :
    ((length (sevens 32) ≡ 32)
      × (text : List ℕ) × (did : List ℕ) × (ed25519_raw_to_multibase (sevens 32) ≡ some text)
      × (ed25519_public_key_to_did_key (sevens 32) ≡ some did)
      × (multibase_ed25519_to_raw text ≡ some (sevens 32))
      × (parse_did_key did ≡ key (sevens 32) text))
    ⊎ ((length (sevens 32) ≢ 32)
        × (ed25519_raw_to_multibase (sevens 32) ≡ none)
        × (ed25519_public_key_to_did_key (sevens 32) ≡ none))
key_texts_lem_example = key_texts_lem (sevens 32) (low_sevens 32)
