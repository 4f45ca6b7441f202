-- ===== src/Base58/Keys.antt =====
-- Texts of Ed25519 keys: multibase (packages/transport/src/envelope.ts) and did:key
-- (packages/resolver/src/did-key.ts), both base58btc of the key after two bytes.
use arp.Common.{
  ℕ, ◌+◌, ◌*◌, ◌<◌, ◌≡◌, ◌≢◌, ◌⊎◌, refl, true, false, Bool, ◌&&◌, Option, none, some, List, [], ◌∷◌,
  ◌++◌, All, arith, eqb, length, nat_eq, ◌==◌, if◌then◌else◌, inl, inr, Bool-cases,
}
use arp.Base58.{base58btc_encode, base58btc_decode}
use arp.Base58.Radix.{reading}
use arp.Base58.RoundTrip.{base58btc_decode-encode}

-- `decoded[0] === 0xed && decoded[1] === 0x01`, and `decoded.slice(2)`
abbrev has_prefix : List ℕ → Bool
has_prefix (a ∷ b ∷ bs) = eqb a 0xed && eqb b 0x01
has_prefix _ = false

abbrev after_prefix : List ℕ → List ℕ
after_prefix (a ∷ b ∷ bs) = bs
after_prefix _ = []

abbrev prefixed : List ℕ → List ℕ
prefixed raw = 0xed ∷ 0x01 ∷ raw

-- the key in decoded bytes: 32 of them after the prefix, or 32 alone
abbrev raw_key : List ℕ → Option (List ℕ)
raw_key bytes =
    if eqb (length bytes) 34 && has_prefix bytes
    then some (after_prefix bytes)
    else if eqb (length bytes) 32
    then some bytes
    else none

-- `none` where the code throws
unfoldable pub multibase_ed25519_to_raw : List ℕ → Option (List ℕ)
multibase_ed25519_to_raw [] = none
multibase_ed25519_to_raw (c ∷ cs) =
    if eqb c b'z'
    then (elim (base58btc_decode cs) [ none ↦ none | some bytes ↦ raw_key bytes ])
    else none

unfoldable pub ed25519_raw_to_multibase : List ℕ → Option (List ℕ)
ed25519_raw_to_multibase raw =
    if eqb (length raw) 32 then some (b'z' ∷ base58btc_encode (prefixed raw)) else none

pub data ParsedKey : Type 0 where
  -- the raw key and its multibase text
  key : List ℕ → List ℕ → ParsedKey
  unsupported_method invalid_did : ParsedKey

-- "did:key:"
abbrev method : List ℕ
method = b'd' ∷ b'i' ∷ b'd' ∷ b':' ∷ b'k' ∷ b'e' ∷ b'y' ∷ b':' ∷ []

-- the text after a prefix, `none` where the text does not start with it
unfoldable pub strip : List ℕ → List ℕ → Option (List ℕ)
strip [] s = some s
strip (p ∷ ps) [] = none
strip (p ∷ ps) (c ∷ cs) = let rest = strip ps cs in if c == p then rest else none

abbrev checked_key : List ℕ → List ℕ → ParsedKey
checked_key multibase bytes =
    if eqb (length bytes) 34
    then if has_prefix bytes then key (after_prefix bytes) multibase else unsupported_method
    else invalid_did

abbrev parse_multibase : List ℕ → ParsedKey
parse_multibase [] = invalid_did
parse_multibase (c ∷ cs) =
    if eqb c b'z'
    then (elim (base58btc_decode cs) [
      | none ↦ invalid_did
      | some bytes ↦ checked_key (c ∷ cs) bytes
    ])
    else invalid_did

unfoldable pub parse_did_key : List ℕ → ParsedKey
unfolding strip
parse_did_key did = elim (strip method did) [
  | none ↦ unsupported_method
  | some multibase ↦ parse_multibase multibase
]

-- `none` where the code throws
unfoldable pub ed25519_public_key_to_did_key : List ℕ → Option (List ℕ)
ed25519_public_key_to_did_key raw =
    if eqb (length raw) 32 then some (method ++ b'z' ∷ base58btc_encode (prefixed raw)) else none

reading_positive : (n : ℕ) (xs : List ℕ) → 0 < n → 0 < reading 256 n xs
reading_positive n [] h = h
reading_positive n (x ∷ xs) h = reading_positive (n * 256 + x) xs (omega (arith, h))

decodes :
    (raw : List ℕ)
    → All (λ b. b < 256) raw
    → base58btc_decode (base58btc_encode (prefixed raw)) ≡ some (prefixed raw)
decodes raw low =
    base58btc_decode-encode (prefixed raw) (omega arith, (omega arith, low))
      (reading_positive (0xed * 256 + 0x01) raw (omega arith))

-- A raw key of 32 bytes comes back from its multibase text, and from its did:key, together with
-- that multibase text; of any other length, neither text is made.
pub key_texts_lem :
    (raw : List ℕ)
    → All (λ b. b < 256) raw
    → ((length raw ≡ 32)
        × (text : List ℕ) × (did : List ℕ) × (ed25519_raw_to_multibase raw ≡ some text)
        × (ed25519_public_key_to_did_key raw ≡ some did)
        × (multibase_ed25519_to_raw text ≡ some raw)
        × (parse_did_key did ≡ key raw text))
      ⊎ ((length raw ≢ 32)
          × (ed25519_raw_to_multibase raw ≡ none)
          × (ed25519_public_key_to_did_key raw ≡ none))
unfolding multibase_ed25519_to_raw ed25519_raw_to_multibase parse_did_key strip
    ed25519_public_key_to_did_key
key_texts_lem raw low = elim (Bool-cases (eqb (length raw) 32)) [
  | inr other ↦ inr (ground arith, rw other refl, rw other refl)
  | inl exact ↦
      let text : List ℕ = b'z' ∷ base58btc_encode (prefixed raw) in
      let full : (eqb (length (prefixed raw)) 34) ≡ true = ground arith in
      inl (
        ground arith,
        text,
        method ++ text,
        rw exact refl,
        rw exact refl,
        rw (decodes raw low, full) refl,
        rw (decodes raw low, full) refl,
      )
]
