-- ===== src/Base58/RoundTrip.antt =====
-- Decoding what was encoded, in packages/transport/src/envelope.ts.
use mathlib.Core.Path.{subst}
use arp.Common.{
  ℕ, zero, suc, ◌+◌, ◌*◌, ◌<◌, ◌≡◌, refl, sym, ◌∙◌, ap, some, List, [], ◌∷◌, ◌++◌, map, All,
  All-append, arith, nat_eq,
}
use arp.Base58.{
  accumulate, leading, replicate, backwards, nth, alphabet, digits_of, base58btc_encode,
  base58btc_decode,
}
use arp.Base58.Radix.{
  value, reading, IsCanonical, to_58-IsRadix, to_256-IsRadix, value-accumulate,
  accumulate_from_zero, canonical_unique, concat-IsCanonical, reading-concat,
}
use arp.Base58.Digits.{
  digits_of-map, nth_one, leading-replicate, leading_split, reading_zeros, backwards-backwards,
  All-backwards, All-replicate, map-replicate, canonical_top, canonical_below,
}

reading-backwards :
    (m : ℕ) (ds : List ℕ)
    → ((d v : ℕ) → v * m + d ≡ d + m * v)
    → ((n : ℕ) (xs : List ℕ) (x : ℕ) → reading m n (xs ++ x ∷ []) ≡ reading m n xs * m + x)
    → reading m 0 (backwards ds) ≡ value m ds
unfolding backwards
reading-backwards m [] turn last = refl
reading-backwards m (d ∷ ds) turn last =
    last 0 (backwards ds) d
    ∙ ap (λ v. v * m + d) (reading-backwards m ds turn last)
    ∙ turn d (value m ds)

reading-backwards58 : (ds : List ℕ) → reading 58 0 (backwards ds) ≡ value 58 ds
reading-backwards58 ds =
    reading-backwards 58 ds (λ d v. omega arith) (reading-concat 58 256 to_256-IsRadix)

reading-backwards256 : (ds : List ℕ) → reading 256 0 (backwards ds) ≡ value 256 ds
reading-backwards256 ds =
    reading-backwards 256 ds (λ d v. omega arith) (reading-concat 256 58 to_58-IsRadix)

All-drop_zeros :
    (t n : ℕ) (ys : List ℕ) → All (λ d. d < t) (replicate n 0 ++ ys) → All (λ d. d < t) ys
unfolding replicate
All-drop_zeros t zero ys h = h
All-drop_zeros t (suc n) ys (low, h) = All-drop_zeros t n ys h

decode_text :
    (text ds : List ℕ)
    → digits_of text ≡ some ds
    → 0 < reading 58 0 ds
    → base58btc_decode text
      ≡ some (replicate (leading b'1' text) 0 ++ backwards (accumulate 58 256 (0 ∷ []) ds))
unfolding base58btc_decode digits_of
decode_text [] [] h positive = absurd (omega (arith, positive))
decode_text [] (d ∷ ds) h positive = cc
decode_text (c ∷ cs) ds h positive = rw (h, base58btc_decode) refl

-- decoding the text of canonical digits after some zeros
decode_digits :
    (z : ℕ) (ds : List ℕ)
    → IsCanonical 58 ds
    → 0 < value 58 ds
    → base58btc_decode (replicate z b'1' ++ map (nth alphabet) (backwards ds))
      ≡ some
          (replicate z 0 ++ backwards (accumulate 58 256 (0 ∷ []) (replicate z 0 ++ backwards ds)))
decode_digits z [] canonical positive = absurd (omega (arith, positive))
decode_digits z (d ∷ ds) canonical positive =
    let all : List ℕ = replicate z 0 ++ backwards (d ∷ ds) in
    let low : All (λ d. d < 58) all =
      All-append (λ d. d < 58) (replicate z 0) (backwards (d ∷ ds))
        (All-replicate 58 z (omega arith))
        (All-backwards 58 (d ∷ ds) (canonical_below 58 (d ∷ ds) canonical)) in
    let (top, front, same, p, l) = canonical_top 58 d ds canonical in
    let number : 0 < reading 58 0 all =
      subst (λ n. 0 < n)
        (sym (reading_zeros 58 z (backwards (d ∷ ds)) refl ∙ reading-backwards58 (d ∷ ds)))
        positive in
    let zeros : leading b'1' (replicate z b'1' ++ map (nth alphabet) (backwards (d ∷ ds))) ≡ z =
      ap (λ r. leading b'1' (replicate z b'1' ++ map (nth alphabet) r)) same
      ∙ leading-replicate b'1' z (nth alphabet top) (map (nth alphabet) front) (nth_one top p l) in
    decode_text (replicate z b'1' ++ map (nth alphabet) (backwards (d ∷ ds))) all
      (ap digits_of (sym (map-replicate z (backwards (d ∷ ds)))) ∙ digits_of-map all low) number
    ∙ ap (λ n. some (replicate n 0 ++ backwards (accumulate 58 256 (0 ∷ []) all))) zeros

-- the bytes that the decoder computes are those that were encoded
decoded_bytes :
    (bs : List ℕ)
    → All (λ b. b < 256) bs
    → 0 < reading 256 0 bs
    → replicate (leading 0 bs) 0
        ++ backwards (
            accumulate 58 256
              (0 ∷ [])
              (replicate (leading 0 bs) 0 ++ backwards (accumulate 256 58 (0 ∷ []) bs)))
      ≡ bs
unfolding backwards
decoded_bytes bs low positive =
    let (x, rest, same, p) = leading_split 256 bs refl positive in
    let z : ℕ = leading 0 bs in
    let ds : List ℕ = accumulate 256 58 (0 ∷ []) bs in
    let number : value 58 ds ≡ reading 256 0 bs =
      value-accumulate 256 58 to_58-IsRadix (0 ∷ []) bs in
    let digits : List ℕ = replicate z 0 ++ backwards ds in
    let reads : reading 58 0 digits ≡ reading 256 0 bs =
      reading_zeros 58 z (backwards ds) refl ∙ reading-backwards58 ds ∙ number in
    let original : All (λ b. b < 256) (x ∷ rest) =
      All-drop_zeros 256 z (x ∷ rest) (subst (All (λ b. b < 256)) same low) in
    let back : value 256 (backwards (x ∷ rest)) ≡ reading 256 0 bs =
      sym (reading-backwards256 (backwards (x ∷ rest)))
      ∙ ap (reading 256 0) (backwards-backwards (x ∷ rest))
      ∙ sym (reading_zeros 256 z (x ∷ rest) refl)
      ∙ ap (reading 256 0) (sym same) in
    let agree : accumulate 58 256 (0 ∷ []) digits ≡ backwards (x ∷ rest) =
      canonical_unique 58 256 to_256-IsRadix (accumulate 58 256 (0 ∷ []) digits)
        (backwards (x ∷ rest))
        (accumulate_from_zero 58 256 to_256-IsRadix digits
          (subst (λ n. 0 < n) (sym reads) positive))
        (concat-IsCanonical 58 256 to_256-IsRadix (backwards rest) x
          (All-backwards 256 rest original.1) p original.0)
        (value-accumulate 58 256 to_256-IsRadix (0 ∷ []) digits ∙ reads ∙ sym back) in
    ap (λ r. replicate z 0 ++ backwards r) agree
    ∙ ap (λ r. replicate z 0 ++ r) (backwards-backwards (x ∷ rest))
    ∙ sym same

-- Bytes that are not all zero are decoded as they were encoded, leading zeros included.
pub base58btc_decode-encode :
    (bs : List ℕ)
    → All (λ b. b < 256) bs
    → 0 < reading 256 0 bs
    → base58btc_decode (base58btc_encode bs) ≡ some bs
unfolding base58btc_encode
base58btc_decode-encode [] low positive = absurd (omega (arith, positive))
base58btc_decode-encode (b ∷ bs) low positive =
    let ds : List ℕ = accumulate 256 58 (0 ∷ []) (b ∷ bs) in
    decode_digits (leading 0 (b ∷ bs)) ds
      (accumulate_from_zero 256 58 to_58-IsRadix (b ∷ bs) positive)
      (subst (λ n. 0 < n) (sym (value-accumulate 256 58 to_58-IsRadix (0 ∷ []) (b ∷ bs))) positive)
    ∙ ap some (decoded_bytes (b ∷ bs) low positive)
