-- ===== src/Base58.antt =====
-- The codec base58btc of packages/transport/src/envelope.ts, of which packages/resolver/src/did-key.ts
-- has a copy, and the texts of keys over it. A text is the list of its character codes; a byte is a
-- number below 256. The digits of a number stand lowest first, as in the code's arrays.
pub mod Radix
pub mod Digits
pub mod RoundTrip
pub mod Keys
mod Tests
use arp.Common.{
  ℕ, zero, suc, ◌+◌, ◌*◌, ◌/◌, ◌%◌, Bool, true, false, Option, none, some, List, [], ◌∷◌, ◌++◌, map,
  nat_eq, ◌==◌, eqb, if◌then◌else◌, length,
}

-- `while (carry > 0) push carry % t`, on as much fuel as the carry
unfoldable pub push : ℕ → ℕ → ℕ → List ℕ
push t zero c = []
push t (suc n) c = let rest = push t n (c / t) in if eqb c 0 then [] else c % t ∷ rest

-- the digits in base t of a number times m, plus the carry: one round of the loops
unfoldable pub mul_add : ℕ → ℕ → ℕ → List ℕ → List ℕ
unfolding push
mul_add m t c [] = push t c c
mul_add m t c (d ∷ ds) = (c + d * m) % t ∷ mul_add m t ((c + d * m) / t) ds

unfoldable pub accumulate : ℕ → ℕ → List ℕ → List ℕ → List ℕ
unfolding mul_add
accumulate m t ds [] = ds
accumulate m t ds (x ∷ xs) = accumulate m t (mul_add m t x ds) xs

-- how many elements at the start are z
unfoldable pub leading : ℕ → List ℕ → ℕ
leading z [] = 0
leading z (x ∷ xs) = let rest = leading z xs in if x == z then suc rest else 0

unfoldable pub replicate : ℕ → ℕ → List ℕ
replicate zero x = []
replicate (suc n) x = x ∷ replicate n x

unfoldable pub backwards : List ℕ → List ℕ
backwards [] = []
backwards (x ∷ xs) = backwards xs ++ x ∷ []

-- `BASE58_ALPHABET`
abbrev pub alphabet : List ℕ
alphabet =
    b'1' ∷ b'2' ∷ b'3' ∷ b'4' ∷ b'5' ∷ b'6' ∷ b'7' ∷ b'8' ∷ b'9' ∷ b'A' ∷ b'B' ∷ b'C' ∷ b'D' ∷ b'E'
    ∷ b'F' ∷ b'G' ∷ b'H' ∷ b'J' ∷ b'K' ∷ b'L' ∷ b'M' ∷ b'N' ∷ b'P' ∷ b'Q' ∷ b'R' ∷ b'S' ∷ b'T'
    ∷ b'U' ∷ b'V' ∷ b'W' ∷ b'X' ∷ b'Y' ∷ b'Z' ∷ b'a' ∷ b'b' ∷ b'c' ∷ b'd' ∷ b'e' ∷ b'f' ∷ b'g'
    ∷ b'h' ∷ b'i' ∷ b'j' ∷ b'k' ∷ b'm' ∷ b'n' ∷ b'o' ∷ b'p' ∷ b'q' ∷ b'r' ∷ b's' ∷ b't' ∷ b'u'
    ∷ b'v' ∷ b'w' ∷ b'x' ∷ b'y' ∷ b'z' ∷ []

-- `BASE58_ALPHABET[d]`, of a digit below 58
unfoldable pub nth : List ℕ → ℕ → ℕ
nth [] n = 0
nth (x ∷ xs) zero = x
nth (x ∷ xs) (suc n) = nth xs n

abbrev pub later : Option ℕ → Option ℕ
later none = none
later (some n) = some (suc n)

-- `BASE58_DECODE[c]`
unfoldable pub index : List ℕ → ℕ → Option ℕ
index [] c = none
index (x ∷ xs) c = let rest = index xs c in if x == c then some 0 else later rest

-- the digits of a text, `none` where a character is no digit
unfoldable pub digits_of : List ℕ → Option (List ℕ)
unfolding index
digits_of [] = some []
digits_of (c ∷ cs) = elim (index alphabet c) [
  | none ↦ none
  | some d ↦ elim (digits_of cs) [ none ↦ none | some ds ↦ some (d ∷ ds) ]
]

unfoldable pub base58btc_encode : List ℕ → List ℕ
unfolding accumulate leading replicate backwards nth
base58btc_encode [] = []
base58btc_encode (b ∷ bs) =
    replicate (leading 0 (b ∷ bs)) b'1'
    ++ map (nth alphabet) (backwards (accumulate 256 58 (0 ∷ []) (b ∷ bs)))

-- `none` where the code throws
unfoldable pub base58btc_decode : List ℕ → Option (List ℕ)
unfolding accumulate leading replicate backwards digits_of
base58btc_decode [] = some []
base58btc_decode (c ∷ cs) = elim (digits_of (c ∷ cs)) [
  | none ↦ none
  | some ds ↦
      some (replicate (leading b'1' (c ∷ cs)) 0 ++ backwards (accumulate 58 256 (0 ∷ []) ds))
]
