-- ===== src/Base58/Digits.antt =====
-- The characters of digits, zeros at the start, and reversal, in the codec of
-- packages/transport/src/envelope.ts.
use mathlib.Core.Path.{subst}
use mathlib.Core.List.{append-nil, append_assoc}
use arp.Common.{
  ℕ, zero, suc, ◌+◌, ◌*◌, ◌<◌, ◌≡◌, refl, sym, ◌∙◌, ap, Bool, true, false, ◌&&◌, not, some, List,
  [], ◌∷◌, ◌++◌, map, All, All-append, IsDistinct, includes, length, nat_eq, ◌==◌, arith, inl, inr,
  Bool-cases,
}
use arp.Base58.{leading, replicate, backwards, nth, index, digits_of, alphabet}
use arp.Base58.Radix.{reading, IsCanonical}

includes-nth : (xs : List ℕ) (n : ℕ) → n < length xs → includes xs (nth xs n) ≡ true
unfolding nth
includes-nth [] n h = absurd (omega (arith, h))
includes-nth (x ∷ xs) zero h = ground arith
includes-nth (x ∷ xs) (suc n) h = ground (arith, includes-nth xs n (omega (arith, h)))

-- without repetitions, a place is found again by what stands there
index-nth : (xs : List ℕ) (n : ℕ) → IsDistinct xs → n < length xs → index xs (nth xs n) ≡ some n
unfolding nth index
index-nth [] n d h = absurd (omega (arith, h))
index-nth (x ∷ xs) zero d h = ground arith
index-nth (x ∷ xs) (suc n) (once, d) h =
    ground (arith, index-nth xs n d (omega (arith, h)), includes-nth xs n (omega (arith, h)))

distinct : List ℕ → Bool
distinct [] = true
distinct (x ∷ xs) = not (includes xs x) && distinct xs

distinct-IsDistinct : (xs : List ℕ) → distinct xs ≡ true → IsDistinct xs
unfolding distinct
distinct-IsDistinct [] h = tt
distinct-IsDistinct (x ∷ xs) h = elim (Bool-cases (includes xs x)) [
  | inl there ↦ cc (rw there at h)
  | inr once ↦ (once, distinct-IsDistinct xs (rw once at h))
]

alphabet-IsDistinct : IsDistinct alphabet
unfolding distinct
alphabet-IsDistinct = distinct-IsDistinct alphabet refl

pub index_alphabet : (d : ℕ) → d < 58 → index alphabet (nth alphabet d) ≡ some d
index_alphabet d h = index-nth alphabet d alphabet-IsDistinct h

-- the digits of a text of digits are read back
pub digits_of-map :
    (ds : List ℕ) → All (λ d. d < 58) ds → digits_of (map (nth alphabet) ds) ≡ some ds
unfolding digits_of
digits_of-map [] h = refl
digits_of-map (d ∷ ds) (low, h) = rw (index_alphabet d low, digits_of-map ds h, digits_of) refl

-- only the digit zero is written '1'
pub nth_one : (d : ℕ) → 0 < d → d < 58 → (nth alphabet d == b'1') ≡ false
unfolding index nth
nth_one d positive low = elim (Bool-cases (nth alphabet d == b'1')) [
  | inr other ↦ other
  | inl same ↦
      let found : index alphabet b'1' ≡ some d =
        subst (λ c. index alphabet c ≡ some d) ((nat_eq.agrees_iff (nth alphabet d) b'1').0 same)
          (index_alphabet d low) in
      absurd (omega (arith, positive, some_eq d found))
]
  where
    some_eq : (d : ℕ) → some 0 ≡ some d → 0 ≡ d
    some_eq d h = cc

pub leading-replicate :
    (z n y : ℕ) (ys : List ℕ) → (y == z) ≡ false → leading z (replicate n z ++ y ∷ ys) ≡ n
unfolding leading replicate
leading-replicate z zero y ys other = rw other refl
leading-replicate z (suc n) y ys other = ground (arith, leading-replicate z n y ys other)

-- a text of a positive number is its zeros and then a digit that is none
pub leading_split :
    (m : ℕ) (xs : List ℕ)
    → 0 * m + 0 ≡ 0
    → 0 < reading m 0 xs
    → (x : ℕ) × (rest : List ℕ) × (xs ≡ replicate (leading 0 xs) 0 ++ x ∷ rest) × (0 < x)
unfolding leading replicate
leading_split m [] none_ h = absurd (omega (arith, h))
leading_split m (suc x ∷ xs) none_ h = (suc x, xs, ground arith, omega arith)
leading_split m (zero ∷ xs) none_ h =
    let (x, rest, same, positive) =
      leading_split m xs none_ (subst (λ n. 0 < reading m n xs) none_ h) in
    (x, rest, ap (λ r. 0 ∷ r) same, positive)

pub reading_zeros :
    (m n : ℕ) (xs : List ℕ) → 0 * m + 0 ≡ 0 → reading m 0 (replicate n 0 ++ xs) ≡ reading m 0 xs
unfolding replicate
reading_zeros m zero xs none_ = refl
reading_zeros m (suc n) xs none_ =
    ap (λ k. reading m k (replicate n 0 ++ xs)) none_ ∙ reading_zeros m n xs none_

backwards-append : (xs ys : List ℕ) → backwards (xs ++ ys) ≡ backwards ys ++ backwards xs
unfolding backwards
backwards-append [] ys = sym (append-nil (backwards ys))
backwards-append (x ∷ xs) ys =
    ap (λ r. r ++ x ∷ []) (backwards-append xs ys)
    ∙ append_assoc (backwards ys) (backwards xs) (x ∷ [])

pub backwards-backwards : (xs : List ℕ) → backwards (backwards xs) ≡ xs
unfolding backwards
backwards-backwards [] = refl
backwards-backwards (x ∷ xs) =
    backwards-append (backwards xs) (x ∷ []) ∙ ap (λ r. x ∷ r) (backwards-backwards xs)

pub All-backwards : (t : ℕ) (xs : List ℕ) → All (λ d. d < t) xs → All (λ d. d < t) (backwards xs)
unfolding backwards
All-backwards t [] h = tt
All-backwards t (x ∷ xs) (low, h) =
    All-append (λ d. d < t) (backwards xs) (x ∷ []) (All-backwards t xs h) (low, tt)

pub All-replicate : (t n : ℕ) → 0 < t → All (λ d. d < t) (replicate n 0)
unfolding replicate
All-replicate t zero h = tt
All-replicate t (suc n) h = (h, All-replicate t n h)

pub map-replicate :
    (n : ℕ) (ds : List ℕ)
    → map (nth alphabet) (replicate n 0 ++ ds) ≡ replicate n b'1' ++ map (nth alphabet) ds
unfolding replicate nth
map-replicate zero ds = refl
map-replicate (suc n) ds = ap (λ r. b'1' ∷ r) (map-replicate n ds)

-- canonical digits, read from the highest
pub canonical_top :
    (t d : ℕ) (ds : List ℕ)
    → IsCanonical t (d ∷ ds)
    → (top : ℕ) × (front : List ℕ) × (backwards (d ∷ ds) ≡ top ∷ front) × (0 < top) × (top < t)
unfolding backwards
canonical_top t d [] (low, positive, h) = (d, [], refl, only t d positive, low)
  where
    only : (t d : ℕ) → 0 < d + t * 0 → 0 < d
    only t d h = omega (arith, h)
canonical_top t d (e ∷ ds) (low, positive, h) =
    let (top, front, same, p, l) = canonical_top t e ds h in
    (top, front ++ d ∷ [], ap (λ r. r ++ d ∷ []) same, p, l)

pub canonical_below : (t : ℕ) (ds : List ℕ) → IsCanonical t ds → All (λ d. d < t) ds
canonical_below t [] h = tt
canonical_below t (d ∷ ds) (low, positive, h) = (low, canonical_below t ds h)
