-- ===== src/Base58/Radix.antt =====
-- The numbers that the digits of packages/transport/src/envelope.ts stand for: `mul_add` multiplies and
-- adds, and digits without a leading zero are determined by their number.
use mathlib.Core.Path.{subst}
use arp.Common.{
  ℕ, zero, suc, ◌+◌, ◌*◌, ◌/◌, ◌%◌, ◌≤◌, ◌<◌, ◌≡◌, refl, sym, ◌∙◌, ap, List, [], ◌∷◌, ◌++◌, eqb,
  All, arith, inl, inr, Bool-cases,
}
use arp.Base58.{push, mul_add, accumulate}

-- the number of digits in base t, lowest first
abbrev pub value : ℕ → List ℕ → ℕ
value t [] = 0
value t (d ∷ ds) = d + t * value t ds

-- the number of digits in base m, highest first, after those that make up n
abbrev pub reading : ℕ → ℕ → List ℕ → ℕ
reading m n [] = n
reading m n (x ∷ xs) = reading m (n * m + x) xs

-- Digits below t that do not end in zeros: every rest of them stands for a positive number.
abbrev pub IsCanonical : ℕ → List ℕ → Type 0
IsCanonical t [] = Unit
IsCanonical t (d ∷ ds) = (d < t) × (0 < value t (d ∷ ds)) × IsCanonical t ds

-- the arithmetic of the rounds, which holds of the bases that the code converts
pub record IsRadix (m t : ℕ) : Type 0 where
  pub split : (c : ℕ) → c % t + t * (c / t) ≡ c
  pub below : (c : ℕ) → c % t < t
  pub shrink : (n c : ℕ) → c ≤ suc n → c / t ≤ n
  pub combine : (c d v : ℕ) → (c + d * m) % t + t * (v * m + (c + d * m) / t) ≡ (d + t * v) * m + c
  pub unmix : (d e v u : ℕ) → d < t → e < t → d + t * v ≡ e + t * u → (d ≡ e) × (v ≡ u)
  pub grows : (v c : ℕ) → 0 < v → 0 < v * m + c
  pub zero_step : mul_add m t 0 (0 ∷ []) ≡ 0 ∷ []
  pub no_number : 0 * m + 0 ≡ 0
  pub weigh : (x v : ℕ) → 0 < x → 0 < x + t * v
  pub lift : (d v : ℕ) → 0 < v → 0 < d + t * v

pub to_58-IsRadix : IsRadix 256 58
unfolding mul_add push
to_58-IsRadix = record {
  split = λ c. omega arith;
  below = λ c. omega arith;
  shrink = λ n c h. omega (arith, h);
  combine = λ c d v. omega arith;
  unmix = λ d e v u hd he h. (omega (arith, hd, he, h), omega (arith, hd, he, h));
  grows = λ v c h. omega (arith, h);
  zero_step = refl;
  no_number = refl;
  weigh = λ x v h. omega (arith, h);
  lift = λ d v h. omega (arith, h);
}

pub to_256-IsRadix : IsRadix 58 256
unfolding mul_add push
to_256-IsRadix = record {
  split = λ c. omega arith;
  below = λ c. omega arith;
  shrink = λ n c h. omega (arith, h);
  combine = λ c d v. omega arith;
  unmix = λ d e v u hd he h. (omega (arith, hd, he, h), omega (arith, hd, he, h));
  grows = λ v c h. omega (arith, h);
  zero_step = refl;
  no_number = refl;
  weigh = λ x v h. omega (arith, h);
  lift = λ d v h. omega (arith, h);
}

module _ (m t : ℕ) (r : IsRadix m t) where
  value-push : (n c : ℕ) → c ≤ n → value t (push t n c) ≡ c
  unfolding push
  value-push zero c h = omega (arith, h)
  value-push (suc n) c h = elim (Bool-cases (eqb c 0)) [
    | inl none_ ↦ rw none_ (ground arith)
    | inr some_ ↦
        rw some_ (ap (λ v. c % t + t * v) (value-push n (c / t) (r.shrink n c h)) ∙ r.split c)
  ]

  value-mul_add : (c : ℕ) (ds : List ℕ) → value t (mul_add m t c ds) ≡ value t ds * m + c
  unfolding mul_add
  value-mul_add c [] = value-push c c (omega arith) ∙ omega arith
  value-mul_add c (d ∷ ds) =
      ap (λ v. (c + d * m) % t + t * v) (value-mul_add ((c + d * m) / t) ds)
      ∙ r.combine c d (value t ds)

  pub value-accumulate :
      (ds xs : List ℕ) → value t (accumulate m t ds xs) ≡ reading m (value t ds) xs
  unfolding accumulate
  value-accumulate ds [] = refl
  value-accumulate ds (x ∷ xs) =
      value-accumulate (mul_add m t x ds) xs ∙ ap (λ n. reading m n xs) (value-mul_add x ds)

  push-IsCanonical : (n c : ℕ) → c ≤ n → IsCanonical t (push t n c)
  unfolding push
  push-IsCanonical zero c h = tt
  push-IsCanonical (suc n) c h = elim (Bool-cases (eqb c 0)) [
    | inl none_ ↦ rw none_ tt
    | inr some_ ↦ rw some_ (
      r.below c,
      subst (λ v. 0 < v)
          (sym (ap (λ v. c % t + t * v) (value-push n (c / t) (r.shrink n c h)) ∙ r.split c))
          (ground arith),
      push-IsCanonical n (c / t) (r.shrink n c h),
    )
  ]

  mul_add-IsCanonical : (c : ℕ) (ds : List ℕ) → IsCanonical t ds → IsCanonical t (mul_add m t c ds)
  unfolding mul_add
  mul_add-IsCanonical c [] h = push-IsCanonical c c (omega arith)
  mul_add-IsCanonical c (d ∷ ds) (low, positive, h) = (
    r.below (c + d * m),
    subst (λ v. 0 < v) (sym (value-mul_add c (d ∷ ds))) (r.grows (value t (d ∷ ds)) c positive),
    mul_add-IsCanonical ((c + d * m) / t) ds h,
  )

  accumulate-IsCanonical :
      (ds xs : List ℕ) → IsCanonical t ds → IsCanonical t (accumulate m t ds xs)
  unfolding accumulate
  accumulate-IsCanonical ds [] h = h
  accumulate-IsCanonical ds (x ∷ xs) h =
      accumulate-IsCanonical (mul_add m t x ds) xs (mul_add-IsCanonical x ds h)

  -- from the digit zero, the digits of a positive number are canonical
  pub accumulate_from_zero :
      (xs : List ℕ) → 0 < reading m 0 xs → IsCanonical t (accumulate m t (0 ∷ []) xs)
  unfolding accumulate
  accumulate_from_zero [] h = absurd (omega (arith, h))
  accumulate_from_zero (zero ∷ xs) h =
      rw (r.zero_step) (accumulate_from_zero xs (subst (λ n. 0 < reading m n xs) r.no_number h))
  accumulate_from_zero (suc x ∷ xs) h = accumulate-IsCanonical (mul_add m t (suc x) (0 ∷ [])) xs (
    r.below (suc x + 0 * m),
    subst (λ v. 0 < v) (sym (value-mul_add (suc x) (0 ∷ []))) (positive (value t (0 ∷ []) * m)),
    push-IsCanonical ((suc x + 0 * m) / t) ((suc x + 0 * m) / t) (omega arith),
  )
    where
      positive : (n : ℕ) → 0 < n + suc x
      positive n = omega arith

  -- canonical digits are determined by their number
  pub canonical_unique :
      (ds es : List ℕ) → IsCanonical t ds → IsCanonical t es → value t ds ≡ value t es → ds ≡ es
  canonical_unique [] [] hd he same = refl
  canonical_unique [] (e ∷ es) hd (low, positive, he) same = absurd (omega (arith, positive, same))
  canonical_unique (d ∷ ds) [] (low, positive, hd) he same = absurd (omega (arith, positive, same))
  canonical_unique (d ∷ ds) (e ∷ es) (ld, pd, hd) (le, pe, he) same =
      let (first, rest) = r.unmix d e (value t ds) (value t es) ld le same in
      ap (λ x. x ∷ ds) first ∙ ap (λ xs. e ∷ xs) (canonical_unique ds es hd he rest)

  pub concat-IsCanonical :
      (ds : List ℕ) (x : ℕ) → All (λ d. d < t) ds → 0 < x → x < t → IsCanonical t (ds ++ x ∷ [])
  concat-IsCanonical [] x h positive low = (low, r.weigh x 0 positive, tt)
  concat-IsCanonical (d ∷ ds) x (ld, h) positive low =
      let rest = concat-IsCanonical ds x h positive low in
      (ld, r.lift d _ (positive_value ds x h positive low), rest)
    where
      positive_value :
          (ds : List ℕ) (x : ℕ) → All (λ d. d < t) ds → 0 < x → x < t → 0 < value t (ds ++ x ∷ [])
      positive_value [] x h p l = r.weigh x 0 p
      positive_value (d ∷ ds) x (ld, h) p l = r.lift d _ (positive_value ds x h p l)

  pub reading-concat :
      (n : ℕ) (xs : List ℕ) (x : ℕ) → reading m n (xs ++ x ∷ []) ≡ reading m n xs * m + x
  reading-concat n [] x = refl
  reading-concat n (y ∷ xs) x = reading-concat (n * m + y) xs x
