-- ===== src/Common/Equality.antt =====
-- Equality of keys as an interface: `===` on texts, numbers and pairs.
use Prim.Native.Nat.{ℕ}
use Prim.Native.String.{String}
use mathlib.Core.Path.{◌≡◌, refl}
use mathlib.Core.Logic.{◌↔◌, ◌≢◌, inl, inr}
use mathlib.Core.Bool.{Bool, true, false, false≢true}
use native.Mathlib.Omega.{arith}
use text.Mathlib.Text.{◌==◌ as str_eq}
use text.Mathlib.TextEquality.{eq_iff}
use arp.Common.Tests.{eqb, Bool-cases}

pub record Eq {κ} (T : Type κ) : Type κ where
  pub agrees : T → T → Bool
  pub agrees_iff : (s t : T) → (agrees s t ≡ true) ↔ (s ≡ t)

module _ {κ} {T : Type κ} where
  infix 50 ◌==◌
  abbrev pub ◌==◌ : ⦃e : Eq T⦄ → T → T → Bool
  ◌==◌ ⦃e⦄ s t = e.agrees s t

pub eqb_iff : (a b : ℕ) → (eqb a b ≡ true) ↔ (a ≡ b)
eqb_iff a b = ground arith

instance abbrev pub nat_eq : Eq ℕ
nat_eq = record { agrees = eqb; agrees_iff = eqb_iff }

instance abbrev pub string_eq : Eq String
string_eq = record { agrees = str_eq; agrees_iff = eq_iff }

module _ {ℓ} {A : Type ℓ} ⦃e : Eq A⦄ where
  pub ==_refl : (a : A) → (a == a) ≡ true
  ==_refl a = (e.agrees_iff a a).1 refl

  pub eq_of_== : {a b : A} → (a == b) ≡ true → a ≡ b
  eq_of_== {a} {b} h = (e.agrees_iff a b).0 h

  pub ==_of_ne : (a b : A) → a ≢ b → (a == b) ≡ false
  ==_of_ne a b h = ground (arith, e.agrees_iff a b)

  pub ne_of_== : {a b : A} → (a == b) ≡ false → a ≢ b
  ne_of_== {a} {b} h p = ground (arith, e.agrees_iff a b)

unfoldable pub String-discrete : Discrete String
String-discrete s t = elim (Bool-cases (str_eq s t)) [
  | inl same ↦ yes ((eq_iff s t).0 same)
  | inr other ↦ no (ne_of_== other)
]

-- equality by a decision procedure
abbrev pub dec_beq {ℓ} : {A : Type ℓ} → Discrete A → A → A → Bool
dec_beq d a b = elim (d a b) [ yes p ↦ true | no n ↦ false ]

pub dec_beq_iff {ℓ} : {A : Type ℓ} (d : Discrete A) (a b : A) → (dec_beq d a b ≡ true) ↔ (a ≡ b)
dec_beq_iff d a b =
    elim (d a b) as (λ r. ((elim r [ yes p ↦ true | no n ↦ false ]) ≡ true) ↔ (a ≡ b)) [
      | yes p ↦ (λ h. p, λ h. refl)
      | no n ↦ (λ h. absurd (false≢true h), λ p. absurd (n p))
    ]

abbrev pub eq_of_Discrete {ℓ} : {A : Type ℓ} → Discrete A → Eq A
eq_of_Discrete d = record { agrees = dec_beq d; agrees_iff = dec_beq_iff d }
