-- ===== src/Prelude/Tests.antt =====
-- Boolean tests on the native numbers, the conditional, and equality as an interface.
use Prim.Native.Nat.{ℕ, compare, Ordering}
use mathlib.Core.Path.{◌≡◌, refl}
use mathlib.Core.Logic.{◌↔◌, ◌⊎◌, inl, inr}
use mathlib.Core.Bool.{Bool, true, false}
use mathlib.Core.Option.{Option, none, some}
use native.Mathlib.Omega.{arith}

abbrev pub ltb : ℕ → ℕ → Bool
ltb a b = elim (compare a b) [ Ordering.lt ↦ true | _ ↦ false ]

abbrev pub leb : ℕ → ℕ → Bool
leb a b = elim (compare a b) [ Ordering.gt ↦ false | _ ↦ true ]

abbrev pub nat_beq : ℕ → ℕ → Bool
nat_beq a b = elim (compare a b) [ Ordering.eq ↦ true | _ ↦ false ]

infix 1 if◌then◌else◌
abbrev pub if◌then◌else◌ {ℓ} : {A : Type ℓ} → Bool → A → A → A
if true then x else y = x
if false then x else y = y

abbrev pub is_some {ℓ} : {A : Type ℓ} → Option A → Bool
is_some none = false
is_some (some a) = true

pub nat_beq_iff : (a b : ℕ) → (nat_beq a b ≡ true) ↔ (a ≡ b)
nat_beq_iff a b = ground arith

pub Bool-cases : (b : Bool) → (b ≡ true) ⊎ (b ≡ false)
Bool-cases true = inl refl
Bool-cases false = inr refl

-- A property of both branches is one of the conditional.
pub under_test {ℓ κ} :
    {A : Type ℓ} (P : A → Type κ) (b : Bool) (x y : A)
    → (b ≡ true → P x)
    → (b ≡ false → P y)
    → P (if b then x else y)
under_test P true x y first second = first refl
under_test P false x y first second = second refl

pub Option-cases {ℓ} : {A : Type ℓ} (o : Option A) → (o ≡ none) ⊎ ((a : A) × (o ≡ some a))
Option-cases none = inl refl
Option-cases (some a) = inr (a, refl)

-- What `===` decides on a type of the program: an enum, a number or a text.
pub record HasEq {ℓ} (T : Type ℓ) : Type ℓ where
  pub test : (x y : T) → Bool
  pub test_iff : (x y : T) → (test x y ≡ true) ↔ (x ≡ y)

infix 50 ◌==◌
abbrev pub ◌==◌ {ℓ} : {T : Type ℓ} ⦃d : HasEq T⦄ (x y : T) → Bool
◌==◌ ⦃d⦄ x y = d.test x y

instance abbrev pub nat_eq : HasEq ℕ
nat_eq = record { test = λ x y. nat_beq x y; test_iff = nat_beq_iff }

abbrev of_dec {ℓ} : {P : Type ℓ} → Dec P → Bool
of_dec (yes p) = true
of_dec (no p) = false

pub of_dec_iff {ℓ} : {P : Type ℓ} (d : Dec P) → (of_dec d ≡ true) ↔ P
of_dec_iff (yes p) = (λ _. p, λ _. refl)
of_dec_iff (no n) = (λ h. absurd (cc h), λ p. absurd (n p))

-- The equality test of an enum, from its decision.
abbrev pub eq_of {ℓ} : {A : Type ℓ} → Discrete A → HasEq A
eq_of d = record { test = λ a b. of_dec (d a b); test_iff = λ a b. of_dec_iff (d a b) }

module _ {ℓ} {A : Type ℓ} ⦃e : HasEq A⦄ where
  pub ==_refl : (a : A) → (a == a) ≡ true
  ==_refl a = (e.test_iff a a).1 refl

  pub ==→≡ : (a b : A) → (a == b) ≡ true → a ≡ b
  ==→≡ a b h = (e.test_iff a b).0 h

  pub ==_comm : (a b : A) → (a == b) ≡ (b == a)
  ==_comm a b = elim (Bool-cases (a == b)) [
    | inl same ↦ rw (==→≡ a b same) refl
    | inr other ↦ elim (Bool-cases (b == a)) [
      | inl same ↦ rw (==→≡ b a same) refl
      | inr apart ↦ rw (other, apart) refl
    ]
  ]
