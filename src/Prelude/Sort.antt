-- ===== src/Prelude/Sort.antt =====
-- Sorting as `Array.prototype.sort` does it, and the order of strings.
use Prim.Native.Nat.{suc}
use mathlib.Core.Path.{◌≡◌, refl, ap, ◌∙◌}
use mathlib.Core.Logic.{inl, inr}
use mathlib.Core.Bool.{Bool, true, false}
use native.Mathlib.Omega.{arith}
use powerotp.Prelude.Lists.{length, every}
use mathlib.Core.List.{List, [], ◌∷◌}
use powerotp.Prelude.Tests.{◌==◌, Bool-cases, nat_eq, ltb, if◌then◌else◌}
use powerotp.Prelude.Strings.{Text}

-- `left < right`, by code units.
abbrev pub text_less : Text → Text → Bool
text_less [] [] = false
text_less [] (d ∷ t) = true
text_less (c ∷ s) [] = false
text_less (c ∷ s) (d ∷ t) = let rest = text_less s t in if c == d then rest else ltb c d

-- `sort`, which is stable, by whether one item comes before another.
abbrev pub insert {ℓ} : {A : Type ℓ} → (A → A → Bool) → A → List A → List A
insert before x [] = x ∷ []
insert before x (y ∷ ys) =
    let rest = insert before x ys in if before y x then y ∷ rest else x ∷ y ∷ ys

abbrev pub sort {ℓ} : {A : Type ℓ} → (A → A → Bool) → List A → List A
sort before [] = []
sort before (x ∷ xs) = insert before x (sort before xs)

module _ {ℓ} {A : Type ℓ} (before : A → A → Bool) where
  length-insert : (x : A) (ys : List A) → length (insert before x ys) ≡ suc (length ys)
  length-insert x [] = refl
  length-insert x (y ∷ ys) = elim (Bool-cases (before y x)) [
    | inl earlier ↦ rw earlier (ap (λ n. suc n) (length-insert x ys))
    | inr later ↦ rw later refl
  ]

  pub length-sort : (xs : List A) → length (sort before xs) ≡ length xs
  length-sort [] = refl
  length-sort (x ∷ xs) = length-insert x (sort before xs) ∙ ap (λ n. suc n) (length-sort xs)

  pub every-insert :
      (p : A → Bool) (x : A) (ys : List A)
      → p x ≡ true
      → every p ys ≡ true
      → every p (insert before x ys) ≡ true
  every-insert p x [] h k = rw h refl
  every-insert p x (y ∷ ys) h k = elim (Bool-cases (before y x)) [
    | inl earlier ↦
        let first : p y ≡ true = ground (arith, k) in
        let others : every p ys ≡ true = ground (arith, k) in
        rw (earlier, first) (every-insert p x ys h others)
    | inr later ↦ rw (later, h) k
  ]

  pub every-sort :
      (p : A → Bool) (xs : List A) → every p xs ≡ true → every p (sort before xs) ≡ true
  every-sort p [] h = refl
  every-sort p (x ∷ xs) h =
      let first : p x ≡ true = ground (arith, h) in
      let others : every p xs ≡ true = ground (arith, h) in
      every-insert p x (sort before xs) first (every-sort p xs others)
