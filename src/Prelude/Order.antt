-- ===== src/Prelude/Order.antt =====
-- The order of strings by code units, and insertion by an order.
use mathlib.Core.Path.{◌≡◌, refl, ap, ap₂, sym, ◌∙◌}
use mathlib.Core.Logic.{inl, inr}
use mathlib.Core.Bool.{Bool, true, false, false≢true}
use mathlib.Core.List.{List, [], ◌∷◌}
use native.Mathlib.Omega.{arith}
use Prim.Native.Nat.{ℕ}
use powerotp.Prelude.Tests.{◌==◌, ==→≡, nat_eq, ltb, Bool-cases}
use powerotp.Prelude.Strings.{Text}
use powerotp.Prelude.Sort.{text_less, insert}

pub text_less_asym : (s t : Text) → text_less s t ≡ true → text_less t s ≡ false
text_less_asym [] [] h = refl
text_less_asym [] (d ∷ t) h = refl
text_less_asym (c ∷ s) [] h = cc
text_less_asym (c ∷ s) (d ∷ t) h = ground (arith, h, text_less_asym s t)

pub text_less_between :
    (z y x : Text) → text_less z y ≡ false → text_less z x ≡ true → text_less y x ≡ true
text_less_between [] y [] h k = cc
text_less_between (a ∷ z) y [] h k = cc
text_less_between [] [] (c ∷ x) h k = refl
text_less_between [] (b ∷ y) (c ∷ x) h k = cc
text_less_between (a ∷ z) [] (c ∷ x) h k = refl
text_less_between (a ∷ z) (b ∷ y) (c ∷ x) h k = ground (arith, h, k, text_less_between z y x)

unordered : (c d : ℕ) → (c == d) ≡ false → ltb c d ≡ false → ltb d c ≡ false → ⊥
unordered c d apart h k = ground arith

pub text_less_total : (s t : Text) → text_less s t ≡ false → text_less t s ≡ false → s ≡ t
text_less_total [] [] h k = refl
text_less_total [] (d ∷ t) h k = cc
text_less_total (c ∷ s) [] h k = cc
text_less_total (c ∷ s) (d ∷ t) h k = elim (Bool-cases (c == d)) [
  | inl same ↦
      let first : text_less s t ≡ false = ground (arith, h, same) in
      let second : text_less t s ≡ false = ground (arith, k, same) in
      ap₂ (λ a rest. a ∷ rest) (==→≡ c d same) (text_less_total s t first second)
  | inr apart ↦ absurd (unordered c d apart (ground (arith, h, apart)) (ground (arith, k, apart)))
]

pub text_less_trans :
    (z y x : Text) → text_less z y ≡ true → text_less y x ≡ true → text_less z x ≡ true
text_less_trans z y x h k = elim (Bool-cases (text_less z x)) [
  | inl less ↦ less
  | inr more ↦
      let reversed = text_less_between z x y more h in
      absurd (false≢true (sym (text_less_asym y x k) ∙ reversed))
]

module _ {ℓ} {A : Type ℓ} (before : A → A → Bool)
    (asym : (x y : A) → before x y ≡ true → before y x ≡ false)
    (trans : (x y z : A) → before x y ≡ true → before y z ≡ true → before x z ≡ true) where
  pub insert_ordered :
      (x y : A) (l : List A)
      → before y x ≡ true
      → insert before x (insert before y l) ≡ insert before y (insert before x l)
  insert_ordered x y [] less = rw (less, asym y x less) refl
  insert_ordered x y (z ∷ l) less = elim (Bool-cases (before z y)) [
    | inl zy ↦
        let zx = trans z y x zy less in
        rw (zy, zx, zy) (ap (λ r. z ∷ r) (insert_ordered x y l less))
    | inr zy ↦ elim (Bool-cases (before z x)) [
      | inl zx ↦ rw (zy, less, zx, zy) refl
      | inr zx ↦ rw (zy, less, zx, asym y x less) refl
    ]
  ]
