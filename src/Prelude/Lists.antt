-- ===== src/Prelude/Lists.antt =====
-- Lists searched by a Boolean test, and predicates that hold of each item.
use Prim.Native.Nat.{ℕ, zero, suc}
use mathlib.Core.Path.{◌≡◌, refl, sym, subst, ap₂}
use mathlib.Core.Logic.{◌↔◌, inl, inr}
use mathlib.Core.Bool.{Bool, true, false, ◌&&◌, ◌||◌, or-true, false≢true}
use mathlib.Core.List.{List, [], ◌∷◌, ◌++◌, Memᴰ}
use mathlib.Core.Option.{Option, none, some, some-injective}
use native.Mathlib.Omega.{arith}
use powerotp.Prelude.Tests.{HasEq, ◌==◌, ==_refl, ==→≡, if◌then◌else◌, Bool-cases}

module _ {ℓ} {A : Type ℓ} where
  abbrev pub length : List A → ℕ
  length [] = 0
  length (x ∷ xs) = suc (length xs)

  -- `xs.find(p)`
  abbrev pub find : (A → Bool) → List A → Option A
  find p [] = none
  find p (x ∷ xs) = if p x then some x else find p xs

  -- `xs.filter(p)`
  abbrev pub filter : (A → Bool) → List A → List A
  filter p [] = []
  filter p (x ∷ xs) = if p x then x ∷ filter p xs else filter p xs

  -- `xs.every(p)` and `xs.some(p)`
  abbrev pub every : (A → Bool) → List A → Bool
  every p [] = true
  every p (x ∷ xs) = p x && every p xs

  abbrev pub exists : (A → Bool) → List A → Bool
  exists p [] = false
  exists p (x ∷ xs) = p x || exists p xs

-- `xs[i]`
abbrev pub get_elem? {ℓ} : {A : Type ℓ} → List A → ℕ → Option A
get_elem? [] i = none
get_elem? (x ∷ xs) zero = some x
get_elem? (x ∷ xs) (suc i) = get_elem? xs i

-- `for (const x of xs) ys.push(...f(x))`
abbrev pub flat_map {ℓ κ} : {A : Type ℓ} {B : Type κ} → (A → List B) → List A → List B
flat_map f [] = []
flat_map f (x ∷ xs) = f x ++ flat_map f xs

module _ {ℓ} {A : Type ℓ} where
  pub find-Memᴰ :
      (p : A → Bool) (xs : List A) {a : A} → find p xs ≡ some a → Memᴰ a xs × (p a ≡ true)
  find-Memᴰ p [] h = cc
  find-Memᴰ p (x ∷ xs) {a} h = elim (Bool-cases (p x)) [
    | inl e ↦
        let same : x ≡ a = some-injective x a (rw e at h) in
        (Memᴰ.head (sym same), subst (λ y. p y ≡ true) same e)
    | inr e ↦ let later = find-Memᴰ p xs {a = a} (rw e at h) in (Memᴰ.tail later.0, later.1)
  ]

  pub every-Memᴰ : (p : A → Bool) {a : A} {xs : List A} → every p xs ≡ true → Memᴰ a xs → p a ≡ true
  every-Memᴰ p {a} h (Memᴰ.head {x = x} e) = subst (λ y. p y ≡ true) (sym e) (ground arith)
  every-Memᴰ p h (Memᴰ.tail {x = x} m) = every-Memᴰ p (ground (arith, h)) m

module _ {ℓ} {A : Type ℓ} ⦃eq : HasEq A⦄ where
  -- `xs.includes(a)`
  abbrev pub includes : List A → A → Bool
  includes [] a = false
  includes (x ∷ xs) a = x == a || includes xs a

  -- Item by item.
  abbrev pub list_beq : List A → List A → Bool
  list_beq [] [] = true
  list_beq [] (y ∷ ys) = false
  list_beq (x ∷ xs) [] = false
  list_beq (x ∷ xs) (y ∷ ys) = x == y && list_beq xs ys

  pub list_beq_refl : (xs : List A) → list_beq xs xs ≡ true
  list_beq_refl [] = refl
  list_beq_refl (x ∷ xs) = rw (==_refl x) (list_beq_refl xs)

  pub list_beq_sound : (xs ys : List A) → list_beq xs ys ≡ true → xs ≡ ys
  list_beq_sound [] [] h = refl
  list_beq_sound [] (y ∷ ys) h = cc
  list_beq_sound (x ∷ xs) [] h = cc
  list_beq_sound (x ∷ xs) (y ∷ ys) h = elim (Bool-cases (x == y)) [
    | inl e ↦ ap₂ ◌∷◌ (==→≡ x y e) (list_beq_sound xs ys (rw e at h))
    | inr e ↦ absurd (false≢true (rw e at h))
  ]

  pub list_beq_iff : (xs ys : List A) → (list_beq xs ys ≡ true) ↔ (xs ≡ ys)
  list_beq_iff xs ys =
      (list_beq_sound xs ys, λ e. subst (λ zs. list_beq xs zs ≡ true) e (list_beq_refl xs))

  pub includes-Memᴰ : {a : A} {xs : List A} → Memᴰ a xs → includes xs a ≡ true
  includes-Memᴰ {a} (Memᴰ.head {x = x} e) =
      let same : (x == a) ≡ true = (eq.test_iff x a).1 (sym e) in rw same
  includes-Memᴰ {a} (Memᴰ.tail {x = x} m) = rw (includes-Memᴰ m) (or-true (x == a))

  pub Memᴰ_of_includes : (xs : List A) (a : A) → includes xs a ≡ true → Memᴰ a xs
  Memᴰ_of_includes [] a h = cc
  Memᴰ_of_includes (x ∷ xs) a h = elim (Bool-cases (x == a)) [
    | inl e ↦ Memᴰ.head (sym (==→≡ x a e))
    | inr e ↦ Memᴰ.tail (Memᴰ_of_includes xs a (rw e at h))
  ]
