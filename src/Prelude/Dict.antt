-- ===== src/Prelude/Dict.antt =====
-- A `Map` as an association list in insertion order.
use mathlib.Core.Path.{◌≡◌, sym, ap, subst}
use mathlib.Core.Logic.{inl, inr}
use mathlib.Core.Bool.{Bool, false}
use mathlib.Core.Option.{Option, none, some}
use mathlib.Core.List.{List, [], ◌∷◌}
use native.Mathlib.Omega.{arith}
use powerotp.Prelude.Tests.{HasEq, ◌==◌, ==_refl, ==→≡, if◌then◌else◌, Bool-cases}

module _ {ℓ κ} {K : Type ℓ} {V : Type κ} ⦃e : HasEq K⦄ where
  -- `map.get(k)`
  unfoldable pub get : K → List (K × V) → Option V
  get k [] = none
  get k ((j, v) ∷ m) = if j == k then some v else get k m

  -- `map.set(k, v)`
  unfoldable pub put : K → V → List (K × V) → List (K × V)
  put k v [] = (k, v) ∷ []
  put k v ((j, w) ∷ m) = if j == k then (j, v) ∷ m else (j, w) ∷ put k v m

  -- `for (const k of [...map.keys()]) if (!keep(k)) map.delete(k)`
  unfoldable pub retain : (K → Bool) → List (K × V) → List (K × V)
  retain keep [] = []
  retain keep ((j, v) ∷ m) = if keep j then (j, v) ∷ retain keep m else retain keep m

  pub get-put_self : (k : K) (v : V) (m : List (K × V)) → get k (put k v m) ≡ some v
  unfolding get put
  get-put_self k v [] = rw (==_refl k)
  get-put_self k v ((j, w) ∷ m) = elim (Bool-cases (j == k)) [
    | inl same ↦ rw same (rw same)
    | inr other ↦ rw other (rw other (get-put_self k v m))
  ]

  pub get-put_ne :
      (k j : K) (v : V) (m : List (K × V)) → (j == k) ≡ false → get k (put j v m) ≡ get k m
  unfolding get put
  get-put_ne k j v [] h = rw h
  get-put_ne k j v ((i, w) ∷ m) h = elim (Bool-cases (i == j)) [
    | inl same ↦
        let apart : (i == k) ≡ false = subst (λ x. (x == k) ≡ false) (sym (==→≡ i j same)) h in
        rw same (rw apart)
    | inr other ↦ rw other (ground (arith, get-put_ne k j v m h))
  ]

  pub get-put :
      (k j : K) (v : V) (m : List (K × V))
      → get k (put j v m) ≡ (if j == k then some v else get k m)
  get-put k j v m = elim (Bool-cases (j == k)) [
    | inl same ↦ rw same (rw (==→≡ j k same) (get-put_self k v m))
    | inr other ↦ rw other (get-put_ne k j v m other)
  ]

  pub get-retain :
      (keep : K → Bool) (k : K) (m : List (K × V))
      → get k (retain keep m) ≡ (if keep k then get k m else none)
  unfolding get retain
  get-retain keep k [] = ground arith
  get-retain keep k ((j, v) ∷ m) = elim (Bool-cases (j == k)) [
    | inl same ↦
        let kept = ap keep (==→≡ j k same) in ground (arith, kept, same, get-retain keep k m)
    | inr other ↦ ground (arith, other, get-retain keep k m)
  ]
