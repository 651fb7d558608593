-- ===== src/Verification/Grading/Order.antt =====
-- The order of option ids by code units, and sorting by it: `sort` of
-- backend/packages/api/src/challenge-service.ts.
use mathlib.Core.List.{Permᴰ}
use mathlib.Core.List.Permᴰ
use powerotp.Prelude.{
  text_less_asym, text_less_total, text_less_trans, insert_ordered, List, [], ◌∷◌, nat_eq, Text,
  text_less, insert, sort, ◌≡◌, refl, ap₂, sym, ◌∙◌, Bool-cases, inl, inr,
}

abbrev pub sorted : List Text → List Text
sorted = sort text_less

abbrev placed : Text → List Text → List Text
placed = insert text_less

placed_comm : (x y : Text) (l : List Text) → placed x (placed y l) ≡ placed y (placed x l)
placed_comm x y l = elim (Bool-cases (text_less y x)) [
  | inl less ↦ insert_ordered text_less text_less_asym text_less_trans x y l less
  | inr not_less ↦ elim (Bool-cases (text_less x y)) [
    | inl more ↦ sym (insert_ordered text_less text_less_asym text_less_trans y x l more)
    | inr not_more ↦
        let same = text_less_total x y not_more not_less in
        ap₂ (λ a b. placed a (placed b l)) same (sym same)
  ]
]

-- The same ids in another order are sorted alike.
pub sorted-Perm : {xs ys : List Text} → Permᴰ xs ys → sorted xs ≡ sorted ys
sorted-Perm Permᴰ.nil = refl
sorted-Perm (Permᴰ.cons e d) = ap₂ placed e (sorted-Perm d)
sorted-Perm (Permᴰ.swap {a} {b} {a'} {b'} {l} e k) =
    placed_comm a b (sorted l) ∙ ap₂ (λ x y. placed x (placed y (sorted l))) k e
sorted-Perm (Permᴰ.trans d k) = sorted-Perm d ∙ sorted-Perm k

placed_perm : (x : Text) (l : List Text) → Permᴰ (placed x l) (x ∷ l)
placed_perm x [] = Permᴰ.refl _
placed_perm x (y ∷ l) = elim (Bool-cases (text_less y x)) [
  | inl less ↦ rw less (Permᴰ.trans (Permᴰ.cons refl (placed_perm x l)) (Permᴰ.swap refl refl))
  | inr more ↦ rw more (Permᴰ.refl _)
]

pub sorted_perm : (l : List Text) → Permᴰ (sorted l) l
sorted_perm [] = Permᴰ.nil
sorted_perm (x ∷ l) = Permᴰ.trans (placed_perm x (sorted l)) (Permᴰ.cons refl (sorted_perm l))
