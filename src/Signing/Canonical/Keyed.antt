-- ===== src/Signing/Canonical/Keyed.antt =====
-- What is signed does not depend on the order of keys: `canonicalizeBotBlockerArtifact` of
-- backend/packages/contracts/src/botblocker-signing.ts.
use mathlib.Core.Bool.{false≢true}
use powerotp.Prelude.{
  ℕ, true, false, List, ◌∷◌, ◌++◌, ◌==◌, ==_refl, text_eq, Text, text, text_less, text_less_asym,
  text_less_total, text_less_trans, insert, insert_ordered, sort, ◌≡◌, refl, ap, ap₂, sym, ◌∙◌,
  Bool-cases, inl, inr,
}
use powerotp.Signing.Canonical.{
  Json, Items, Fields, array, object, no_items, item, no_fields, field, by_key, parts_of,
  join_commas, canonicalize, canonicalize_items, canonicalize_fields,
}

-- The same values, but for the order of the keys of objects.
mutual
  pub data Alike : Json → Json → Type 0 where
    itself : (j : Json) → Alike j j
    arrays : (is js : Items) → AlikeItems is js → Alike (array is) (array js)
    objects : (fs gs : Fields) → AlikeFields fs gs → Alike (object fs) (object gs)

  pub data AlikeItems : Items → Items → Type 0 where
    no_more : AlikeItems no_items no_items
    pair :
        (j k : Json) (is js : Items)
        → Alike j k
        → AlikeItems is js
        → AlikeItems (item j is) (item k js)

  pub data AlikeFields : Fields → Fields → Type 0 where
    nothing : AlikeFields no_fields no_fields
    each :
        (key : Text) (j k : Json) (fs gs : Fields)
        → Alike j k
        → AlikeFields fs gs
        → AlikeFields (field key j fs) (field key k gs)
    swapped :
        (a b : Text) (j k : Json) (fs : Fields)
        → (a == b) ≡ false
        → AlikeFields (field a j (field b k fs)) (field b k (field a j fs))
    after : (fs gs hs : Fields) → AlikeFields fs gs → AlikeFields gs hs → AlikeFields fs hs

insert_swap :
    (a b : Text × Text) (l : List (Text × Text))
    → (a.0 == b.0) ≡ false
    → insert by_key a (insert by_key b l) ≡ insert by_key b (insert by_key a l)
insert_swap a b l apart = elim (Bool-cases (text_less b.0 a.0)) [
  | inl less ↦ ordered a b less
  | inr not_less ↦ elim (Bool-cases (text_less a.0 b.0)) [
    | inl more ↦ sym (ordered b a more)
    | inr not_more ↦
        let same = text_less_total a.0 b.0 not_more not_less in
        absurd (false≢true (sym apart ∙ ap (λ k. a.0 == k) (sym same) ∙ ==_refl a.0))
  ]
]
  where
    ordered :
        (x y : Text × Text)
        → by_key y x ≡ true
        → insert by_key x (insert by_key y l) ≡ insert by_key y (insert by_key x l)
    ordered x y =
        insert_ordered by_key (λ p q. text_less_asym p.0 q.0) (λ p q r. text_less_trans p.0 q.0 r.0)
          x y l

module _ (quote : Text → Text) (print : ℕ → Text) where
  mutual
    unfolding canonicalize canonicalize_items canonicalize_fields

    alike : (j k : Json) → Alike j k → canonicalize quote print j ≡ canonicalize quote print k
    alike j k (itself l) = refl
    alike j k (arrays is js d) = ap (λ parts. 91 ∷ (join_commas parts ++ text "]")) (items is js d)
    alike j k (objects fs gs d) =
        ap (λ parts. 123 ∷ (join_commas (parts_of quote parts) ++ text "}")) (fields fs gs d)

    items :
        (is js : Items)
        → AlikeItems is js
        → canonicalize_items quote print is ≡ canonicalize_items quote print js
    items is js no_more = refl
    items is js (pair j k is' js' d e) = ap₂ (λ x xs. x ∷ xs) (alike j k d) (items is' js' e)

    fields :
        (fs gs : Fields)
        → AlikeFields fs gs
        → sort by_key (canonicalize_fields quote print fs)
          ≡ sort by_key (canonicalize_fields quote print gs)
    fields fs gs nothing = refl
    fields fs gs (each key j k fs' gs' d e) =
        ap₂ (λ value rest. insert by_key (key, value) rest) (alike j k d) (fields fs' gs' e)
    fields fs gs (swapped a b j k fs' apart) =
        insert_swap (a, canonicalize quote print j) (b, canonicalize quote print k) _ apart
    fields fs gs (after fs' gs' hs d e) = fields fs' gs' d ∙ fields gs' hs e

-- Values that differ only in the order of the keys of their objects, at any depth, are signed as the
-- same text.
pub canonicalize-Alike :
    (quote : Text → Text) (print : ℕ → Text) (j k : Json)
    → Alike j k
    → canonicalize quote print j ≡ canonicalize quote print k
canonicalize-Alike quote print j k d = alike quote print j k d
