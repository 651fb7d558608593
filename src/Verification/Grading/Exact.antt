-- ===== src/Verification/Grading/Exact.antt =====
-- A submission is graded as right exactly when it has the expected ids, in any order:
-- `gradeSubmission` of backend/packages/api/src/challenge-service.ts.
use mathlib.Core.List.{Perm, Permᴰ}
use mathlib.Core.List.Permᴰ
use mathlib.Core.Bool.{Bool-set}
use mathlib.Core.Logic.{∥∥₁_elim}
use mathlib.Core.Option.{some-injective}
use powerotp.Prelude.{
  Option, some, length-sort, every-sort, ℕ, Bool, true, false, ◌&&◌, List, [], ◌∷◌, ◌==◌, ==→≡,
  ==_refl, list_beq_refl, list_beq_sound, text_less, nat_eq, ltb, Text, text_eq, length, every, ◌≡◌,
  ◌↔◌, refl, ap, ap₂, sym, ◌∙◌, subst, arith, Bool-cases, inl, inr,
}
use powerotp.Verification.Service.{safe_equal}
use powerotp.Verification.Grading.{all_equal, is_right, grade_submission}
use powerotp.Verification.Grading.Order.{sorted, sorted-Perm, sorted_perm}

abbrev pub is_ascii : Text → Bool
is_ascii s = every (λ c. ltb c 128) s

-- The bytes of a text of ASCII are those of no other text.
abbrev pub TellsAscii : (Text → List ℕ) → Type 0
TellsAscii utf8 = (s t : Text) → is_ascii s ≡ true → utf8 s ≡ utf8 t → s ≡ t

and_both : (a b : Bool) → (a && b) ≡ true → (a ≡ true) × (b ≡ true)
and_both true b h = (refl, h)
and_both false b h = cc

module _ (utf8 : Text → List ℕ) where
  all_equal_refl : (ids : List Text) → all_equal utf8 ids ids ≡ true
  all_equal_refl [] = refl
  all_equal_refl (id ∷ ids) =
      rw (==_refl (length (utf8 id)), list_beq_refl (utf8 id)) (all_equal_refl ids)

  all_equal_sound :
      TellsAscii utf8
      → (xs ys : List Text) → length xs ≡ length ys
      → every is_ascii xs ≡ true
      → all_equal utf8 xs ys ≡ true
      → xs ≡ ys
  all_equal_sound tells [] [] same ascii h = refl
  all_equal_sound tells [] (y ∷ ys) same ascii h = absurd (omega arith)
  all_equal_sound tells (x ∷ xs) [] same ascii h = cc
  all_equal_sound tells (x ∷ xs) (y ∷ ys) same ascii h =
      let shorter : length xs ≡ length ys = omega arith in
      let (first, others) = and_both (is_ascii x) (every is_ascii xs) ascii in
      let (equal, rest) = and_both (safe_equal utf8 x y) (all_equal utf8 xs ys) h in
      let (lengths, bytes) = and_both _ _ equal in
      ap₂ (λ a rest. a ∷ rest) (tells x y first (list_beq_sound (utf8 x) (utf8 y) bytes))
        (all_equal_sound tells xs ys shorter others rest)

is_right_exact :
    (utf8 : Text → List ℕ) (expected submitted : List Text)
    → TellsAscii utf8
    → every is_ascii expected ≡ true
    → (is_right utf8 expected submitted ≡ true) ↔ Perm expected submitted
is_right_exact utf8 expected submitted tells ascii = (right, graded)
  where
    right : is_right utf8 expected submitted ≡ true → Perm expected submitted
    right h = elim (Bool-cases (length expected == length submitted)) [
      | inr other ↦ cc (rw other at h)
      | inl same ↦
          let lengths =
            length-sort text_less expected
            ∙ ==→≡ (length expected) (length submitted) same
            ∙ sym (length-sort text_less submitted) in
          let alike =
            all_equal_sound utf8 tells (sorted expected) (sorted submitted) lengths
              (every-sort text_less is_ascii expected ascii) (rw same at h) in
          ∣ Permᴰ.trans (Permᴰ.symm (sorted_perm expected))
            (subst (λ l. Permᴰ l submitted) (sym alike) (sorted_perm submitted)) ∣₁
    ]

    graded_perm : Permᴰ expected submitted → is_right utf8 expected submitted ≡ true
    graded_perm d =
        let alike = sorted-Perm d in
        let lengths : length expected ≡ length submitted =
          sym (length-sort text_less expected)
          ∙ ap (λ l. length l) alike
          ∙ length-sort text_less submitted in
        rw (sym lengths, ==_refl (length expected), sym alike)
          (all_equal_refl utf8 (sorted expected))

    graded : Perm expected submitted → is_right utf8 expected submitted ≡ true
    graded p = ∥∥₁_elim p (Bool-set _ true) graded_perm

-- A submission is graded as right exactly when it is a permutation of the expected ids, if those
-- can be read and are of ASCII, and UTF-8 tells texts of ASCII from all others.
pub grade_submission_exact :
    (expected_ids : Text → Option (List Text)) (utf8 : Text → List ℕ) (encrypted : Text)
    (expected submitted : List Text)
    → TellsAscii utf8
    → expected_ids encrypted ≡ some expected
    → every is_ascii expected ≡ true
    → (grade_submission expected_ids utf8 encrypted submitted ≡ some true) ↔ Perm expected submitted
unfolding grade_submission
grade_submission_exact expected_ids utf8 encrypted expected submitted tells read ascii =
    let (right, graded) = is_right_exact utf8 expected submitted tells ascii in
    (λ h. right (some-injective _ _ (rw read at h)), λ p. rw read (ap some (graded p)))
