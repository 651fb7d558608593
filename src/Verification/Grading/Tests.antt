-- ===== src/Verification/Grading/Tests.antt =====
-- A challenge with two right options.
use mathlib.Core.List.{Perm}
use powerotp.Prelude.{ℕ, Option, none, some, true, false, List, [], ◌∷◌, Text, text, ◌≡◌, ◌↔◌, refl}
use powerotp.Verification.Grading.{grade_submission}
use powerotp.Verification.Grading.Exact.{grade_submission_exact}

abbrev expected_ids : Text → Option (List Text)
expected_ids [] = none
expected_ids (c ∷ s) = some (text "opt_b" ∷ text "opt_a" ∷ [])

-- UTF-8 of ASCII.
abbrev bytes : Text → List ℕ
bytes s = s

other_order :
    grade_submission expected_ids bytes (text "answers") (text "opt_a" ∷ text "opt_b" ∷ [])
    ≡ some true
unfolding grade_submission
other_order = refl

repeated :
    grade_submission expected_ids bytes (text "answers") (text "opt_a" ∷ text "opt_a" ∷ [])
    ≡ some false
unfolding grade_submission
repeated = refl

partial : grade_submission expected_ids bytes (text "answers") (text "opt_a" ∷ []) ≡ some false
unfolding grade_submission
partial = refl

unread : grade_submission expected_ids bytes [] (text "opt_a" ∷ []) ≡ none
unfolding grade_submission
unread = refl

grade_submission_exact_example :
    (grade_submission expected_ids bytes (text "answers") (text "opt_a" ∷ text "opt_b" ∷ [])
      ≡ some true)
    ↔ Perm (text "opt_b" ∷ text "opt_a" ∷ []) (text "opt_a" ∷ text "opt_b" ∷ [])
grade_submission_exact_example =
    grade_submission_exact expected_ids bytes (text "answers") (text "opt_b" ∷ text "opt_a" ∷ [])
      (text "opt_a" ∷ text "opt_b" ∷ []) (λ s t ascii same. same) refl refl
