-- ===== src/Verification/Grading.antt =====
-- The grading of an answer to a challenge: `gradeSubmission` of
-- backend/packages/api/src/challenge-service.ts, which the verification service is given. The
-- expected ids are what `JSON.parse` reads in the decrypted text, and a parameter, which has no result
-- where the decryption or the parser throws.
pub mod Order
pub mod Exact
mod Tests
use powerotp.Prelude.{
  ℕ, Bool, true, false, not, ◌&&◌, Option, none, some, List, [], ◌∷◌, ◌==◌, nat_eq, if◌then◌else◌,
  Text, text_less, sort, length,
}
use powerotp.Verification.Service.{safe_equal}

-- `expectedSorted.every(…)`, where an id that is missing throws and the lengths exclude it.
abbrev pub all_equal : (Text → List ℕ) → List Text → List Text → Bool
all_equal utf8 [] submitted = true
all_equal utf8 (id ∷ expected) [] = false
all_equal utf8 (id ∷ expected) (other ∷ submitted) =
    safe_equal utf8 id other && all_equal utf8 expected submitted

-- The comparison of the expected with the submitted ids.
abbrev pub is_right : (Text → List ℕ) → List Text → List Text → Bool
is_right utf8 expected submitted =
    if not (length expected == length submitted)
    then false
    else all_equal utf8 (sort text_less expected) (sort text_less submitted)

abbrev grade_read : (Text → List ℕ) → Option (List Text) → List Text → Option Bool
grade_read utf8 none submitted = none
grade_read utf8 (some expected) submitted = some (is_right utf8 expected submitted)

-- `gradeSubmission`
unfoldable pub grade_submission :
    (Text → Option (List Text)) → (Text → List ℕ) → Text → List Text → Option Bool
grade_submission expected_ids utf8 encrypted submitted =
    grade_read utf8 (expected_ids encrypted) submitted
