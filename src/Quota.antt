-- ===== src/Quota.antt =====
-- The free monthly allowance of a paying customer: backend/packages/api/src/usage-quota-service.ts.
-- What the service reads of balances, the ledger and accounts is in `Records`.
pub mod Window
pub mod Race
mod Tests
use powerotp.Prelude.{
  ℕ, ◌+◌, suc, Bool, true, false, not, ◌&&◌, ◌||◌, Option, none, some, List, [], ◌∷◌, ltb, leb,
  ◌==◌, nat_eq, if◌then◌else◌, Text, text, text_eq, get, put,
}
use powerotp.Verification.State.{
  VerificationType, call_reachability, voice_code, voice_challenge, sms_code, email_code, type_eq,
}

-- `FREE_QUOTA_LIMITS`, with 0 where a type has none.
unfoldable pub limit_of : VerificationType → ℕ
limit_of call_reachability = 10
limit_of voice_code = 10
limit_of sms_code = 5
limit_of email_code = 1000
limit_of voice_challenge = 0

-- `QUOTA_WINDOW_MS` and `QUOTA_ELIGIBILITY_MS`
abbrev pub window_ms : ℕ
window_ms = 2592000000

abbrev pub eligibility_ms : ℕ
eligibility_ms = 15552000000

-- `UsageQuotaDocument`, under its `_id`.
pub record Quota : Type 0 where
  pub window_start_at : ℕ
  pub counts : List (VerificationType × ℕ)
  pub eligible_until : ℕ

pub record Records : Type 0 where
  pub is_platform_admin : Text → Bool
  pub has_positive_balance : Text → Bool
  pub has_paid_topup : Text → Bool
  pub signup_at : Text → Option ℕ

abbrev or_zero : Option ℕ → ℕ
or_zero none = 0
or_zero (some n) = n

-- `counts[type] ?? 0`
abbrev pub used : VerificationType → Quota → ℕ
used t q = or_zero (get t q.counts)

abbrev pub set_used : VerificationType → ℕ → Quota → Quota
set_used t n q = record q { counts = put t n q.counts }

abbrev or_now : Option ℕ → ℕ → ℕ
or_now none now = now
or_now (some at) now = at

abbrev pub fresh_quota : Records → Text → ℕ → Quota
fresh_quota records user now = record {
  window_start_at = now;
  counts = [];
  eligible_until = or_now (records.signup_at user) now + eligibility_ms;
}

-- The document of the user, made when there is none.
abbrev found_or : Option Quota → Quota → Quota
found_or none fresh = fresh
found_or (some q) fresh = q

abbrev pub current_quota : Records → List (Text × Quota) → Text → ℕ → Quota
current_quota records quotas user now = found_or (get user quotas) (fresh_quota records user now)

-- The window of a quota at a moment: a new one once thirty days are over.
abbrev pub is_over : Quota → ℕ → Bool
is_over q now = leb (q.window_start_at + window_ms) now

abbrev pub in_window : Quota → ℕ → Quota
in_window q now = if is_over q now then record q { window_start_at = now; counts = [] } else q

-- The atomic increment, which matches the user and the start of the window that was read; and its
-- undoing, where it went over the limit. No document gives a count of 0.
abbrev settle : List (Text × Quota) → Text → VerificationType → Quota → List (Text × Quota) × Bool
settle quotas user t q =
    let incremented = set_used t (suc (used t q)) q in
    if ltb (limit_of t) (used t incremented)
    then (put user (set_used t (used t q) q) quotas, false)
    else (put user incremented quotas, true)

abbrev consume_found :
    List (Text × Quota) → Text → VerificationType → ℕ → Option Quota → List (Text × Quota) × Bool
consume_found quotas user t start none = (quotas, true)
consume_found quotas user t start (some q) =
    if q.window_start_at == start then settle quotas user t q else (quotas, true)

unfoldable pub consume :
    List (Text × Quota) → Text → VerificationType → ℕ → List (Text × Quota) × Bool
consume quotas user t start = consume_found quotas user t start (get user quotas)

-- The tests on the quota that was read and moved to its window, then the increment.
unfoldable pub count_request :
    List (Text × Quota) → Text → VerificationType → Quota → ℕ → List (Text × Quota) × Bool
count_request quotas user t q now =
    if ltb q.eligible_until now
    then (quotas, false)
    else if leb (limit_of t) (used t (in_window q now))
    then (put user (in_window q now) quotas, false)
    else consume (put user (in_window q now) quotas) user t (in_window q now).window_start_at

-- `tryConsumeFreeQuota`, when nothing comes between its steps.
unfoldable pub try_consume_free_quota :
    Records → List (Text × Quota) → Text → VerificationType → ℕ → List (Text × Quota) × Bool
try_consume_free_quota records quotas user t now =
    if records.is_platform_admin user
    then (quotas, true)
    else if limit_of t == 0
    then (quotas, false)
    else if not (records.has_positive_balance user) || not (records.has_paid_topup user)
    then (quotas, false)
    else let q = current_quota records quotas user now in
      count_request (put user q quotas) user t q now
