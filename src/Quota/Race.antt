-- ===== src/Quota/Race.antt =====
-- Two requests for the free quota at the same time:
-- backend/packages/api/src/usage-quota-service.ts.
use powerotp.Prelude.{
  ℕ, ◌≡◌, refl, true, false, some, List, ◌==◌, nat_eq, Text, text_eq, get, put, get-put_self,
}
use powerotp.Verification.State.{VerificationType, type_eq}
use powerotp.Quota.{Quota, used, is_over, in_window, consume}

-- What a request does when it finds the window over: it stores the new one.
abbrev pub open_window : List (Text × Quota) → Text → Quota → ℕ → List (Text × Quota)
open_window quotas user q now = put user (in_window q now) quotas

-- Of two requests that both find the window over and store new ones at different times, the first to
-- store is covered without being counted: its increment looks for a window that is no longer there, and
-- the allowance of the window that is there is still whole.
pub window_race :
    (quotas : List (Text × Quota)) (user : Text) (t : VerificationType) (q : Quota) (now now' : ℕ)
    → is_over q now ≡ true
    → is_over q now' ≡ true
    → (now' == now) ≡ false
    → let raced = open_window (open_window quotas user q now) user q now' in
      (consume raced user t now ≡ (raced, true))
      × (get user raced ≡ some (in_window q now'))
      × (used t (in_window q now') ≡ 0)
unfolding consume get
window_race quotas user t q now now' over over' apart =
    let stored = get-put_self user (in_window q now') (open_window quotas user q now) in
    (rw (over', over, get-put_self, apart) refl, stored, rw over' refl)
