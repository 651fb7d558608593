-- ===== src/Quota/Tests.antt =====
-- A customer with nine calls in the window of the quota.
use powerotp.Prelude.{
  ◌≡◌, ◌≤◌, refl, true, false, some, List, [], ◌∷◌, Text, text, text_eq, get, arith, nat_eq,
}
use powerotp.Verification.State.{call_reachability, type_eq}
use powerotp.Quota.{limit_of, Quota, Records, used}

abbrev user : Text
user = text "customer"

abbrev records : Records
records = record {
  is_platform_admin = λ u. false;
  has_positive_balance = λ u. true;
  has_paid_topup = λ u. true;
  signup_at = λ u. some 0;
}

abbrev nine_calls : Quota
nine_calls = record {
  window_start_at = 1000;
  counts = (call_reachability, 9) ∷ [];
  eligible_until = 15552000000;
}

abbrev quotas : List (Text × Quota)
quotas = (user, nine_calls) ∷ []

found : get user quotas ≡ some nine_calls
unfolding get
found = refl

nine_fit : used call_reachability nine_calls ≤ limit_of call_reachability
unfolding get limit_of
nine_fit = omega arith
