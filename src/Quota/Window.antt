-- ===== src/Quota/Window.antt =====
-- Requests for the free quota one after the other:
-- backend/packages/api/src/usage-quota-service.ts.
use powerotp.Prelude.{
  ℕ, ◌+◌, suc, ◌≡◌, ◌≤◌, refl, ap, ◌∙◌, inl, inr, Bool, true, false, not, ◌&&◌, ◌||◌, some, List,
  [], ◌∷◌, arith, ltb, leb, ◌==◌, nat_eq, ==_refl, if◌then◌else◌, Bool-cases, every, Text, text_eq,
  get, put, get-put_self,
}
use powerotp.Verification.State.{VerificationType, type_eq}
use powerotp.Quota.{
  limit_of, window_ms, Quota, Records, used, set_used, is_over, consume, count_request,
  try_consume_free_quota,
}

-- What one request does to the quota of its user: it leaves it, or counts one more within the limit.
pub record Step (user : Text) (t : VerificationType) (q : Quota)
    (result : List (Text × Quota) × Bool) : Type 0 where
  pub after : Quota
  pub stored : get user result.0 ≡ some after
  pub same_window : after.window_start_at ≡ q.window_start_at
  pub counted : used t after ≡ (if result.1 then suc (used t q) else used t q)
  pub limited : result.1 ≡ true → used t after ≤ limit_of t

used-set_used : (t : VerificationType) (n : ℕ) (q : Quota) → used t (set_used t n q) ≡ n
used-set_used t n q = rw (get-put_self t n q.counts) refl

keeps_quota :
    (user : Text) (t : VerificationType) (q : Quota) (result : List (Text × Quota) × Bool)
    → get user result.0 ≡ some q
    → result.1 ≡ false
    → Step user t q result
keeps_quota user t q result stored denied = record {
  after = q;
  stored = stored;
  same_window = refl;
  counted = rw denied refl;
  limited = λ granted. cc;
}

consume-Step :
    (quotas : List (Text × Quota)) (user : Text) (t : VerificationType) (q : Quota)
    → get user quotas ≡ some q
    → leb (limit_of t) (used t q) ≡ false
    → Step user t q (consume quotas user t q.window_start_at)
unfolding consume
consume-Step quotas user t q found room =
    let below : ltb (limit_of t) (used t (set_used t (suc (used t q)) q)) ≡ false =
      rw (used-set_used t (suc (used t q)) q) (ground arith) in
    rw (found, ==_refl q.window_start_at, below)
      (record {
        after = set_used t (suc (used t q)) q;
        stored = get-put_self user _ quotas;
        same_window = refl;
        counted = used-set_used t (suc (used t q)) q;
        limited = λ granted. rw (used-set_used t (suc (used t q)) q) (ground arith);
      })

count_request-Step :
    (quotas : List (Text × Quota)) (user : Text) (t : VerificationType) (q : Quota) (now : ℕ)
    → get user quotas ≡ some q
    → is_over q now ≡ false
    → Step user t q (count_request quotas user t q now)
unfolding count_request
count_request-Step quotas user t q now found running =
    elim (Bool-cases (ltb q.eligible_until now)) [
      | inl late ↦ rw late (keeps_quota user t q (quotas, false) found refl)
      | inr eligible ↦ elim (Bool-cases (leb (limit_of t) (used t q))) [
        | inl full ↦
            rw (eligible, running, full)
              (keeps_quota user t q (put user q quotas, false) (get-put_self user q quotas) refl)
        | inr room ↦
            rw (eligible, running, room)
              (consume-Step (put user q quotas) user t q (get-put_self user q quotas) room)
      ]
    ]

every_cons : (a b : Bool) → (not a && b) ≡ true → (a ≡ false) × (b ≡ true)
every_cons a b h = ground arith

-- A run of requests of one user and type at the given times: the quotas after it, and how many of them
-- were covered.
module _ (records : Records) (user : Text) (t : VerificationType) where
  abbrev pub requests : List (Text × Quota) → List ℕ → List (Text × Quota) × ℕ
  requests quotas [] = (quotas, 0)
  requests quotas (now ∷ times) =
      let (quotas', covered) = try_consume_free_quota records quotas user t now in
      let (quotas'', count) = requests quotas' times in
      (quotas'', if covered then suc count else count)

  module _ (paying : records.is_platform_admin user ≡ false) where
    try_consume-Step :
        (quotas : List (Text × Quota)) (q : Quota) (now : ℕ)
        → get user quotas ≡ some q
        → is_over q now ≡ false
        → Step user t q (try_consume_free_quota records quotas user t now)
    unfolding try_consume_free_quota
    try_consume-Step quotas q now found running = elim (Bool-cases (limit_of t == 0)) [
      | inl unlimited ↦ rw (paying, unlimited) (keeps_quota user t q (quotas, false) found refl)
      | inr limited ↦
          elim (Bool-cases
            (not (records.has_positive_balance user) || not (records.has_paid_topup user))) [
              | inl unpaid ↦
                  rw (paying, limited, unpaid) (keeps_quota user t q (quotas, false) found refl)
              | inr paid ↦
                  rw (paying, limited, paid, found)
                    (count_request-Step (put user q quotas) user t q now
                      (get-put_self user q quotas) running)
            ]
    ]

    -- In one window a customer gets no more than the allowance of the type: whatever requests come
    -- before the window of the stored quota is over, those that are covered and those counted before
    -- do not exceed the limit.
    pub grants_bounded :
        (times : List ℕ) (quotas : List (Text × Quota)) (q : Quota)
        → get user quotas ≡ some q
        → every (λ now. not (is_over q now)) times ≡ true
        → used t q ≤ limit_of t
        → used t q + (requests quotas times).1 ≤ limit_of t
    grants_bounded [] quotas q found within fits = omega (arith, fits)
    grants_bounded (now ∷ times) quotas q found within fits =
        let (first, rest) =
          every_cons (is_over q now) (every (λ x. not (is_over q x)) times) within in
        let s = try_consume-Step quotas q now found first in
        let within' =
          ap (λ start. every (λ x. not (leb (start + window_ms) x)) times) s.same_window ∙ rest in
        elim (Bool-cases (try_consume_free_quota records quotas user t now).1) [
          | inl covered ↦
              let one_more = rw covered at s.counted in
              let later = grants_bounded times _ s.after s.stored within' (s.limited covered) in
              rw covered (omega (arith, one_more, later))
          | inr denied ↦
              let as_before = rw denied at s.counted in
              let later =
                grants_bounded times _ s.after s.stored within' (omega (arith, as_before, fits)) in
              rw denied (omega (arith, as_before, later))
        ]
