-- ===== src/Trunk/Streak.antt =====
-- A trunk's health and the outcomes reported for it: apps/telephony-agent/src/trunk-pool.ts.
use native.Mathlib.Nat.{pow-suc}
use powerotp.Prelude.{
  ℕ, suc, ◌+◌, ◌*◌, ◌-◌, ◌^◌, ◌≤◌, ◌<◌, min, ◌≡◌, refl, ap, ◌∙◌, inl, inr, Option, none, some, List,
  [], ◌∷◌, arith, leb, ◌==◌, if◌then◌else◌, Bool-cases, Text, text_eq, get, get-put, get-retain,
  ==→≡, nat_eq, includes,
}
use powerotp.Trunk.{
  Health, Pool, new_pool, update_trunk_ids, fresh_health, is_provider_level_failure, count_failure,
  clear_failures, after_outcome, report_outcome, or_fresh, health_of, is_past, down_until_of,
  is_down, base_cooldown_ms, max_cooldown_ms, failure_threshold,
}

-- One reported outcome, with the two readings of the clock.
pub record Outcome : Type 0 where
  pub reason : Text
  pub tried_at : ℕ
  pub now : ℕ

-- The latest outcome stands first.
abbrev pub health_after : List Outcome → Health
health_after [] = fresh_health
health_after (o ∷ earlier) = after_outcome (health_after earlier) o.reason o.tried_at o.now

-- The provider-level failures since the last other outcome.
abbrev pub streak : List Outcome → ℕ
streak [] = 0
streak (o ∷ earlier) = if is_provider_level_failure o.reason then suc (streak earlier) else 0

-- The window that the next failure opens after `n` failures in a row: five minutes up to the third
-- failure, then doubled by each one, up to an hour.
abbrev pub window : ℕ → ℕ
window n = min (base_cooldown_ms * 2 ^ (n - 2)) max_cooldown_ms

-- When the trunk comes back: never down below three failures in a row, else a window after the last.
abbrev pub back_at : List Outcome → Option ℕ
back_at [] = none
back_at (o ∷ earlier) =
    if leb failure_threshold (streak (o ∷ earlier))
    then some (o.now + window (streak earlier))
    else none

abbrev pub tried_last : List Outcome → ℕ
tried_last [] = 0
tried_last (o ∷ earlier) = o.tried_at

window-suc : (n : ℕ) → 2 ≤ n → min (window n * 2) max_cooldown_ms ≡ window (suc n)
window-suc n h = let e : suc n - 2 ≡ suc (n - 2) = omega arith in rw e (rw pow-suc (omega arith))

window_low : (n : ℕ) → n ≤ 2 → window n ≡ base_cooldown_ms
window_low n h = let e : n - 2 ≡ 0 = omega arith in rw e refl

-- One more outcome after `n` failures in a row.
step :
    (o : Outcome) (n : ℕ) (back : Option ℕ) (last : ℕ)
    → (n < 2 → back ≡ none)
    → after_outcome
        (record {
          consecutive_failures = n;
          down_until = back;
          cooldown_ms = window n;
          last_tried_at = last;
        })
        o.reason
        o.tried_at
        o.now
      ≡ (let n' = if is_provider_level_failure o.reason then suc n else 0 in
          record {
            consecutive_failures = n';
            down_until = if leb failure_threshold n' then some (o.now + window n) else none;
            cooldown_ms = window n';
            last_tried_at = o.tried_at;
          })
unfolding after_outcome count_failure clear_failures
step o n back last none_yet = elim (Bool-cases (is_provider_level_failure o.reason)) [
  | inl failing ↦ rw failing (elim (Bool-cases (leb 3 (suc n))) [
    | inl enough ↦ ground (arith, window-suc n, failing, enough)
    | inr few ↦ ground (arith, none_yet, failing, few, window_low n, window_low (suc n))
  ])
  | inr other ↦ rw other refl
]

back_at_low : (os : List Outcome) → streak os < 3 → back_at os ≡ none
back_at_low [] h = refl
back_at_low (o ∷ earlier) h = ground arith

health_after_lem :
    (os : List Outcome)
    → health_after os ≡ record {
      consecutive_failures = streak os;
      down_until = back_at os;
      cooldown_ms = window (streak os);
      last_tried_at = tried_last os;
    }
unfolding after_outcome count_failure clear_failures
health_after_lem [] = refl
health_after_lem (o ∷ earlier) = rw (health_after_lem earlier) (
    step o (streak earlier) (back_at earlier) (tried_last earlier)
      (λ h. back_at_low earlier (omega arith)))

-- A call of the pool that changes it.
pub data Call : Type 0 where
  reported : Text → Outcome → Call
  configured : List Text → Call

abbrev pub call : Pool → Call → Pool
call p (reported id o) = report_outcome p id o.reason o.tried_at o.now
call p (configured ids) = update_trunk_ids p ids

-- The pool after some calls, the latest first.
abbrev pub pool_after : Pool → List Call → Pool
pool_after p [] = p
pool_after p (c ∷ earlier) = call (pool_after p earlier) c

-- The outcomes reported of one trunk since the last configuration that left it out.
abbrev pub own : Text → List Call → List Outcome
own id [] = []
own id (reported j o ∷ earlier) = let rest = own id earlier in if j == id then o ∷ rest else rest
own id (configured ids ∷ earlier) =
    let rest = own id earlier in if includes ids id then rest else []

health_of-pool_after :
    (ids : List Text) (id : Text) (calls : List Call)
    → health_of (pool_after (new_pool ids) calls) id ≡ health_after (own id calls)
unfolding report_outcome new_pool update_trunk_ids get
health_of-pool_after ids id [] = refl
health_of-pool_after ids id (reported j o ∷ earlier) = elim (Bool-cases (j == id)) [
  | inl same ↦
      let ih = health_of-pool_after ids id earlier in
      rw (get-put, same) (rw (==→≡ j id same) (rw ih refl))
  | inr other ↦ rw (get-put, other) (health_of-pool_after ids id earlier)
]
health_of-pool_after ids id (configured left ∷ earlier) = elim (Bool-cases (includes left id)) [
  | inl kept ↦ rw (get-retain, kept) (health_of-pool_after ids id earlier)
  | inr removed ↦ rw (get-retain, removed) refl
]

down_until_of-health : (h : Option Health) → down_until_of h ≡ (or_fresh h).down_until
down_until_of-health none = refl
down_until_of-health (some h) = refl

-- After any reports to a new pool and any configurations of it, the health that the pool has of a trunk
-- is the one that the outcomes give that were reported of it since the last configuration that left
-- it out: it counts the provider-level failures since the last other outcome, and its windows double
-- from five minutes to an hour. The trunk is down exactly from the third of those failures in a row on,
-- until a window after the last one. Reports about other trunks do not matter.
pub health_of-calls :
    (ids : List Text) (id : Text) (calls : List Call) (now : ℕ)
    → (health_of (pool_after (new_pool ids) calls) id ≡ record {
      consecutive_failures = streak (own id calls);
      down_until = back_at (own id calls);
      cooldown_ms = window (streak (own id calls));
      last_tried_at = tried_last (own id calls);
    })
      × (is_down (pool_after (new_pool ids) calls) id now ≡ is_past now (back_at (own id calls)))
unfolding is_down
health_of-calls ids id calls now =
    let kept = health_of-pool_after ids id calls ∙ health_after_lem (own id calls) in
    (
      kept,
      ap (is_past now) (
          down_until_of-health (get id (pool_after (new_pool ids) calls).health)
          ∙ ap (λ (h : Health). h.down_until) kept),
    )
