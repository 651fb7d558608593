-- ===== src/Trunk/Tests.antt =====
-- A pool of two trunks over a few outcomes.
use powerotp.Prelude.{
  text_eq, none, retain, get, put, ℕ, ◌≡◌, refl, true, false, List, [], ◌∷◌, Text, text,
}
use powerotp.Trunk.{
  sort_by, Pool, new_pool, report_outcome, is_provider_level_failure, is_down, last_tried_at,
  pick_healthy_trunks, after_outcome, count_failure, clear_failures, health_of, update_trunk_ids,
  is_past,
}
use powerotp.Trunk.Streak.{
  Outcome, Call, reported, configured, streak, window, back_at, tried_last, pool_after, own,
  health_of-calls,
}

abbrev a : Text
a = text "a"

abbrev b : Text
b = text "b"

abbrev outcome : Text → ℕ → Outcome
outcome reason now = record { reason = reason; tried_at = now; now = now }

abbrev failing : ℕ → Outcome
failing = outcome (text "provider_unavailable")

-- The latest report stands first.
abbrev reports : List Call
reports =
    reported a (failing 4000)
    ∷ reported a (failing 3000)
    ∷ reported b (outcome (text "busy") 2500)
    ∷ reported a (failing 2000)
    ∷ reported a (failing 1000)
    ∷ []

abbrev pool : Pool
pool = pool_after (new_pool (a ∷ b ∷ [])) reports

down_after_failures : is_down pool a 604000 ≡ false
unfolding is_down report_outcome new_pool after_outcome count_failure clear_failures
    is_provider_level_failure get put
down_after_failures = refl

-- The fourth failure opened a window of ten minutes.
down_before : is_down pool a 603999 ≡ true
unfolding is_down report_outcome new_pool after_outcome count_failure clear_failures
    is_provider_level_failure get put
down_before = refl

picked : pick_healthy_trunks pool 5000 ≡ b ∷ []
unfolding get put sort_by pick_healthy_trunks is_down last_tried_at report_outcome new_pool
    after_outcome count_failure clear_failures is_provider_level_failure
picked = refl

-- The first trunk was taken out of the configuration after two failures, and put back.
abbrev reconfigured : List Call
reconfigured =
    reported a (failing 5000)
    ∷ configured (a ∷ b ∷ [])
    ∷ configured (b ∷ [])
    ∷ reported a (failing 2000)
    ∷ reported a (failing 1000)
    ∷ []

forgotten : health_of (pool_after (new_pool (a ∷ b ∷ [])) reconfigured) a ≡ record {
  consecutive_failures = 1;
  down_until = none;
  cooldown_ms = 300000;
  last_tried_at = 5000;
}
unfolding report_outcome new_pool update_trunk_ids after_outcome count_failure clear_failures
    is_provider_level_failure get put retain
forgotten = refl

health_of-calls_example :
    (health_of pool a ≡ record {
      consecutive_failures = streak (own a reports);
      down_until = back_at (own a reports);
      cooldown_ms = window (streak (own a reports));
      last_tried_at = tried_last (own a reports);
    })
    × (is_down pool a 603999 ≡ is_past 603999 (back_at (own a reports)))
health_of-calls_example = health_of-calls (a ∷ b ∷ []) a reports 603999
