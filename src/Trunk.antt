-- ===== src/Trunk.antt =====
-- The outbound trunk pool of the telephony agent: apps/telephony-agent/src/trunk-pool.ts.
-- Each reading of `Date.now()` is an argument, in milliseconds.
pub mod Streak
pub mod Rotation
mod Tests
use powerotp.Prelude.{
  ℕ, ◌+◌, ◌*◌, min, Bool, false, not, Option, none, some, List, [], ◌∷◌, map, leb, ltb, nat_eq,
  if◌then◌else◌, filter, includes, Text, text, text_eq, get, put, retain,
}

abbrev pub failure_threshold : ℕ
failure_threshold = 3

abbrev pub base_cooldown_ms : ℕ
base_cooldown_ms = 5 * 60000

abbrev pub max_cooldown_ms : ℕ
max_cooldown_ms = 60 * 60000

unfoldable pub is_provider_level_failure : Text → Bool
is_provider_level_failure reason =
    includes (text "provider_unavailable" ∷ text "call_rejected" ∷ []) reason

pub record Health : Type 0 where
  pub consecutive_failures : ℕ
  pub down_until : Option ℕ
  pub cooldown_ms : ℕ
  pub last_tried_at : ℕ

abbrev pub fresh_health : Health
fresh_health = record {
  consecutive_failures = 0;
  down_until = none;
  cooldown_ms = base_cooldown_ms;
  last_tried_at = 0;
}

pub record Pool : Type 0 where
  pub trunk_ids : List Text
  pub health : List (Text × Health)

unfoldable pub new_pool : List Text → Pool
new_pool ids = record { trunk_ids = ids; health = [] }

-- `updateTrunkIds`
unfoldable pub update_trunk_ids : Pool → List Text → Pool
update_trunk_ids p ids = record {
  trunk_ids = ids;
  health = retain (λ id. includes ids id) p.health;
}

-- `#health.get(id) ?? freshHealth()`
abbrev pub or_fresh : Option Health → Health
or_fresh none = fresh_health
or_fresh (some h) = h

abbrev pub health_of : Pool → Text → Health
health_of p id = or_fresh (get id p.health)

-- The branch of `reportOutcome` for a provider-level failure, and the one for any other outcome.
unfoldable pub count_failure : Health → ℕ → Health
count_failure h now =
    let failures = h.consecutive_failures + 1 in
    if leb failure_threshold failures
    then record h {
      consecutive_failures = failures;
      down_until = some (now + h.cooldown_ms);
      cooldown_ms = min (h.cooldown_ms * 2) max_cooldown_ms;
    }
    else record h { consecutive_failures = failures }

unfoldable pub clear_failures : Health → Health
clear_failures h = record h {
  consecutive_failures = 0;
  down_until = none;
  cooldown_ms = base_cooldown_ms;
}

unfoldable pub after_outcome : Health → Text → ℕ → ℕ → Health
after_outcome health reason tried_at now =
    let h = record health { last_tried_at = tried_at } in
    if is_provider_level_failure reason then count_failure h now else clear_failures h

-- `reportOutcome`, which reads the clock at `tried_at` and again, on a failure, at `now`.
unfoldable pub report_outcome : Pool → Text → Text → ℕ → ℕ → Pool
report_outcome p id reason tried_at now = record p {
  health = put id (after_outcome (health_of p id) reason tried_at now) p.health;
}

-- `downUntil !== undefined && downUntil > now`
abbrev pub is_past : ℕ → Option ℕ → Bool
is_past now none = false
is_past now (some until) = ltb now until

abbrev pub down_until_of : Option Health → Option ℕ
down_until_of none = none
down_until_of (some h) = h.down_until

-- `#isDown`
unfoldable pub is_down : Pool → Text → ℕ → Bool
is_down p id now = is_past now (down_until_of (get id p.health))

abbrev last_tried : Option Health → ℕ
last_tried none = 0
last_tried (some h) = h.last_tried_at

-- `#lastTriedAt`
unfoldable pub last_tried_at : Pool → Text → ℕ
last_tried_at p id = last_tried (get id p.health)

-- `sort((a, b) => key(a) - key(b))`, which keeps the order of equal keys.
unfoldable pub insert_by : (Text → ℕ) → Text → List Text → List Text
insert_by key a [] = a ∷ []
insert_by key a (b ∷ rest) = if leb (key a) (key b) then a ∷ b ∷ rest else b ∷ insert_by key a rest

unfoldable pub sort_by : (Text → ℕ) → List Text → List Text
unfolding insert_by
sort_by key [] = []
sort_by key (a ∷ rest) = insert_by key a (sort_by key rest)

unfoldable pub pick_healthy_trunks : Pool → ℕ → List Text
pick_healthy_trunks p now =
    sort_by (last_tried_at p) (filter (λ id. not (is_down p id now)) p.trunk_ids)

pub record HealthReport : Type 0 where
  pub id : Text
  pub healthy : Bool
  pub failures : ℕ
  pub until : Option ℕ

abbrev failures_of : Option Health → ℕ
failures_of none = 0
failures_of (some h) = h.consecutive_failures

unfoldable pub report : Pool → ℕ → Text → HealthReport
report p now id = record {
  id = id;
  healthy = not (is_down p id now);
  failures = failures_of (get id p.health);
  until = down_until_of (get id p.health);
}

unfoldable pub snapshot : Pool → ℕ → List HealthReport
snapshot p now = map (report p now) p.trunk_ids
