-- ===== src/Auth/Core/Reducer.antt =====
-- One command: backend/packages/contracts/src/hosted-auth-state-machine-core.ts.
use mathlib.Core.Bool.{and-eq-true_iff, and-false, false≢true}
use mathlib.Core.Path.{subst₂}
use powerotp.Prelude.{
  ◌+◌, ◌≡◌, sym, ◌∙◌, ◌≢◌, ◌⊎◌, inl, inr, Bool, true, false, ◌&&◌, Option, none, some, arith, ◌==◌,
  HasEq, nat_eq, Bool-cases, Option-cases, find, includes, every, every-Memᴰ, find-Memᴰ, Memᴰ, ==→≡,
  ==_refl,
}
use powerotp.Auth.Scope.{Scope, same_scope}
use powerotp.Auth.Core.{
  observe, Rule, Machine, Snapshot, Command, Outcome, observed, duplicate, stale_transition, ok,
  err, guard_holds, is_event, fits, fire, apply_transition,
}

module _ {κ} {E : Type κ} ⦃event_eq : HasEq E⦄ where
  other_event : (b : Bool) (e f : E) → e ≢ f → (b && (e == f)) ≡ false
  other_event b e f differ = elim (Bool-cases (e == f)) [
    | inl same ↦ absurd (differ (==→≡ e f same))
    | inr other ↦ rw other (and-false b)
  ]

module _ {ℓ κ} {S : Type ℓ} {E : Type κ} ⦃state_eq : HasEq S⦄ ⦃event_eq : HasEq E⦄ where
  -- The command passes every check that stands before the search for a rule.
  pub record IsFresh (m : Machine S E) (current : Snapshot S E) (command : Command E) : Type 0 where
    pub current_scope : m.scope_schema current.scope ≡ true
    pub command_scope : m.scope_schema command.scope ≡ true
    pub known_state : includes m.states current.state ≡ true
    pub known_event : includes m.events command.event ≡ true
    pub scopes_agree : same_scope current.scope command.scope ≡ true
    pub version_agrees : command.expected_version ≡ current.version
    pub not_terminal : includes m.terminal_states current.state ≡ false

  abbrev pub found : Machine S E → Snapshot S E → Command E → Option (Rule S E)
  found m current command = find (fits current.scope current.state command.event) m.rules

  pub apply_fresh :
      (m : Machine S E) (current : Snapshot S E) (command : Command E)
      → IsFresh m current command
      → apply_transition m current command ≡ fire current command.event (found m current command)
  unfolding apply_transition
  apply_fresh m current command h = ground arith

  pub apply-IsFresh_inv :
      (m : Machine S E) (current : Snapshot S E) (command : Command E) {o : Outcome}
      {next : Snapshot S E}
      → apply_transition m current command ≡ ok (o, next)
      → ((o ≡ duplicate) × (next ≡ current)) ⊎ IsFresh m current command
  unfolding apply_transition
  apply-IsFresh_inv m current command h = ground arith

  -- The snapshot after a rule that is no observation.
  abbrev pub advance : Snapshot S E → Command E → Rule S E → Snapshot S E
  advance current command r = record {
    scope = current.scope;
    state = r.to;
    version = current.version + 1;
    last_event = some command.event;
  }

  -- One rule of the machine took the command.
  pub record Moves (m : Machine S E) (current : Snapshot S E) (command : Command E)
      (next : Snapshot S E) (r : Rule S E) : Type (ℓ ⊔ κ) where
    pub listed : Memᴰ r m.rules
    pub leaves : r.from ≡ current.state
    pub on : r.event ≡ command.event
    pub permitted : guard_holds r.scope_guard current.scope ≡ true
    pub not_observe : r.behavior ≢ observe
    pub arrives : next ≡ advance current command r

  fits_inv :
      (s : Scope) (a : S) (e : E) (r : Rule S E)
      → fits s a e r ≡ true
      → (r.from ≡ a) × (r.event ≡ e) × (guard_holds r.scope_guard s ≡ true)
  fits_inv s a e r h =
      let both : ((r.from == a && r.event == e) ≡ true) × (guard_holds r.scope_guard s ≡ true) =
        (and-eq-true_iff _ _).0 h in
      let parts : ((r.from == a) ≡ true) × ((r.event == e) ≡ true) =
        (and-eq-true_iff _ _).0 both.0 in
      (==→≡ r.from a parts.0, ==→≡ r.event e parts.1, both.1)

  fire_cases :
      (current : Snapshot S E) (command : Command E) (r : Rule S E) {o : Outcome}
      {next : Snapshot S E}
      → fire current command.event (some r) ≡ ok (o, next)
      → ((o ≡ observed) × (next ≡ current))
        ⊎ ((r.behavior ≢ observe) × (next ≡ advance current command r))
  fire_cases current command r h = ground arith

  fire_inv :
      (m : Machine S E) (current : Snapshot S E) (command : Command E) (r : Rule S E) {o : Outcome}
      {next : Snapshot S E}
      → found m current command ≡ some r
      → fire current command.event (some r) ≡ ok (o, next)
      → ((o ≡ observed) × (next ≡ current)) ⊎ Moves m current command next r
  fire_inv m current command r e h =
      let there : Memᴰ r m.rules × (fits current.scope current.state command.event r ≡ true) =
        find-Memᴰ _ m.rules e in
      let (leaves, on, permitted) = fits_inv _ _ _ r there.1 in
      elim (fire_cases current command r h) [
        | inl same ↦ inl same
        | inr moved ↦ inr (record {
          listed = there.0;
          leaves = leaves;
          on = on;
          permitted = permitted;
          not_observe = moved.0;
          arrives = moved.1;
        })
      ]

  fire-none :
      (current : Snapshot S E) (command : Command E) {o : Outcome} {next : Snapshot S E}
      → fire current command.event none ≡ ok (o, next)
      → ⊥
  fire-none current command h = cc

  -- A command that is accepted is a duplicate or an observation, and then nothing changes; or it
  -- passed every check and one rule of the machine took it: the rule leaves the current state on the
  -- command's event, its scope guard holds, it is no observe rule, and the new snapshot has the
  -- rule's target, the next version, the command's event as the last one and the same scope.
  pub apply-cases :
      (m : Machine S E) (current : Snapshot S E) (command : Command E) {o : Outcome}
      {next : Snapshot S E}
      → apply_transition m current command ≡ ok (o, next)
      → (((o ≡ duplicate) ⊎ (o ≡ observed)) × (next ≡ current))
        ⊎ (IsFresh m current command × ((r : Rule S E) × Moves m current command next r))
  apply-cases m current command h = elim (apply-IsFresh_inv m current command h) [
    | inl dup ↦ inl (inl dup.0, dup.1)
    | inr fresh ↦
        let fired = sym (apply_fresh m current command fresh) ∙ h in
        elim (Option-cases (found m current command)) [
          | inl nothing ↦ absurd (fire-none current command (rw nothing at fired))
          | inr (r, e) ↦ elim (fire_inv m current command r e (rw e at fired)) [
            | inl same ↦ inl (inr same.0, same.1)
            | inr moved ↦ inr (fresh, (r, moved))
          ]
        ]
  ]

  -- A command of another version than the current one, which is no repetition, is refused as stale.
  apply_stale :
      (m : Machine S E) (current : Snapshot S E) (command : Command E)
      → m.scope_schema current.scope ≡ true
      → m.scope_schema command.scope ≡ true
      → includes m.states current.state ≡ true
      → includes m.events command.event ≡ true
      → same_scope current.scope command.scope ≡ true
      → command.expected_version ≢ current.version
      → (command.expected_version + 1 == current.version
          && is_event command.event current.last_event)
        ≡ false
      → apply_transition m current command ≡ err stale_transition
  unfolding apply_transition
  apply_stale m current command a b c d e f g = ground arith

  apply_duplicate :
      (m : Machine S E) (current : Snapshot S E) (command : Command E)
      → m.scope_schema current.scope ≡ true
      → m.scope_schema command.scope ≡ true
      → includes m.states current.state ≡ true
      → includes m.events command.event ≡ true
      → same_scope current.scope command.scope ≡ true
      → command.expected_version + 1 ≡ current.version
      → is_event command.event current.last_event ≡ true
      → apply_transition m current command ≡ ok (duplicate, current)
  unfolding apply_transition
  apply_duplicate m current command a b c d e f g = ground arith

  -- A snapshot in a terminal state never changes: a command that is accepted there is a duplicate.
  pub apply_terminal :
      (m : Machine S E) (current : Snapshot S E) (command : Command E) {o : Outcome}
      {next : Snapshot S E}
      → includes m.terminal_states current.state ≡ true
      → apply_transition m current command ≡ ok (o, next)
      → (o ≡ duplicate) × (next ≡ current)
  apply_terminal m current command t h = elim (apply-IsFresh_inv m current command h) [
    | inl same ↦ same
    | inr fresh ↦ absurd (false≢true (sym fresh.not_terminal ∙ t))
  ]

  abbrev pub AllStatesKnown : Machine S E → Type (ℓ ⊔ κ)
  AllStatesKnown m = (r : Rule S E) → Memᴰ r m.rules → includes m.states r.to ≡ true

  pub all_states_known :
      (m : Machine S E) → every (λ r. includes m.states r.to) m.rules ≡ true → AllStatesKnown m
  all_states_known m check r listed = every-Memᴰ (λ x. includes m.states x.to) check listed

  -- Replaying the command that was just accepted changes nothing: unless it was an observation, the
  -- second answer is `duplicate`, with the same snapshot. The rules of the machine lead to its states.
  pub apply_replay :
      (m : Machine S E) (current : Snapshot S E) (command : Command E) {o : Outcome}
      {next : Snapshot S E}
      → AllStatesKnown m
      → apply_transition m current command ≡ ok (o, next)
      → o ≢ observed
      → apply_transition m next command ≡ ok (duplicate, next)
  apply_replay m current command {o} {next} known h no_look =
      elim (apply-cases m current command h) [
        | inl (inl dup, same) ↦
            rw same (subst₂ (λ p n. apply_transition m current command ≡ ok (p, n)) dup same h)
        | inl (inr look, same) ↦ absurd (no_look look)
        | inr (fresh, (r, moved)) ↦ rw moved.arrives (
            apply_duplicate m (advance current command r) command fresh.current_scope
              fresh.command_scope (known r moved.listed) fresh.known_event fresh.scopes_agree
              (omega (arith, fresh.version_agrees)) (==_refl command.event))
      ]

  -- Optimistic concurrency: once a command has moved the machine, another event sent for the old
  -- version, in the same scope and known to the machine, is refused as stale.
  pub apply_race :
      (m : Machine S E) (current : Snapshot S E) (first second : Command E) (r : Rule S E)
      {next : Snapshot S E}
      → AllStatesKnown m
      → IsFresh m current first
      → Moves m current first next r
      → IsFresh m current second
      → second.event ≢ first.event
      → apply_transition m next second ≡ err stale_transition
  apply_race m current first second r known fresh moved fresh' differ = rw moved.arrives (
      apply_stale m (advance current first r) second fresh'.current_scope fresh'.command_scope
        (known r moved.listed) fresh'.known_event fresh'.scopes_agree
        (omega (arith, fresh'.version_agrees))
        (other_event (second.expected_version + 1 == current.version + 1) second.event first.event
          differ))
