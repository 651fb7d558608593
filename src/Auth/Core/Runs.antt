-- ===== src/Auth/Core/Runs.antt =====
-- Sequences of accepted commands. A refused command throws and leaves the snapshot as it is.
use mathlib.Core.Bool.{false≢true}
use powerotp.Prelude.{
  ◌≤◌, ◌≡◌, refl, sym, ap, subst, ◌∙◌, ◌⊎◌, inl, inr, Bool, true, false, not, ◌||◌, arith, ◌==◌,
  HasEq, includes, every, every-Memᴰ, Memᴰ, ==→≡,
}
use powerotp.Auth.Scope.{Scope}
use powerotp.Auth.Core.{
  Rule, Machine, Snapshot, Command, Outcome, ok, guard_holds, apply_transition,
}
use powerotp.Auth.Core.Reducer.{apply-cases, apply_terminal}

module _ {ℓ κ} {S : Type ℓ} {E : Type κ} ⦃state_eq : HasEq S⦄ ⦃event_eq : HasEq E⦄ where
  -- The snapshots that any sequence of commands can lead to.
  pub data Reaches (m : Machine S E) (start : Snapshot S E) : Snapshot S E → Type (ℓ ⊔ κ) where
    here : Reaches m start start
    later :
        {s t : Snapshot S E}
        → Reaches m start s
        → (command : Command E) (o : Outcome) → apply_transition m s command ≡ ok (o, t)
        → Reaches m start t

  -- What holds of the start, and is kept by each rule of the machine whose guard holds, holds of
  -- every snapshot that is reached.
  pub Reaches-invariant {μ} :
      (P : Scope → S → Type μ) (m : Machine S E) {start : Snapshot S E}
      → ((s : Scope) (r : Rule S E)
          → Memᴰ r m.rules
          → guard_holds r.scope_guard s ≡ true
          → P s r.from
          → P s r.to)
      → P start.scope start.state
      → {end : Snapshot S E} → Reaches m start end
      → P end.scope end.state
  Reaches-invariant P m keep p here = p
  Reaches-invariant P m keep p (later {s = s} before command o e) =
      elim (apply-cases m s command e) [
        | inl (how, same) ↦
            subst (λ n. P n.scope n.state) (sym same) (Reaches-invariant P m keep p before)
        | inr (fresh, (r, moved)) ↦
            subst (λ n. P n.scope n.state) (sym moved.arrives)
              (keep s.scope r moved.listed moved.permitted
                (subst (λ a. P s.scope a) (sym moved.leaves) (Reaches-invariant P m keep p before)))
      ]

  -- The scope never changes and the version never falls.
  pub Reaches-monotone :
      (m : Machine S E) {start end : Snapshot S E}
      → Reaches m start end
      → (end.scope ≡ start.scope) × (start.version ≤ end.version)
  Reaches-monotone m here = (refl, omega arith)
  Reaches-monotone m (later {s = s} before command o e) =
      let (same_scope, grows) = Reaches-monotone m before in
      elim (apply-cases m s command e) [
        | inl (how, same) ↦ rw same (same_scope, grows)
        | inr (fresh, (r, moved)) ↦ rw moved.arrives (same_scope, omega arith)
      ]

  -- From a terminal state nothing else is reached.
  pub Reaches-terminal :
      (m : Machine S E) {start end : Snapshot S E}
      → includes m.terminal_states start.state ≡ true
      → Reaches m start end
      → end ≡ start
  Reaches-terminal m t here = refl
  Reaches-terminal m t (later {s = s} before command o e) =
      let same = Reaches-terminal m t before in (apply_terminal m s command (rw same t) e).1 ∙ same

  -- A rule that enters the region from outside enters it at the gate.
  abbrev pub gated : (S → Bool) → S → Rule S E → Bool
  gated region gate r = not (region r.to) || region r.from || r.to == gate

  gated_cases :
      (region : S → Bool) (gate : S) (r : Rule S E)
      → gated region gate r ≡ true
      → region r.to ≡ true
      → (region r.from ≡ true) ⊎ ((r.to == gate) ≡ true)
  gated_cases region gate r h inside = ground arith

  -- The last step of a run into the region comes from inside, or ends at the gate.
  enters :
      (region : S → Bool) (gate : S) (m : Machine S E) (s : Snapshot S E) (command : Command E)
      {o : Outcome} {t : Snapshot S E}
      → every (gated region gate) m.rules ≡ true
      → apply_transition m s command ≡ ok (o, t)
      → region t.state ≡ true
      → (region s.state ≡ true) ⊎ (t.state ≡ gate)
  enters region gate m s command check e inside = elim (apply-cases m s command e) [
    | inl (how, same) ↦ inl (subst (λ n. region n.state ≡ true) same inside)
    | inr (fresh, (r, moved)) ↦
        elim (gated_cases region gate r (every-Memᴰ _ check moved.listed)
          (subst (λ n. region n.state ≡ true) moved.arrives inside)) [
            | inl within ↦ inl (subst (λ a. region a ≡ true) moved.leaves within)
            | inr at_gate ↦
                inr (ap (λ (n : Snapshot S E). n.state) moved.arrives ∙ ==→≡ _ _ at_gate)
          ]
  ]

  -- The run passed through a snapshot in the state `gate`.
  abbrev pub PassedThrough : Machine S E → S → Snapshot S E → Snapshot S E → Type (ℓ ⊔ κ)
  PassedThrough m gate start end =
      (between : Snapshot S E) × Reaches m start between
      × (between.state ≡ gate)
      × Reaches m between end

  -- A run that starts outside the region and ends in it passed through the gate.
  pub Reaches-gate :
      (region : S → Bool) (gate : S) (m : Machine S E) {start : Snapshot S E}
      → every (gated region gate) m.rules ≡ true
      → region start.state ≡ false
      → {end : Snapshot S E} → Reaches m start end
      → region end.state ≡ true
      → PassedThrough m gate start end
  Reaches-gate region gate m check outside here inside = absurd (false≢true (sym outside ∙ inside))
  Reaches-gate region gate m check outside {end} (later {s = s} before command o e) inside =
      elim (enters region gate m s command check e inside) [
        | inl within ↦
            let (mid, first, at, rest) = Reaches-gate region gate m check outside before within in
            (mid, first, at, later rest command o e)
        | inr at ↦ (end, later before command o e, at, here)
      ]
