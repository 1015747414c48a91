-- ===== src/Engine/Quorum/Invariant.antt =====
-- The invariant of the startup quorum gate of internal/engine/quorum.go, kept by every step.
use vuhive.Prelude.{
  ℕ, suc, ◌+◌, ◌-◌, ◌≤◌, ◌<◌, ◌≡◌, refl, ◌⊎◌, inl, inr, true, false, List, [], ◌∷◌, some, arith, ℤ,
  FloatOps, All, is_some,
}
use vuhive.Engine.Quorum.{StartupQuorumError, add_ready, add_failed}
use vuhive.Engine.Quorum.System.{Report, ready_seen, failed_seen, timer_seen, Any, System, initial}
use vuhive.Engine.Quorum.Bounds.{new_startup_quorum_gate_bounds}

module _ {E : Type 0} where
  abbrev pub Seen : ℕ → ℕ → Report E → Type 0
  Seen ready failed (ready_seen n) = n ≤ ready
  Seen ready failed (failed_seen n _) = n ≤ failed
  Seen ready failed (timer_seen n _) = n ≤ ready

  -- A report whose decision will open the gate.
  abbrev pub OpensAt : ℕ → Report E → Type 0
  OpensAt required (ready_seen n) = required ≤ n
  OpensAt required (failed_seen _ _) = ⊥
  OpensAt required (timer_seen _ _) = ⊥

  -- A report whose decision will abort for dropout.
  abbrev pub AbortsAt : ℕ → Report E → Type 0
  AbortsAt slack (ready_seen _) = ⊥
  AbortsAt slack (failed_seen n _) = slack < n
  AbortsAt slack (timer_seen _ _) = ⊥

  abbrev pub IsTimer : Report E → Type 0
  IsTimer (ready_seen _) = ⊥
  IsTimer (failed_seen _ _) = ⊥
  IsTimer (timer_seen _ _) = Unit

  pub Seen-mono :
      {a b c d : ℕ} (rs : List (Report E)) → a ≤ c → b ≤ d → All (Seen a b) rs → All (Seen c d) rs
  Seen-mono [] h k all = tt
  Seen-mono (ready_seen n ∷ rs) h k all = (omega arith, Seen-mono rs h k all.1)
  Seen-mono (failed_seen n _ ∷ rs) h k all = (omega arith, Seen-mono rs h k all.1)
  Seen-mono (timer_seen n _ ∷ rs) h k all = (omega arith, Seen-mono rs h k all.1)

module _ {F E : Type 0} where
  pub record Inv (s : System F E) : Type 0 where
    pub required_pos : 1 ≤ s.gate.required
    pub required_le : s.gate.required ≤ s.gate.target
    pub reported : s.gate.ready_count + s.gate.failed_count ≤ s.gate.target
    pub seen : All (Seen s.gate.ready_count s.gate.failed_count) s.pending
    pub open_earned : s.gate.opened ≡ true → s.gate.required ≤ s.gate.ready_count
    pub open_due :
        s.gate.required ≤ s.gate.ready_count
        → (s.gate.opened ≡ true) ⊎ Any (OpensAt s.gate.required) s.pending
    pub abort_earned :
        is_some s.gate.abort_err ≡ true
        → (s.expired ≡ true) ⊎ (s.gate.target - s.gate.required < s.gate.failed_count)
    pub abort_due :
        s.gate.target - s.gate.required < s.gate.failed_count
        → (is_some s.gate.abort_err ≡ true)
          ⊎ Any (AbortsAt (s.gate.target - s.gate.required)) s.pending
    pub abort_short :
        (err : StartupQuorumError F E)
        → s.gate.abort_err ≡ some err
        → (err.required ≡ s.gate.required)
          × (err.target ≡ s.gate.target)
          × (s.expired ≡ false → err.ready < err.required)
    pub timer_expired : Any IsTimer s.pending → s.expired ≡ true

  pub initial-Inv :
      (ops : FloatOps F) (target : ℤ) (ratio : F) (grace : ℤ)
      → Inv (initial {E = E} ops target ratio grace)
  unfolding initial
  initial-Inv ops target ratio grace =
      let (low, high, shut, unset, grace_pos) =
        new_startup_quorum_gate_bounds {E = E} ops target ratio grace in
      record {
        required_pos = low;
        required_le = high;
        reported = omega arith;
        seen = tt;
        open_earned = λ h. cc;
        open_due = λ h. absurd (omega arith);
        abort_earned = λ h. cc;
        abort_due = λ h. absurd (omega arith);
        abort_short = λ q h. absurd (cc);
        timer_expired = λ h. absurd h;
      }

  pub count_ready-Inv :
      {s : System F E}
      → s.gate.ready_count + s.gate.failed_count < s.gate.target
      → Inv s
      → Inv (record s {
        gate = add_ready s.gate;
        pending = ready_seen (suc s.gate.ready_count) ∷ s.pending;
      })
  unfolding add_ready
  count_ready-Inv {s} h v = record {
    required_pos = v.required_pos;
    required_le = v.required_le;
    reported = omega arith;
    seen = (omega arith, Seen-mono s.pending (omega arith) (omega arith) v.seen);
    open_earned = λ o. ground (arith, v.open_earned o);
    open_due = λ o. inr (inl o);
    abort_earned = v.abort_earned;
    abort_due = λ o. elim (v.abort_due o) [ inl a ↦ inl a | inr b ↦ inr (inr b) ];
    abort_short = v.abort_short;
    timer_expired = λ o. elim o [ inl a ↦ absurd a | inr b ↦ v.timer_expired b ];
  }

  pub count_failed-Inv :
      {s : System F E} (err : E)
      → s.gate.ready_count + s.gate.failed_count < s.gate.target
      → Inv s
      → Inv (record s {
        gate = add_failed s.gate;
        pending = failed_seen (suc s.gate.failed_count) err ∷ s.pending;
      })
  unfolding add_failed
  count_failed-Inv {s} err h v = record {
    required_pos = v.required_pos;
    required_le = v.required_le;
    reported = omega arith;
    seen = (omega arith, Seen-mono s.pending (omega arith) (omega arith) v.seen);
    open_earned = v.open_earned;
    open_due = λ o. elim (v.open_due o) [ inl a ↦ inl a | inr b ↦ inr (inr b) ];
    abort_earned = λ o. ground (arith, v.abort_earned o);
    abort_due = λ o. inr (inl o);
    abort_short = v.abort_short;
    timer_expired = λ o. elim o [ inl a ↦ absurd a | inr b ↦ v.timer_expired b ];
  }

  pub expire-Inv :
      {s : System F E} (err : E)
      → Inv s
      → Inv (record s { pending = timer_seen s.gate.ready_count err ∷ s.pending; expired = true })
  expire-Inv {s} err v = record {
    required_pos = v.required_pos;
    required_le = v.required_le;
    reported = v.reported;
    seen = (omega arith, v.seen);
    open_earned = v.open_earned;
    open_due = λ o. elim (v.open_due o) [ inl a ↦ inl a | inr b ↦ inr (inr b) ];
    abort_earned = λ o. inl refl;
    abort_due = λ o. elim (v.abort_due o) [ inl a ↦ inl a | inr b ↦ inr (inr b) ];
    abort_short = λ q h. let (a, b, c) = v.abort_short q h in (a, b, λ o. absurd (cc o));
    timer_expired = λ o. refl;
  }
