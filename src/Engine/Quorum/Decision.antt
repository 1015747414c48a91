-- ===== src/Engine/Quorum/Decision.antt =====
-- What AwaitQuorum and WaitReady of internal/engine/quorum.go may return, under every interleaving.
use vuhive.Prelude.{
  ap, dec_lt, suc, ◌+◌, ◌-◌, ◌≤◌, ◌<◌, ◌≡◌, refl, ◌⊎◌, inl, inr, Bool, true, false, List, [], ◌∷◌,
  Option, none, some, arith, ℤ, FloatOps, is_some,
}
use vuhive.Engine.Quorum.{
  add_ready, decide_ready, trigger_abort, Outcome, released, quorum_failed, cancelled,
}
use vuhive.Engine.Quorum.System.{
  ready_seen, timer_seen, here, Any, System, decide, count_ready, expire, settle, Reach, start,
  next, initial, WaitReady, by_ready, by_abort, by_context,
}
use vuhive.Engine.Quorum.Invariant.{initial-Inv, OpensAt, AbortsAt}
use vuhive.Engine.Quorum.Settling.{Reach-Inv}

Any-nil : {A : Type 0} (P : A → Type 0) (xs : List A) → xs ≡ [] → Any P xs → ⊥
Any-nil P [] e a = a
Any-nil P (x ∷ xs) e a = cc

some_of_is_some : {A : Type 0} (o : Option A) → is_some o ≡ true → (a : A) × (o ≡ some a)
some_of_is_some none e = cc
some_of_is_some (some a) e = (a, refl)

module _ {F E : Type 0} where
  -- What each outcome of a wait says of the reports that were made.
  abbrev pub Explained : System F E → Bool → Outcome F E → Type 0
  Explained s done released = s.gate.required ≤ s.gate.ready_count
  Explained s done (quorum_failed err) =
      ((s.expired ≡ true) ⊎ (s.gate.target - s.gate.required < s.gate.failed_count))
      × (err.required ≡ s.gate.required)
      × (err.target ≡ s.gate.target)
      × (s.expired ≡ false → err.ready < err.required)
  Explained s done cancelled = done ≡ true

  -- In every state that any interleaving of the workers' reports and of the timer reaches, a wait is
  -- released only if the required number of workers reported ready. It fails only if the grace
  -- period has ended or more than target - required workers failed; the error carries the gate's
  -- numbers, and before the end of the grace period it shows fewer ready workers than required.
  -- It is cancelled only if its context is done.
  pub WaitReady-Explained :
      (ops : FloatOps F) (target : ℤ) (ratio : F) (grace : ℤ) {s : System F E} (done : Bool)
      (o : Outcome F E)
      → Reach (initial ops target ratio grace) s
      → WaitReady s.gate done o
      → Explained s done o
  WaitReady-Explained ops target ratio grace done o r (by_ready h) =
      let v = Reach-Inv (initial-Inv ops target ratio grace) r in v.open_earned h
  WaitReady-Explained ops target ratio grace done o r (by_abort {err} h) =
      let v = Reach-Inv (initial-Inv ops target ratio grace) r in
      let (a, b, c) = v.abort_short err h in (v.abort_earned (cc (ap is_some h)), a, b, c)
  WaitReady-Explained ops target ratio grace done o r (by_context h) = h

  -- Until the grace period ends, the gate is never both open and aborted.
  pub Reach-exclusive :
      (ops : FloatOps F) (target : ℤ) (ratio : F) (grace : ℤ) {s : System F E}
      → Reach (initial ops target ratio grace) s
      → s.expired ≡ false
      → s.gate.opened ≡ true
      → s.gate.abort_err ≡ none
  Reach-exclusive ops target ratio grace {s} r e o =
      let v = Reach-Inv (initial-Inv ops target ratio grace) r in
      ground (arith, v.open_earned o, v.abort_earned, v.reported, v.required_le)

  -- When all workers have reported and every report is settled, a wait is not blocked: the gate is
  -- open or aborted, also if its context is never done.
  pub Reach-decided :
      (ops : FloatOps F) (target : ℤ) (ratio : F) (grace : ℤ) {s : System F E}
      → Reach (initial ops target ratio grace) s
      → s.pending ≡ []
      → s.gate.ready_count + s.gate.failed_count ≡ s.gate.target
      → (o : Outcome F E) × WaitReady s.gate false o
  Reach-decided ops target ratio grace {s} r empty all =
      let v = Reach-Inv (initial-Inv ops target ratio grace) r in
      elim (dec_lt s.gate.ready_count s.gate.required) [
        | yes few ↦ elim (v.abort_due (omega arith)) [
          | inl h ↦
              let (err, e) = some_of_is_some s.gate.abort_err h in (quorum_failed err, by_abort e)
          | inr a ↦ absurd (Any-nil (AbortsAt (s.gate.target - s.gate.required)) s.pending empty a)
        ]
        | no enough ↦ elim (v.open_due (omega arith)) [
          | inl h ↦ (released, by_ready h)
          | inr a ↦ absurd (Any-nil (OpensAt s.gate.required) s.pending empty a)
        ]
      ]

  -- A timer that reads the count just before the last ready report aborts the start all the same:
  -- from any state one report short of the quorum, a state is reached that is both open and
  -- aborted.
  late_timer_races :
      (s : System F E) (err : E)
      → s.gate.abort_err ≡ none
      → s.gate.ready_count + s.gate.failed_count < s.gate.target
      → suc s.gate.ready_count ≡ s.gate.required
      → (t : System F E) × Reach s t × (t.gate.opened ≡ true) × (is_some t.gate.abort_err ≡ true)
  unfolding decide decide_ready trigger_abort add_ready
  late_timer_races s err unset room short =
      let s1 : System F E = record s {
        pending = timer_seen s.gate.ready_count err ∷ s.pending;
        expired = true;
      } in
      let s2 : System F E = record s1 {
        gate = add_ready s.gate;
        pending = ready_seen (suc s.gate.ready_count) ∷ s1.pending;
      } in
      let s3 : System F E = record s2 {
        gate = decide (ready_seen (suc s.gate.ready_count)) s2.gate;
        pending = s1.pending;
      } in
      (
        record s3 {
          gate = decide (timer_seen s.gate.ready_count err) s3.gate;
          pending = s.pending;
        },
        next
            (next (next (next start (expire s err)) (count_ready s1 room))
              (settle s2 (ready_seen (suc s.gate.ready_count)) s1.pending here))
            (settle s3 (timer_seen s.gate.ready_count err) s.pending here),
        ground arith,
        ground arith,
      )
