-- ===== src/Engine/Quorum/Settling.antt =====
-- internal/engine/quorum.go: acting on a report keeps the invariant of the gate, and so does every step.
use vuhive.Prelude.{
  Bool-cases, Option-cases, ◌-◌, ◌≤◌, ◌<◌, ◌≡◌, refl, ◌⊎◌, inl, inr, true, false, List, some, arith,
  is_some, leb, ltb,
}
use vuhive.Engine.Quorum.{
  StartupQuorumGate, StartupQuorumError, decide_ready, decide_failed, trigger_abort,
}
use vuhive.Engine.Quorum.System.{
  Report, ready_seen, failed_seen, timer_seen, Pick, All-Pick, Any-Pick, Any-of_Pick, Any-here,
  System, decide, Step, count_ready, count_failed, expire, settle, Reach, start, next,
}
use vuhive.Engine.Quorum.Invariant.{
  Seen, OpensAt, AbortsAt, IsTimer, Inv, count_ready-Inv, count_failed-Inv, expire-Inv,
}

module _ {F E : Type 0} where
  -- A report goes once what it was due to do is done.
  drop-Inv :
      {s : System F E} {r : Report E} {rest : List (Report E)}
      → Pick r s.pending rest
      → (OpensAt s.gate.required r → s.gate.opened ≡ true)
      → (AbortsAt (s.gate.target - s.gate.required) r → is_some s.gate.abort_err ≡ true)
      → Inv s
      → Inv (record s { pending = rest })
  drop-Inv {s} {r} {rest} p opens aborts v = record {
    required_pos = v.required_pos;
    required_le = v.required_le;
    reported = v.reported;
    seen = (All-Pick (Seen s.gate.ready_count s.gate.failed_count) p v.seen).1;
    open_earned = v.open_earned;
    open_due = λ o. elim (v.open_due o) [
      | inl a ↦ inl a
      | inr b ↦ elim (Any-Pick (OpensAt s.gate.required) p b) [
        | inl c ↦ inl (opens c)
        | inr d ↦ inr d
      ]
    ];
    abort_earned = v.abort_earned;
    abort_due = λ o. elim (v.abort_due o) [
      | inl a ↦ inl a
      | inr b ↦ elim (Any-Pick (AbortsAt (s.gate.target - s.gate.required)) p b) [
        | inl c ↦ inl (aborts c)
        | inr d ↦ inr d
      ]
    ];
    abort_short = v.abort_short;
    timer_expired = λ o. v.timer_expired (Any-of_Pick IsTimer p o);
  }

  open-Inv :
      {s : System F E}
      → s.gate.required ≤ s.gate.ready_count
      → Inv s
      → Inv (record s { gate = record s.gate { opened = true } })
  open-Inv {s} h v = record {
    required_pos = v.required_pos;
    required_le = v.required_le;
    reported = v.reported;
    seen = v.seen;
    open_earned = λ o. h;
    open_due = λ o. inl refl;
    abort_earned = v.abort_earned;
    abort_due = v.abort_due;
    abort_short = v.abort_short;
    timer_expired = v.timer_expired;
  }

  abort-Inv :
      {s : System F E} {err : StartupQuorumError F E}
      → (s.expired ≡ true) ⊎ (s.gate.target - s.gate.required < s.gate.failed_count)
      → (err.required ≡ s.gate.required)
      → (err.target ≡ s.gate.target)
      → (s.expired ≡ false → err.ready < err.required)
      → Inv s
      → Inv (record s { gate = record s.gate { abort_err = some err } })
  abort-Inv {s} {err} h sr st short v = record {
    required_pos = v.required_pos;
    required_le = v.required_le;
    reported = v.reported;
    seen = v.seen;
    open_earned = v.open_earned;
    open_due = v.open_due;
    abort_earned = λ o. h;
    abort_due = λ o. inl refl;
    abort_short = λ q e. ground (arith, sr, st, short);
    timer_expired = v.timer_expired;
  }

  trigger_abort-Inv :
      {s : System F E} (err : E)
      → (s.expired ≡ true) ⊎ (s.gate.target - s.gate.required < s.gate.failed_count)
      → Inv s
      → Inv (record s { gate = trigger_abort err s.gate })
  unfolding trigger_abort
  trigger_abort-Inv {s} err h v = elim (Option-cases s.gate.abort_err) [
    | inl e ↦ rw (e, trigger_abort) (abort-Inv h refl refl (λ o. ground arith) v)
    | inr (old, e) ↦ rw (e, trigger_abort) v
  ]

  trigger_abort-some :
      (err : E) (g : StartupQuorumGate F E) → is_some (trigger_abort err g).abort_err ≡ true
  unfolding trigger_abort
  trigger_abort-some err g = ground arith

  trigger_abort_same :
      (err : E) (g : StartupQuorumGate F E)
      → ((trigger_abort err g).target ≡ g.target)
        × ((trigger_abort err g).required ≡ g.required)
        × ((trigger_abort err g).opened ≡ g.opened)
  unfolding trigger_abort
  trigger_abort_same err g = ground arith

  settle-Inv :
      {s : System F E} (r : Report E) (rest : List (Report E))
      → Pick r s.pending rest
      → Inv s
      → Inv (record s { gate = decide r s.gate; pending = rest })
  unfolding decide decide_ready decide_failed
  settle-Inv {s} (ready_seen n) rest p v =
      let seen = (All-Pick (Seen s.gate.ready_count s.gate.failed_count) p v.seen).0 in
      elim (Bool-cases (leb s.gate.required n)) [
        | inl e ↦ rw e (drop-Inv p (λ _. refl) (λ b. absurd b) (open-Inv (ground arith) v))
        | inr e ↦ rw e (drop-Inv p (λ a. absurd (ground arith)) (λ b. absurd b) v)
      ]
  settle-Inv {s} (failed_seen n err) rest p v =
      let seen = (All-Pick (Seen s.gate.ready_count s.gate.failed_count) p v.seen).0 in
      elim (Bool-cases (ltb (s.gate.target - s.gate.required) n)) [
        | inl e ↦ rw e (
            drop-Inv p (λ a. absurd a) (λ b. trigger_abort-some err s.gate)
              (trigger_abort-Inv err (inr (ground arith)) v))
        | inr e ↦ rw e (drop-Inv p (λ a. absurd a) (λ b. absurd (ground arith)) v)
      ]
  settle-Inv {s} (timer_seen n err) rest p v =
      let over = v.timer_expired (Any-here IsTimer p tt) in
      elim (Bool-cases (leb s.gate.required n)) [
        | inl e ↦ rw e (drop-Inv p (λ a. absurd a) (λ b. absurd b) v)
        | inr e ↦
            rw e (drop-Inv p (λ a. absurd a) (λ b. absurd b) (trigger_abort-Inv err (inl over) v))
      ]

  Step-Inv : {s t : System F E} → Step s t → Inv s → Inv t
  Step-Inv (count_ready s h) v = count_ready-Inv h v
  Step-Inv (count_failed s err h) v = count_failed-Inv err h v
  Step-Inv (expire s err) v = expire-Inv err v
  Step-Inv (settle s r rest p) v = settle-Inv r rest p v

  pub Reach-Inv : {s t : System F E} → Inv s → Reach s t → Inv t
  Reach-Inv v start = v
  Reach-Inv v (next r st) = Step-Inv st (Reach-Inv v r)
