-- ===== src/Engine/Constant/Orderly.antt =====
-- internal/engine/constant_vus.go and drain.go: the order of a constant_vus run, as an automaton.
use vuhive.Prelude.{
  eq_self, false≢true, ℕ, zero, suc, ◌+◌, ◌≤◌, ◌≡◌, refl, sym, ◌∙◌, ap, ◌⊎◌, Bool, true, false,
  List, [], ◌∷◌, ◌++◌, map, Option, none, some, some_inj, ℤ, pos, pos_part, ltb, ◌&&◌, ◌==◌,
  if◌then◌else◌, FloatOps, arith, Bool-cases, Option-cases, inl, inr,
}
use vuhive.Config.Model.{ScenarioConfig}
use vuhive.Engine.Drain.{
  announced, cancelled, all_exited, warned, DrainPick, by_exit, by_timer, by_context, by_default,
  drain_workers,
}
use vuhive.Engine.Constant.{
  PacerAct, spawned, cancel_run, stop_closed, draining, PacerError, run_done, no_quorum, PacerInput,
  spawn_interval, spawn_vus, wind_down, after_spawning, leave, run_constant_vus,
}

add_zero : (k : ℕ) → 0 + k ≡ k
add_zero k = omega arith

plus_zero : (k : ℕ) → k + 0 ≡ k
plus_zero k = omega arith

run_done≢no_quorum : {Q : Type 0} {e : Q} → run_done ≡ no_quorum e → ⊥
run_done≢no_quorum h = cc

-- The number of virtual users spawned so far stands in each phase.
pub data Phase : Type 0 where
  spawning : ℕ → Phase
  quitting : ℕ → Phase
  stopped : ℕ → Phase
  cancelling : ℕ → Phase
  -- Every goroutine has returned.
  dismissed : ℕ → Phase

-- The users are spawned in order; stopCh is closed once, before the drain; a cancellation comes before
-- the wait for the goroutines, and nothing but a warning after it.
pub advance : Phase → PacerAct → Option Phase
advance (spawning k) (spawned i) = if i == suc k then some (spawning (suc k)) else none
advance (spawning k) cancel_run = some (quitting k)
advance (spawning k) stop_closed = some (stopped k)
advance (quitting k) stop_closed = some (stopped k)
advance (stopped k) (draining (announced n)) = some (stopped k)
advance (stopped k) (draining cancelled) = some (cancelling k)
advance (stopped k) (draining all_exited) = some (dismissed k)
advance (cancelling k) (draining all_exited) = some (dismissed k)
advance (dismissed k) (draining (warned n)) = some (dismissed k)
advance phase act = none

pub advance_all : Phase → List PacerAct → Option Phase
advance_all phase [] = some phase
advance_all phase (act ∷ acts) = elim (advance phase act) [
  | none ↦ none
  | some phase' ↦ advance_all phase' acts
]

drained_lem :
    (k : ℕ) (active before_cancel : ℤ) (has_logger : Bool) (pick : DrainPick)
    → advance_all (stopped k) (map draining (drain_workers active before_cancel has_logger pick))
      ≡ some (dismissed k)
unfolding advance_all advance drain_workers
drained_lem k active before_cancel true by_exit = refl
drained_lem k active before_cancel true by_timer = refl
drained_lem k active before_cancel true by_context = refl
drained_lem k active before_cancel true by_default = ground arith
drained_lem k active before_cancel false by_exit = refl
drained_lem k active before_cancel false by_timer = refl
drained_lem k active before_cancel false by_context = refl
drained_lem k active before_cancel false by_default = refl

wind_down_lem :
    {Q : Type 0} (k : ℕ) (input : PacerInput Q)
    → (advance_all (spawning k) (wind_down input) ≡ some (dismissed k))
      × (advance_all (spawning k) (cancel_run ∷ wind_down input) ≡ some (dismissed k))
unfolding wind_down advance_all advance
wind_down_lem k input =
    let drained = drained_lem k input.active input.before_cancel input.has_logger input.pick in
    (drained, drained)

after_spawning_lem :
    {F Q : Type 0} (ops : FloatOps F) (cfg : ScenarioConfig F) (input : PacerInput Q) (k : ℕ)
    → advance_all (spawning k) (after_spawning ops cfg input).0 ≡ some (dismissed k)
unfolding after_spawning
after_spawning_lem ops cfg input k =
    let (plain, failing) = wind_down_lem k input in
    elim (Option-cases
      (if ops.lt (ops.of_int (pos 0)) cfg.min_ready_ratio then input.quorum else none)) [
        | inl fine ↦ rw (after_spawning, fine) plain
        | inr (e, failed) ↦ rw (after_spawning, failed) failing
      ]

spawned_lem :
    (k : ℕ) (acts : List PacerAct)
    → advance_all (spawning k) (spawned (suc k) ∷ acts) ≡ advance_all (spawning (suc k)) acts
unfolding advance_all advance
spawned_lem k acts = rw (advance_all, eq_self (suc k)) refl

add_suc : (m k : ℕ) → m + suc k ≡ suc m + k
add_suc m k = omega arith

-- The loop spawns n users in a row, or fewer if it is cut; k are there already.
spawn_vus_lem :
    (cut : ℕ → Bool) (n k : ℕ)
    → (m : ℕ) × (m ≤ n)
      × ((spawn_vus cut n (suc k)).1 ≡ false → m ≡ n)
      × ((rest : List PacerAct)
          → advance_all (spawning k) ((spawn_vus cut n (suc k)).0 ++ rest)
            ≡ advance_all (spawning (m + k)) rest)
unfolding spawn_vus advance_all advance
spawn_vus_lem cut zero k = (0, omega arith, λ h. refl, λ rest. rw (add_zero k) refl)
spawn_vus_lem cut (suc n) k =
    let (m, few, whole, run) = spawn_vus_lem cut n (suc k) in
    elim (Bool-cases (cut (suc k))) [
      | inl now ↦ (
        0,
        omega arith,
        λ h. absurd (false≢true (sym h ∙ simp (spawn_vus, now) refl)),
        λ rest. simp (spawn_vus, now, add_zero k) refl,
      )
      | inr later ↦
          let head = spawn_vus cut n (suc (suc k)) in
          let parts : spawn_vus cut (suc n) (suc k) ≡ (spawned (suc k) ∷ head.0, head.1) =
            simp (spawn_vus, later) refl in
          (
            suc m,
            omega arith,
            λ h. ap suc (whole (sym (ap (λ (p : List PacerAct × Bool). p.1) parts) ∙ h)),
            λ rest.
                ap (λ (p : List PacerAct × Bool). advance_all (spawning k) (p.0 ++ rest)) parts
                ∙ spawned_lem k (head.0 ++ rest)
                ∙ run rest
                ∙ ap (λ j. advance_all (spawning j) rest) (add_suc m k),
          )
    ]

module _ {F Q : Type 0} (ops : FloatOps F) (cfg : ScenarioConfig F) (input : PacerInput Q) where
  abbrev pub IsOrderly : List PacerAct × Option (PacerError Q) → Type 0
  IsOrderly out =
      (k : ℕ) × (k ≤ pos_part cfg.vus)
      × (advance_all (spawning 0) out.0 ≡ some (dismissed k))
      × ((k ≡ pos_part cfg.vus) ⊎ (out.1 ≡ some run_done))
      × ((e : Q)
          → out.1 ≡ some (no_quorum e)
          → (input.quorum ≡ some e) × (ops.lt (ops.of_int (pos 0)) cfg.min_ready_ratio ≡ true))

  quorum_lem :
      (e : Q)
      → (after_spawning ops cfg input).1 ≡ some (no_quorum e)
      → (input.quorum ≡ some e) × (ops.lt (ops.of_int (pos 0)) cfg.min_ready_ratio ≡ true)
  unfolding after_spawning
  quorum_lem e h = ground arith

  leave-IsOrderly :
      (spawns : List PacerAct) (was_cut : Bool) (k : ℕ)
      → k ≤ pos_part cfg.vus
      → (was_cut ≡ false → k ≡ pos_part cfg.vus)
      → ((rest : List PacerAct)
          → advance_all (spawning 0) (spawns ++ rest) ≡ advance_all (spawning k) rest)
      → IsOrderly (leave ops cfg input spawns was_cut)
  unfolding leave
  leave-IsOrderly spawns true k few whole run = (
    k,
    few,
    run (wind_down input) ∙ (wind_down_lem k input).0,
    inr refl,
    λ e h. absurd (run_done≢no_quorum (some_inj h)),
  )
  leave-IsOrderly spawns false k few whole run = (
    k,
    few,
    run (after_spawning ops cfg input).0 ∙ after_spawning_lem ops cfg input k,
    inl (whole refl),
    quorum_lem,
  )

  -- For any scenario, answer of the gate, waits and branches of the drain: RunConstantVUs spawns the
  -- virtual users 1 to k in order, for a k of at most cfg.VUs, and all of them unless it returns the
  -- error of runCtx; it returns an error of the gate only if that is what AwaitQuorum returned and
  -- min_ready_ratio is greater than 0. On every path it then closes stopCh exactly once, after that
  -- drains, and waits for all goroutines to return; a cancellation of the run comes before that wait, and
  -- only a warning after it.
  pub run_constant_vus-IsOrderly : IsOrderly (run_constant_vus ops cfg input)
  unfolding run_constant_vus
  run_constant_vus-IsOrderly =
      let cut : ℕ → Bool = λ i. ltb 1 i && ltb 0 (spawn_interval cfg) && input.cut i in
      let (m, few, whole, run) = spawn_vus_lem cut (pos_part cfg.vus) 0 in
      let sp = spawn_vus cut (pos_part cfg.vus) 1 in
      leave-IsOrderly sp.0 sp.1 m few whole
        (λ rest. run rest ∙ ap (λ j. advance_all (spawning j) rest) (plus_zero m))
