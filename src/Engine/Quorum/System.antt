-- ===== src/Engine/Quorum/System.antt =====
-- internal/engine/quorum.go: the gate under concurrent virtual users. Each of the `target` workers
-- reports once; a report counts by one atomic step and is decided by a later one.
use vuhive.Prelude.{
  ℕ, suc, ◌+◌, ◌<◌, ◌≡◌, ◌⊎◌, inl, inr, Bool, true, false, List, [], ◌∷◌, some, ℤ, FloatOps, All,
  leb, if◌then◌else◌,
}
use vuhive.Engine.Quorum.{
  StartupQuorumGate, StartupQuorumError, new_startup_quorum_gate, add_ready, decide_ready,
  add_failed, decide_failed, trigger_abort, Outcome, released, quorum_failed, cancelled,
}

-- A call between its atomic read and what it does with the number that it read.
pub data Report (E : Type 0) : Type 0 where
  ready_seen : ℕ → Report E
  failed_seen : ℕ → E → Report E
  timer_seen : ℕ → E → Report E

pub data Pick {E : Type 0} (r : Report E) : List (Report E) → List (Report E) → Type 0 where
  here : {xs : List (Report E)} → Pick r (r ∷ xs) xs
  there : {x : Report E} {xs ys : List (Report E)} → Pick r xs ys → Pick r (x ∷ xs) (x ∷ ys)

abbrev pub Any : {A : Type 0} → (A → Type 0) → List A → Type 0
Any P [] = ⊥
Any P (x ∷ xs) = P x ⊎ Any P xs

pub All-Pick :
    {E : Type 0} (P : Report E → Type 0) {r : Report E} {xs ys : List (Report E)}
    → Pick r xs ys
    → All P xs
    → P r × All P ys
All-Pick P here (h, hs) = (h, hs)
All-Pick P (there p) (h, hs) = let (a, b) = All-Pick P p hs in (a, (h, b))

pub Any-Pick :
    {E : Type 0} (P : Report E → Type 0) {r : Report E} {xs ys : List (Report E)}
    → Pick r xs ys
    → Any P xs
    → P r ⊎ Any P ys
Any-Pick P here h = h
Any-Pick P (there p) (inl h) = inr (inl h)
Any-Pick P (there p) (inr h) = elim (Any-Pick P p h) [ inl a ↦ inl a | inr b ↦ inr (inr b) ]

pub Any-of_Pick :
    {E : Type 0} (P : Report E → Type 0) {r : Report E} {xs ys : List (Report E)}
    → Pick r xs ys
    → Any P ys
    → Any P xs
Any-of_Pick P here h = inr h
Any-of_Pick P (there p) (inl h) = inl h
Any-of_Pick P (there p) (inr h) = inr (Any-of_Pick P p h)

pub Any-here :
    {E : Type 0} (P : Report E → Type 0) {r : Report E} {xs ys : List (Report E)}
    → Pick r xs ys
    → P r
    → Any P xs
Any-here P here h = inl h
Any-here P (there p) h = inr (Any-here P p h)

pub record System (F E : Type 0) : Type 0 where
  pub gate : StartupQuorumGate F E
  pub pending : List (Report E)
  -- The grace period of AwaitQuorum has ended.
  pub expired : Bool

module _ {F E : Type 0} where
  unfoldable pub decide : Report E → StartupQuorumGate F E → StartupQuorumGate F E
  unfolding decide_ready decide_failed trigger_abort
  decide (ready_seen n) g = decide_ready n g
  decide (failed_seen n err) g = decide_failed n err g
  decide (timer_seen n err) g = if leb g.required n then g else trigger_abort err g

  pub data Step : System F E → System F E → Type 0 where
    count_ready :
        (s : System F E)
        → s.gate.ready_count + s.gate.failed_count < s.gate.target
        → Step s (record s {
          gate = add_ready s.gate;
          pending = ready_seen (suc s.gate.ready_count) ∷ s.pending;
        })
    count_failed :
        (s : System F E) (err : E)
        → s.gate.ready_count + s.gate.failed_count < s.gate.target
        → Step s (record s {
          gate = add_failed s.gate;
          pending = failed_seen (suc s.gate.failed_count) err ∷ s.pending;
        })
    expire :
        (s : System F E) (err : E)
        → Step s
            (record s { pending = timer_seen s.gate.ready_count err ∷ s.pending; expired = true })
    settle :
        (s : System F E) (r : Report E) (rest : List (Report E))
        → Pick r s.pending rest
        → Step s (record s { gate = decide r s.gate; pending = rest })

  pub data Reach (s : System F E) : System F E → Type 0 where
    start : Reach s s
    next : {t u : System F E} → Reach s t → Step t u → Reach s u

  unfoldable pub initial : FloatOps F → ℤ → F → ℤ → System F E
  unfolding new_startup_quorum_gate
  initial ops target ratio grace = record {
    gate = new_startup_quorum_gate ops target ratio grace;
    pending = [];
    expired = false;
  }

  -- The `select` of WaitReady, and of AwaitQuorum before its timer: a ready branch is chosen.
  pub data WaitReady (g : StartupQuorumGate F E) (done : Bool) : Outcome F E → Type 0 where
    by_ready : g.opened ≡ true → WaitReady g done released
    by_abort :
        {err : StartupQuorumError F E}
        → g.abort_err ≡ some err
        → WaitReady g done (quorum_failed err)
    by_context : done ≡ true → WaitReady g done cancelled
