-- ===== src/Engine/Quorum.antt =====
-- internal/engine/quorum.go: the startup quorum gate. A channel that is closed once is a flag; the
-- counters and flags change by atomic steps, which Quorum/System interleaves. Logging is left out.
pub mod System
pub mod Bounds
pub mod Invariant
pub mod Settling
pub mod Decision
mod Tests
use vuhive.Prelude.{
  ℕ, suc, ◌+◌, ◌-◌, Bool, true, false, Option, none, some, ℤ, pos, pos_part, leb_ℤ, leb, ltb,
  if◌then◌else◌, is_some, FloatOps,
}

-- StartupQuorumError, over the type of the error that it wraps.
pub record StartupQuorumError (F E : Type 0) : Type 0 where
  pub ready : ℕ
  pub target : ℕ
  pub required : ℕ
  pub ratio : F
  pub cause : E

pub record StartupQuorumGate (F E : Type 0) : Type 0 where
  pub target : ℕ
  pub required : ℕ
  pub ratio : F
  pub grace_period : ℤ
  pub ready_count : ℕ
  pub failed_count : ℕ
  -- close(readyCh)
  pub opened : Bool
  -- close(abortCh), with abortErr
  pub abort_err : Option (StartupQuorumError F E)

-- 10 * time.Second
abbrev pub default_grace : ℤ
default_grace = pos 10_000_000_000

clamp_target : ℤ → ℕ
clamp_target target = if leb_ℤ target (pos 0) then 1 else pos_part target

clamp_required : ℕ → ℤ → ℕ
clamp_required target required =
    if leb_ℤ required (pos 0)
    then 1
    else if ltb target (pos_part required)
    then target
    else pos_part required

module _ {F E : Type 0} where
  pub new_startup_quorum_gate : FloatOps F → ℤ → F → ℤ → StartupQuorumGate F E
  unfolding clamp_target clamp_required
  new_startup_quorum_gate ops target ratio grace_period =
      let t = clamp_target target in
      record {
        target = t;
        required = clamp_required t (ops.ceil (ops.mul (ops.of_int (pos t)) ratio));
        ratio = ratio;
        grace_period = if leb_ℤ grace_period (pos 0) then default_grace else grace_period;
        ready_count = 0;
        failed_count = 0;
        opened = false;
        abort_err = none;
      }

  -- readyCount.Add(1); the caller keeps the count that it gets.
  pub add_ready : StartupQuorumGate F E → StartupQuorumGate F E
  add_ready g = record g { ready_count = suc g.ready_count }

  -- The rest of RecordReady, at the count that Add returned.
  pub decide_ready : ℕ → StartupQuorumGate F E → StartupQuorumGate F E
  decide_ready current g = if leb g.required current then record g { opened = true } else g

  -- failedCount.Add(1)
  pub add_failed : StartupQuorumGate F E → StartupQuorumGate F E
  add_failed g = record g { failed_count = suc g.failed_count }

  -- abortOnce: the first error stays.
  pub trigger_abort : E → StartupQuorumGate F E → StartupQuorumGate F E
  trigger_abort err g = elim g.abort_err [
    | some old ↦ g
    | none ↦ record g {
      abort_err = some (record {
        ready = g.ready_count;
        target = g.target;
        required = g.required;
        ratio = g.ratio;
        cause = err;
      });
    }
  ]

  -- The rest of RecordFailed.
  pub decide_failed : ℕ → E → StartupQuorumGate F E → StartupQuorumGate F E
  unfolding trigger_abort
  decide_failed current err g =
      if ltb (g.target - g.required) current then trigger_abort err g else g

  -- AwaitQuorum's branch at the end of the grace period.
  pub on_timer : E → StartupQuorumGate F E → StartupQuorumGate F E
  unfolding trigger_abort
  on_timer expired g = if leb g.required g.ready_count then g else trigger_abort expired g

  -- RecordReady and RecordFailed, run to their end with nothing in between.
  pub record_ready : StartupQuorumGate F E → StartupQuorumGate F E
  unfolding add_ready decide_ready
  record_ready g = decide_ready (suc g.ready_count) (add_ready g)

  pub record_failed : E → StartupQuorumGate F E → StartupQuorumGate F E
  unfolding add_failed decide_failed
  record_failed err g = decide_failed (suc g.failed_count) err (add_failed g)

-- What a `select` of WaitReady or AwaitQuorum may return: any branch whose channel is ready.
pub data Outcome (F E : Type 0) : Type 0 where
  released : Outcome F E
  quorum_failed : StartupQuorumError F E → Outcome F E
  cancelled : Outcome F E
