-- ===== src/Engine/Arrival.antt =====
-- internal/engine/arrival_rate.go: the dispatch of tokens to the pool of workers. The dispatcher is the
-- list of what it does, and a step of the system is its next command or the receipt of a token by a
-- worker, in any order. What the dispatcher waits for is an input; the rate limiter is a library, and
-- `permits` is how often its Wait returns without an error. A send to a waiting receiver is a send to
-- the buffer and a receipt. The goroutine of a worker is in Worker.
pub mod Tokens
pub mod Buffer
mod Tests
use vuhive.Prelude.{
  ℕ, zero, suc, ◌*◌, ◌≡◌, Bool, true, false, List, [], ◌∷◌, ◌++◌, Option, none, some, ℤ, pos,
  pos_part, is_pos, leb_ℤ, ltb_ℤ, ltb, if◌then◌else◌, length, wrap64, FloatOps,
}
use vuhive.Config.Model.{ScenarioConfig}
use vuhive.Metric.Collector.{bits}

-- The size of the pool.
pub pool_size : {F : Type 0} → ScenarioConfig F → ℕ
pool_size cfg = if leb_ℤ cfg.max_vus (pos 0) then 1 else pos_part cfg.max_vus

-- The capacity of the channel; 2 * cfg.TargetTPS is taken in 64 bits.
pub burst_buffer : {F : Type 0} → ScenarioConfig F → ℤ
unfolding pool_size
burst_buffer cfg =
    let auto = wrap64 (2 * bits cfg.target_tps) in
    if leb_ℤ cfg.burst_buffer (pos 0)
    then (if ltb_ℤ auto (pos (pool_size cfg)) then pos (pool_size cfg) else auto)
    else cfg.burst_buffer

pub data Command : Type 0 where
  cancel_run : Command
  dispatch : Command
  close_tokens : Command
  drain_workers : Command

-- What the dispatcher waits for: AwaitQuorum's error, whether the dispatch context ends before the
-- midpoint of the ramp or before its end, and the permits of the limiter.
pub record Waits (Q : Type 0) : Type 0 where
  pub quorum : Option Q
  pub cut_before_midpoint : Bool
  pub cut_before_end : Bool
  pub permits : ℕ

-- The rounds of the steady loop.
pub steady_loop : ℕ → List Command
steady_loop zero = close_tokens ∷ drain_workers ∷ []
steady_loop (suc permits) = dispatch ∷ steady_loop permits

-- From the ramp on.
pub dispatch_all : {F Q : Type 0} → ScenarioConfig F → Waits Q → List Command
unfolding steady_loop
dispatch_all cfg w =
    if is_pos cfg.ramp_up
    then (if w.cut_before_midpoint
        then close_tokens ∷ drain_workers ∷ []
        else if w.cut_before_end
        then dispatch ∷ close_tokens ∷ drain_workers ∷ []
        else dispatch ∷ steady_loop w.permits)
    else steady_loop w.permits

-- What RunArrivalRate does, and the error that it returns.
pub run_arrival_rate :
    {F Q : Type 0} → FloatOps F → ScenarioConfig F → Waits Q → List Command × Option Q
unfolding dispatch_all
run_arrival_rate ops cfg w =
    if ops.lt (ops.of_int (pos 0)) cfg.min_ready_ratio
    then (elim w.quorum [
      | some e ↦ (cancel_run ∷ close_tokens ∷ drain_workers ∷ [], some e)
      | none ↦ (dispatch_all cfg w, none)
    ])
    else (dispatch_all cfg w, none)

pub record Channel : Type 0 where
  -- What the dispatcher has left to do.
  pub commands : List Command
  pub token_ch : List ℕ
  pub closed : Bool
  pub cancelled : Bool
  pub iter_seq : ℕ
  -- The counter MetricPacingDroppedIterations.
  pub dropped : ℕ
  -- The worker and the token of each receipt so far.
  pub received : List (ℕ × ℕ)

pub initial : List Command → Channel
initial commands = record {
  commands = commands;
  token_ch = [];
  closed = false;
  cancelled = false;
  iter_seq = 0;
  dropped = 0;
  received = [];
}

-- dispatchToken. A send on a closed channel panics: `none`.
pub dispatch_token : ℕ → Channel → Option Channel
dispatch_token capacity s =
    if s.closed
    then none
    else if ltb (length s.token_ch) capacity
    then some (record s { iter_seq = suc s.iter_seq; token_ch = s.token_ch ++ (s.iter_seq ∷ []) })
    else some (record s { iter_seq = suc s.iter_seq; dropped = suc s.dropped })

-- The channel is closed once, by sync.OnceFunc. The drain does not touch it.
pub obey : ℕ → Command → Channel → Option Channel
unfolding dispatch_token
obey capacity dispatch s = dispatch_token capacity s
obey capacity close_tokens s = some (record s { closed = true })
obey capacity cancel_run s = some (record s { cancelled = true })
obey capacity drain_workers s = some s

pub data Step (capacity : ℕ) : Channel → Channel → Type 0 where
  command :
      (s t : Channel) (c : Command) (rest : List Command)
      → s.commands ≡ c ∷ rest
      → obey capacity c (record s { commands = rest }) ≡ some t
      → Step capacity s t
  -- A worker takes the oldest token, also after the close.
  receive :
      (s : Channel) (vuid token : ℕ) (rest : List ℕ)
      → s.token_ch ≡ token ∷ rest
      → Step capacity s
          (record s { token_ch = rest; received = s.received ++ ((vuid, token) ∷ []) })

pub data Reach (capacity : ℕ) (s : Channel) : Channel → Type 0 where
  start : Reach capacity s s
  next : {t u : Channel} → Reach capacity s t → Step capacity t u → Reach capacity s u
