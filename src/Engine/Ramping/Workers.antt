-- ===== src/Engine/Ramping/Workers.antt =====
-- internal/engine/ramping_vus.go: adjustWorkers and the loops that close the stop channels, on a pool
-- in which every worker spawned so far is either active or stopped, once.
use vuhive.Prelude.{
  ℕ, ◌+◌, ◌-◌, ◌≤◌, ◌≡◌, refl, true, false, List, [], ◌∷◌, some, ℤ, pos_part, ltb, length, take,
  arith, inl, inr, Bool-cases, sym,
}
use vuhive.Engine.Ramping.{Pool, count, spawn, adjust_workers, close_all, stop_all, empty_pool}
use vuhive.Engine.Ramping.Counts.{
  spawned, Inv, AllStopped, spawned≤1, spawn-Inv, length-spawn, length-take, take-length,
  stop_last-Pool, close_lem,
}

-- What one adjustment does: it never panics, it keeps the invariant, the pool gets the size asked for,
-- and the workers that stay are the oldest.
abbrev pub Adjusted : ℤ → Pool → Pool → Type 0
Adjusted desired p q =
    Inv q
    × (length q.workers ≡ pos_part desired)
    × (pos_part desired ≤ length p.workers → q.workers ≡ take (pos_part desired) p.workers)

adjust_grow :
    (desired : ℤ) (p : Pool)
    → ltb (length p.workers) (pos_part desired) ≡ true
    → Inv p
    → (q : Pool) × (adjust_workers desired p ≡ some q) × Adjusted desired p q
unfolding adjust_workers
adjust_grow desired p more inv = (
  spawn (pos_part desired - length p.workers) p,
  rw more,
  (
    spawn-Inv (pos_part desired - length p.workers) p inv,
    (let a = length-spawn (pos_part desired - length p.workers) p in ground arith),
    λ h. absurd (ground arith),
  ),
)

adjust_shrink :
    (desired : ℤ) (p : Pool)
    → ltb (length p.workers) (pos_part desired) ≡ false
    → ltb (pos_part desired) (length p.workers) ≡ true
    → Inv p
    → (q : Pool) × (adjust_workers desired p ≡ some q) × Adjusted desired p q
unfolding adjust_workers
adjust_shrink desired p no_more less inv =
    let (after, run, balance) = stop_last-Pool p (pos_part desired) (ground arith) inv in
    (
      record p { workers = take (pos_part desired) p.workers; stopped = after },
      rw (no_more, less, run),
      (balance, length-take (pos_part desired) p.workers (ground arith), λ h. refl),
    )

adjust_same :
    (desired : ℤ) (p : Pool)
    → ltb (length p.workers) (pos_part desired) ≡ false
    → ltb (pos_part desired) (length p.workers) ≡ false
    → Inv p
    → (q : Pool) × (adjust_workers desired p ≡ some q) × Adjusted desired p q
unfolding adjust_workers
adjust_same desired p no_more no_less inv =
    let same : pos_part desired ≡ length p.workers = ground arith in
    (p, rw (no_more, no_less), (inv, sym same, λ h. sym (rw same (take-length p.workers))))

-- For every pool in which each worker spawned so far is either active or stopped once, and every
-- desired count, negative ones included: `adjust_workers` returns a pool without closing a closed
-- channel or indexing out of range, that pool satisfies the same invariant, it has as many workers as
-- desired (none for a negative count), and when the pool does not grow, the workers that stay are the
-- oldest.
pub adjust_workers-Adjusted :
    (desired : ℤ) (p : Pool)
    → Inv p
    → (q : Pool) × (adjust_workers desired p ≡ some q) × Adjusted desired p q
adjust_workers-Adjusted desired p inv =
    elim (Bool-cases (ltb (length p.workers) (pos_part desired))) [
      | inl more ↦ adjust_grow desired p more inv
      | inr no_more ↦ elim (Bool-cases (ltb (pos_part desired) (length p.workers))) [
        | inl less ↦ adjust_shrink desired p no_more less inv
        | inr no_less ↦ adjust_same desired p no_more no_less inv
      ]
    ]

close_all_lem :
    (ids stopped : List ℕ)
    → ((id : ℕ) → count id ids + count id stopped ≤ 1)
    → (after : List ℕ) × (close_all ids stopped ≡ some after)
      × ((id : ℕ) → count id after ≡ count id ids + count id stopped)
unfolding close_all
close_all_lem [] stopped once = (stopped, refl, λ id. omega arith)
close_all_lem (x ∷ ids) stopped once =
    let fresh : count x stopped ≡ 0 = let b = once x in ground arith in
    let (after, run, balance) =
      close_all_lem ids (x ∷ stopped) (λ id. let b = once id in ground arith) in
    (after, rw (close_lem stopped x fresh, run), λ id. let b = balance id in omega (arith, b))

pub stop_all_lem : (p : Pool) → Inv p → (q : Pool) × (stop_all p ≡ some q) × AllStopped q
unfolding stop_all
stop_all_lem p inv =
    let (after, run, balance) =
      close_all_lem p.workers p.stopped
        (λ id. let a = inv id in let b = spawned≤1 id p.vuid_seq in omega (arith, a, b)) in
    (
      record p { workers = []; stopped = after },
      rw run,
      (refl, λ id. let a = inv id in let b = balance id in omega (arith, a, b)),
    )

pub empty_pool-Inv : Inv empty_pool
unfolding empty_pool spawned
empty_pool-Inv id = ground arith
