-- ===== src/Engine/Ramping/Counts.antt =====
-- internal/engine/ramping_vus.go: counting the ids of the workers, through the loops that spawn and stop
-- them.
use vuhive.Prelude.{
  ℕ, zero, suc, ◌+◌, ◌-◌, ◌≤◌, ◌<◌, ◌≡◌, refl, ap, List, [], ◌∷◌, ◌++◌, some, ltb, leb, ◌==◌,
  if◌then◌else◌, length, length-append, get_elem?, take, arith,
}
use vuhive.Engine.Ramping.{Pool, count, close, spawn, stop_last}

-- The ids 1 .. seq, once each.
unfoldable pub spawned : ℕ → ℕ → ℕ
spawned id seq = if ltb 0 id then (if leb id seq then 1 else 0) else 0

abbrev pub Inv : Pool → Type 0
Inv p = (id : ℕ) → count id p.workers + count id p.stopped ≡ spawned id p.vuid_seq

-- Every worker ever spawned had its channel closed once, and none is left.
abbrev pub AllStopped : Pool → Type 0
AllStopped p = (p.workers ≡ []) × ((id : ℕ) → count id p.stopped ≡ spawned id p.vuid_seq)

count-append : (id : ℕ) (xs ys : List ℕ) → count id (xs ++ ys) ≡ count id xs + count id ys
count-append id [] ys = omega arith
count-append id (x ∷ xs) ys = omega (arith, count-append id xs ys)

count-take-suc :
    (id : ℕ) (xs : List ℕ) (i : ℕ) {x : ℕ}
    → get_elem? xs i ≡ some x
    → count id (take (suc i) xs) ≡ count id (take i xs) + (if id == x then 1 else 0)
count-take-suc id [] i h = cc
count-take-suc id (y ∷ xs) zero h = ground arith
count-take-suc id (y ∷ xs) (suc i) h = let rec = count-take-suc id xs i h in omega (arith, rec)

get_elem?_lt : (xs : List ℕ) (i : ℕ) → i < length xs → (x : ℕ) × (get_elem? xs i ≡ some x)
get_elem?_lt [] i h = absurd (ground arith)
get_elem?_lt (x ∷ xs) zero h = (x, refl)
get_elem?_lt (x ∷ xs) (suc i) h = get_elem?_lt xs i (ground arith)

pub take-length : (xs : List ℕ) → take (length xs) xs ≡ xs
take-length [] = refl
take-length (x ∷ xs) = ap (λ ys. x ∷ ys) (take-length xs)

pub length-take : (n : ℕ) (xs : List ℕ) → n ≤ length xs → length (take n xs) ≡ n
length-take zero xs h = refl
length-take (suc n) [] h = absurd (ground arith)
length-take (suc n) (x ∷ xs) h = ap suc (length-take n xs (ground arith))

spawned-suc :
    (id seq : ℕ) → spawned id (suc seq) ≡ spawned id seq + (if id == suc seq then 1 else 0)
unfolding spawned
spawned-suc id seq = ground arith

pub spawned≤1 : (id seq : ℕ) → spawned id seq ≤ 1
unfolding spawned
spawned≤1 id seq = ground arith

pub spawn-Inv : (n : ℕ) (p : Pool) → Inv p → Inv (spawn n p)
unfolding spawn
spawn-Inv zero p h = h
spawn-Inv (suc n) p h =
    spawn-Inv n
      (record p { workers = p.workers ++ (suc p.vuid_seq ∷ []); vuid_seq = suc p.vuid_seq })
      (λ id.
        omega
          (arith, h id, count-append id p.workers (suc p.vuid_seq ∷ []), spawned-suc id p.vuid_seq))

pub length-spawn : (n : ℕ) (p : Pool) → length (spawn n p).workers ≡ length p.workers + n
unfolding spawn
length-spawn zero p = omega arith
length-spawn (suc n) p =
    let grown = length-append p.workers (suc p.vuid_seq ∷ []) in
    let rest =
      length-spawn n
        (record p { workers = p.workers ++ (suc p.vuid_seq ∷ []); vuid_seq = suc p.vuid_seq }) in
    omega (arith, grown, rest)

pub close_lem :
    (stopped : List ℕ) (id : ℕ) → count id stopped ≡ 0 → close stopped id ≡ some (id ∷ stopped)
unfolding close
close_lem stopped id h = rw h

minus_zero : (k : ℕ) → k - 0 ≡ k
minus_zero k = omega arith

minus_suc : (i n : ℕ) → suc i - suc n ≡ i - n
minus_suc i n = omega arith

-- The loop that stops the last n of the first k workers.
stop_last_lem :
    (workers : List ℕ) (n k : ℕ) (stopped : List ℕ)
    → n ≤ k
    → k ≤ length workers
    → ((id : ℕ) → count id (take k workers) + count id stopped ≤ 1)
    → (after : List ℕ) × (stop_last workers n k stopped ≡ some after)
      × ((id : ℕ)
          → count id after + count id (take (k - n) workers)
            ≡ count id stopped + count id (take k workers))
unfolding stop_last
stop_last_lem workers zero k stopped h1 h2 once = (stopped, refl, λ id. rw (minus_zero k))
stop_last_lem workers (suc n) zero stopped h1 h2 once = absurd (ground arith)
stop_last_lem workers (suc n) (suc i) stopped h1 h2 once =
    let (x, found) = get_elem?_lt workers i (ground arith) in
    let split : (id : ℕ)
        → count id (take (suc i) workers) ≡ count id (take i workers) + (if id == x then 1 else 0) =
      λ id. count-take-suc id workers i found in
    let fresh : count x stopped ≡ 0 = let a = split x in let b = once x in ground arith in
    let (after, run, balance) =
      stop_last_lem workers n i (x ∷ stopped) (ground arith) (ground arith)
        (λ id. let a = split id in let b = once id in ground arith) in
    (
      after,
      rw (found, close_lem stopped x fresh, run),
      λ id. rw (minus_suc i n) (let a = split id in let b = balance id in omega (arith, a, b)),
    )

pub stop_last-Pool :
    (p : Pool) (want : ℕ)
    → want ≤ length p.workers
    → Inv p
    → (after : List ℕ) × (stop_last p.workers (length p.workers - want) (length p.workers) p.stopped
        ≡ some after)
      × ((id : ℕ) → count id (take want p.workers) + count id after ≡ spawned id p.vuid_seq)
stop_last-Pool p want h inv =
    let all = take-length p.workers in
    let (after, run, balance) =
      stop_last_lem p.workers (length p.workers - want) (length p.workers) p.stopped (omega arith)
        (omega arith)
        (λ id. rw all (let a = inv id in let b = spawned≤1 id p.vuid_seq in omega (arith, a, b))) in
    (
      after,
      run,
      λ id.
          let a = inv id in
          let kept : length p.workers - (length p.workers - want) ≡ want = omega arith in
          let b = balance id in
          let c = ap (λ n. count id (take n p.workers)) kept in
          let d = ap (count id) all in omega (arith, a, b, c, d),
    )
