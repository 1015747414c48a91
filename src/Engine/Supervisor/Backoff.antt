-- ===== src/Engine/Supervisor/Backoff.antt =====
-- internal/engine/supervisor.go: the bounds of the waits between attempts, overflow included.
use vuhive.Prelude.{
  ℕ, zero, suc, ◌+◌, ◌-◌, ◌*◌, ◌%◌, ◌≤◌, ◌<◌, ◌≡◌, refl, pos, arith, inl, inr, leb, Bool-cases,
  subst,
}
use vuhive.Engine.Supervisor.{one_shl, backoff, sleep_duration}

one_shl_pos : (n : ℕ) → 1 ≤ one_shl n
unfolding one_shl
one_shl_pos zero = omega arith
one_shl_pos (suc n) = omega (arith, one_shl_pos n)

one_shl_add : (n : ℕ) → one_shl (n + 23) ≡ 8388608 * one_shl n
unfolding one_shl
one_shl_add zero = refl
one_shl_add (suc n) =
    let shift : suc n + 23 ≡ suc (n + 23) = omega arith in rw (shift, one_shl_add n) (omega arith)

one_shl_mono : (m n : ℕ) → m ≤ n → one_shl m ≤ one_shl n
unfolding one_shl
one_shl_mono zero n h = one_shl_pos n
one_shl_mono (suc m) zero h = absurd (omega arith)
one_shl_mono (suc m) (suc n) h = let rec = one_shl_mono m n (omega arith) in omega (arith, rec)

one_shl_22 : one_shl 22 ≡ 4194304
unfolding one_shl
one_shl_22 = refl

one_shl_7 : one_shl 7 ≡ 128
unfolding one_shl
one_shl_7 = refl

one_shl_6 : one_shl 6 ≡ 64
unfolding one_shl
one_shl_6 = refl

small_lem : (attempt : ℕ) → attempt ≤ 6 → backoff attempt ≡ pos (10_000_000 * one_shl attempt)
unfolding backoff
small_lem attempt h =
    let low = one_shl_pos attempt in
    let high = one_shl_mono attempt 6 h in let top = one_shl_6 in ground arith

middle_lem : (attempt : ℕ) → 7 ≤ attempt → attempt ≤ 22 → backoff attempt ≡ pos 1_000_000_000
unfolding backoff
middle_lem attempt h k =
    let low = one_shl_mono 7 attempt h in
    let high = one_shl_mono attempt 22 k in
    let bottom = one_shl_7 in let top = one_shl_22 in ground arith

capped :
    (x : ℕ)
    → (0 < (10_000_000 * (8388608 * x)) % 18446744073709551616)
    → 1_000_000_000 < (10_000_000 * (8388608 * x)) % 18446744073709551616
capped x h = omega arith

large_lem : (n : ℕ) → backoff (n + 23) ≡ pos 1_000_000_000
unfolding backoff
large_lem n = rw (one_shl_add n) (let cap = capped (one_shl n) in ground arith)

split_23 : (attempt : ℕ) → 23 ≤ attempt → (attempt - 23) + 23 ≡ attempt
split_23 attempt h = omega arith

large : (attempt : ℕ) → 23 ≤ attempt → backoff attempt ≡ pos 1_000_000_000
large attempt h =
    subst (λ n. backoff n ≡ pos 1_000_000_000) (split_23 attempt h) (large_lem (attempt - 23))

-- For every attempt, however large: the backoff is 10 milliseconds doubled once for each attempt before
-- it up to attempt 6, and exactly one second from attempt 7 on. The overflows of the shift and of the
-- product in 64 bits change nothing.
pub backoff_exact :
    (attempt : ℕ)
    → (attempt ≤ 6 → backoff attempt ≡ pos (10_000_000 * one_shl attempt))
      × (7 ≤ attempt → backoff attempt ≡ pos 1_000_000_000)
backoff_exact attempt = (
  small_lem attempt,
  λ h. elim (Bool-cases (leb attempt 22)) [
    | inl low ↦ middle_lem attempt h (ground arith)
    | inr high ↦ large attempt (ground arith)
  ],
)

-- For every attempt and every draw of the random generator: the wait before the next attempt lasts at
-- least 10 milliseconds and at most a second and a half.
sleep_duration_bounds :
    (attempt draw : ℕ)
    → (10_000_000 ≤ sleep_duration attempt draw) × (sleep_duration attempt draw ≤ 1_500_000_000)
unfolding sleep_duration
sleep_duration_bounds attempt draw =
    let (small, rest) = backoff_exact attempt in
    let low = one_shl_pos attempt in
    let top = one_shl_6 in
    elim (Bool-cases (leb attempt 6)) [
      | inl few ↦
          let high = one_shl_mono attempt 6 (ground arith) in
          rw (small (ground arith)) (ground arith)
      | inr many ↦ rw (rest (ground arith)) (ground arith)
    ]
