-- ===== src/Delay.antt =====
-- internal/delay/delay.go: the delay generators. What the random generators draw is an input: a number
-- for Int64N, a float64 for ExpFloat64 and NormFloat64.
pub mod Bounds
mod Tests
use vuhive.Prelude.{
  ℕ, zero, suc, ◌+◌, ◌-◌, ◌%◌, ℤ, pos, negsuc, pos_part, Bool, true, false, ◌&&◌, is_neg, is_pos,
  ltb_ℤ, leb_ℤ, ◌+ℤ◌, ◌-ℤ◌, if◌then◌else◌, Option, none, some, Result, ok, err, String, str_eq,
  FloatOps,
}
use vuhive.Config.Model.{InteractionDelayConfig}

pub data DelayGenerator : Type 0 where
  fixed_delay : ℤ → DelayGenerator
  range_delay : ℤ → ℤ → DelayGenerator
  expo_delay : ℤ → ℤ → ℤ → DelayGenerator
  gaussian_delay : ℤ → ℤ → ℤ → ℤ → DelayGenerator

abbrev pub floor_zero : ℤ → ℤ
floor_zero d = if is_neg d then pos 0 else d

-- FixedDelay
pub new_fixed : ℤ → DelayGenerator
new_fixed d = fixed_delay (floor_zero d)

-- RangeDelay: the swap comes after the clamp.
pub new_range : ℤ → ℤ → DelayGenerator
new_range min max =
    let low = floor_zero min in if ltb_ℤ max low then range_delay max low else range_delay low max

-- ExpoDelay with its two clamps.
pub new_expo : ℤ → ℤ → ℤ → DelayGenerator
new_expo mean min max = expo_delay (floor_zero mean) min max

-- GaussianDelay with its two clamps.
pub new_gaussian : ℤ → ℤ → ℤ → ℤ → DelayGenerator
new_gaussian mean std_dev min max = gaussian_delay (floor_zero mean) (floor_zero std_dev) min max

-- NewDelayGenerator; the type is unknown: the error's word.
pub new_delay_generator : Option InteractionDelayConfig → Result String (Option DelayGenerator)
new_delay_generator none = ok none
new_delay_generator (some cfg) =
    if str_eq cfg.kind "fixed"
    then ok (some (new_fixed cfg.duration))
    else if str_eq cfg.kind "range"
    then ok (some (new_range cfg.min cfg.max))
    else if str_eq cfg.kind "expo"
    then ok (some (new_expo cfg.mean cfg.min cfg.max))
    else if str_eq cfg.kind "gaussian"
    then ok (some (new_gaussian cfg.mean cfg.std_dev cfg.min cfg.max))
    else err cfg.kind

-- The lower clamp, and then the upper clamp, each only if positive.
pub clamp : ℤ → ℤ → ℤ → ℤ
clamp min max d =
    let raised = if is_pos min && ltb_ℤ d min then min else d in
    if is_pos max && ltb_ℤ max raised then max else raised

-- rand.Int64N(n) panics unless n is positive; otherwise any number below n can come up.
abbrev int64_n : ℕ → ℤ → Option ℤ
int64_n draw (pos zero) = none
int64_n draw (pos (suc n)) = some (pos (draw % suc n))
int64_n draw (negsuc n) = none

module _ {F : Type 0} (ops : FloatOps F) where
  -- Next; a panic of the random generator is `none`.
  pub next : DelayGenerator → ℕ → F → Option ℤ
  next (fixed_delay d) draw x = some d
  next (range_delay min max) draw x =
      if leb_ℤ max min then some min else elim (int64_n draw ((max -ℤ min) +ℤ pos 1)) [
        | none ↦ none
        | some offset ↦ some (min +ℤ offset)
      ]
  next (expo_delay mean min max) draw x =
      some (clamp min max (ops.trunc (ops.mul x (ops.of_int mean))))
  next (gaussian_delay mean std_dev min max) draw x =
      let val = ops.add (ops.of_int mean) (ops.mul (ops.of_int std_dev) x) in
      some (
        clamp min max
          (ops.trunc (if ops.lt val (ops.of_int (pos 0)) then ops.of_int (pos 0) else val)))
