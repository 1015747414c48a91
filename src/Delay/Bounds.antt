-- ===== src/Delay/Bounds.antt =====
-- internal/delay/delay.go: the delays that a generator gives.
use vuhive.Prelude.{
  ℕ, ◌≡◌, ℤ, pos, true, false, ◌≤ℤ◌, ◌<ℤ◌, some, FloatOps, IsPositive, ◌⊎◌, if◌then◌else◌,
}
use vuhive.Config.Model.{InteractionDelayConfig}
use vuhive.Delay.{DelayGenerator, next}

-- A value, cut off at the clamps that are set.
abbrev pub IsCut : InteractionDelayConfig → ℤ → ℤ → Type 0
IsCut cfg v d =
    ((d ≡ v) × (IsPositive cfg.min → cfg.min ≤ℤ v) × (IsPositive cfg.max → v ≤ℤ cfg.max))
    ⊎ ((d ≡ cfg.min) × IsPositive cfg.min × (v <ℤ cfg.min))
    ⊎ ((d ≡ cfg.max) × IsPositive cfg.max × (cfg.max <ℤ v))

module _ {F : Type 0} (ops : FloatOps F) where
  -- The sample of a normal distribution, from one of the standard one.
  abbrev pub sample : InteractionDelayConfig → F → F
  sample cfg x = ops.add (ops.of_int cfg.mean) (ops.mul (ops.of_int cfg.std_dev) x)

  -- What a delay of a validated configuration satisfies, by its type, where x is what the random
  -- generator of floats draws.
  pub data IsDelayOf (cfg : InteractionDelayConfig) (x : F) (d : ℤ) : Type 0 where
    of_fixed : cfg.kind ≡ "fixed" → d ≡ cfg.duration → IsDelayOf cfg x d
    of_range : cfg.kind ≡ "range" → cfg.min ≤ℤ d → d ≤ℤ cfg.max → IsDelayOf cfg x d
    of_expo :
        cfg.kind ≡ "expo"
        → (IsPositive cfg.min → cfg.min ≤ℤ d)
        → (IsPositive cfg.max → d ≤ℤ cfg.max)
        → IsCut cfg (ops.trunc (ops.mul x (ops.of_int cfg.mean))) d
        → IsDelayOf cfg x d
    of_gaussian :
        cfg.kind ≡ "gaussian"
        → (IsPositive cfg.min → cfg.min ≤ℤ d)
        → (IsPositive cfg.max → d ≤ℤ cfg.max)
        → (ops.lt (sample cfg x) (ops.of_int (pos 0)) ≡ true
            → IsCut cfg (ops.trunc (ops.of_int (pos 0))) d)
        → (ops.lt (sample cfg x) (ops.of_int (pos 0)) ≡ false
            → IsCut cfg (ops.trunc (sample cfg x)) d)
        → IsDelayOf cfg x d

  -- The next delay exists and lies between the bounds.
  abbrev pub Within : DelayGenerator → ℕ → F → ℤ → ℤ → Type 0
  Within g draw x low high = (d : ℤ) × (next ops g draw x ≡ some d) × (low ≤ℤ d) × (d ≤ℤ high)

  abbrev floored : F → ℤ
  floored y = ops.trunc (if ops.lt y (ops.of_int (pos 0)) then ops.of_int (pos 0) else y)
