-- ===== src/Prelude/Float.antt =====
-- What the source computes with float64. The model does not fix the type: `FloatOps` is a parameter
-- with no law, so a theorem that needs one states it. `milli` counts thousandths, for runs.
use vuhive.Prelude.Int.{ℤ, pos, pos_part, neg_part, ltb_ℤ, leb_ℤ, eqb_ℤ, sub_ℕ}
use Prim.Native.Nat.{ℕ, ◌+◌, ◌*◌, ◌/◌}
use mathlib.Core.Bool.{Bool}

pub record FloatOps (F : Type 0) : Type 0 where
  pub of_int : ℤ → F
  pub add : F → F → F
  pub mul : F → F → F
  pub div : F → F → F
  pub lt : F → F → Bool
  pub le : F → F → Bool
  pub eq : F → F → Bool
  -- math.Ceil and math.Round, as conversions to int.
  pub ceil : F → ℤ
  pub round : F → ℤ
  -- The conversion int64(x), which drops the fraction.
  pub trunc : F → ℤ

-- The quotient of the magnitude, with the sign put back.
abbrev quot : ℤ → ℕ → ℤ
quot a d = sub_ℕ (pos_part a / d) (neg_part a / d)

abbrev ceil_milli : ℤ → ℤ
ceil_milli a = sub_ℕ ((pos_part a + 999) / 1000) (neg_part a / 1000)

abbrev round_milli : ℤ → ℤ
round_milli a = sub_ℕ ((pos_part a + 500) / 1000) ((neg_part a + 500) / 1000)

abbrev div_milli : ℤ → ℤ → ℤ
div_milli a b =
    sub_ℕ (pos_part a * 1000 / (pos_part b + neg_part b))
      (neg_part a * 1000 / (pos_part b + neg_part b))

abbrev sum_milli : ℤ → ℤ → ℤ
sum_milli a b = sub_ℕ (pos_part a + pos_part b) (neg_part a + neg_part b)

abbrev product : ℤ → ℤ → ℤ
product a b =
    sub_ℕ (pos_part a * pos_part b + neg_part a * neg_part b)
      (pos_part a * neg_part b + neg_part a * pos_part b)

abbrev pub milli : FloatOps ℤ
milli = record {
  of_int = λ n. product n (pos 1000);
  add = sum_milli;
  mul = λ a b. quot (product a b) 1000;
  div = div_milli;
  lt = ltb_ℤ;
  le = leb_ℤ;
  eq = eqb_ℤ;
  ceil = ceil_milli;
  round = round_milli;
  trunc = λ a. quot a 1000;
}
