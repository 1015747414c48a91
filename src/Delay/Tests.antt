-- ===== src/Delay/Tests.antt =====
-- internal/delay/delay.go: generators at concrete bounds.
use vuhive.Prelude.{pos, negsuc, ◌≡◌, refl, some, ◌+ℤ◌, ◌-ℤ◌, milli}
use vuhive.Config.Model.{ThinkTimeConfig}
use vuhive.Delay.{new_range, next}

-- RangeDelay(-5, -3): the clamp of min comes first, so the delays are negative.
negative_delay : next milli (new_range (negsuc 4) (negsuc 2)) 0 (pos 0) ≡ some (negsuc 2)
unfolding next new_range ◌+ℤ◌ ◌-ℤ◌
negative_delay = refl

abbrev between : ThinkTimeConfig
between = record {
  kind = "range";
  duration = pos 0;
  min = pos 100;
  max = pos 500;
  mean = pos 0;
  std_dev = pos 0;
}
