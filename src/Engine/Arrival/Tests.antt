-- ===== src/Engine/Arrival/Tests.antt =====
-- internal/engine/arrival_rate.go: two of three tokens find room in a channel of one.
use vuhive.Prelude.{◌≡◌, refl, false, List, [], ◌∷◌, none, some, milli, String}
use vuhive.Config.Scenario.Tests.{steady}
use vuhive.Engine.Arrival.{
  Command, dispatch, close_tokens, drain_workers, Waits, steady_loop, dispatch_all,
  run_arrival_rate, Channel, initial, dispatch_token, obey, Reach, start, next, command, receive,
}
use vuhive.Engine.Arrival.Tokens.{IsAccounted, dispatches, run_arrival_rate-IsAccounted}

abbrev waits : Waits String
waits = record { quorum = none; cut_before_midpoint = false; cut_before_end = false; permits = 3 }

abbrev plan : List Command
plan = (run_arrival_rate milli steady waits).0

-- The second token finds the channel full; a worker frees it for the third.
abbrev after : Channel
after = record {
  commands = close_tokens ∷ drain_workers ∷ [];
  token_ch = 2 ∷ [];
  closed = false;
  cancelled = false;
  iter_seq = 3;
  dropped = 1;
  received = (7, 0) ∷ [];
}

three_tokens : Reach 1 (initial plan) after
unfolding initial obey dispatch_token run_arrival_rate dispatch_all steady_loop
three_tokens =
    next
      (next
        (next (next start (command _ _ dispatch _ refl refl)) (command _ _ dispatch _ refl refl))
        (receive _ 7 0 [] refl))
      (command _ _ dispatch _ refl refl)

run_arrival_rate-IsAccounted_example :
    IsAccounted 1 (dispatches plan) after
    × ((c : Command) (rest : List Command)
        → after.commands ≡ c ∷ rest
        → (t : Channel) × (obey 1 c (record after { commands = rest }) ≡ some t))
run_arrival_rate-IsAccounted_example =
    run_arrival_rate-IsAccounted milli steady waits 1 three_tokens
