-- ===== src/Examples/Requests.antt =====
-- Settlement samples, an order of the swap-eta endpoint, configured pairs, status texts and a
-- counter-order.
use solver.Prelude.{
  ◌-◌, ◌*◌, ◌<◌, ◌≤◌, ◌≡◌, refl, List, [], ◌∷◌, some, true, arith, length, In, nat_eq,
}
use solver.Order.{rate_key, is_profitable_with}
use solver.SwapEta.{Sample, window_secs, max_samples_per_pair, record_queue, eval_can_fill}
use solver.SwapEta.Window.{Within, record_queue-Within}
use solver.SwapEta.Crossing.{eval_can_fill-is_profitable_with}
use solver.Mirror.{mul_div, counter_of, favorable_counter, favorable_counter-clears}
use solver.Examples.Data.{order_of, sell, buy, sell-IsValid, buy-IsValid}

program : Unit {0}
unfolding rate_key is_profitable_with eval_can_fill mul_div counter_of favorable_counter
program = tt

abbrev samples : List Sample
samples =
    record { at_unix = 1000; duration_secs = 30 }
    ∷ record { at_unix = 90000; duration_secs = 60 }
    ∷ []

record_queue-Within_example :
    Within (100000 - window_secs) 100000 (record_queue samples 100000 45)
    × (length (record_queue samples 100000 45) ≤ max_samples_per_pair)
    × In (record { at_unix = 100000; duration_secs = 45 }) (record_queue samples 100000 45)
record_queue-Within_example =
    record_queue-Within samples 1000 90000 100000 45 (omega arith) (omega arith)
      (omega arith, omega arith, (omega arith, omega arith, tt))

eval_can_fill-is_profitable_with_example : (is_profitable_with sell buy ≡ true) × (50 ≤ 70)
unfolding program
eval_can_fill-is_profitable_with_example =
    eval_can_fill-is_profitable_with sell buy (order_of 6 1 0 60 100)
      (record { rate = record { requested = 100; offered = 60 }; volume = 70 }) sell-IsValid
      buy-IsValid (ground arith) refl (omega arith) refl

favorable_counter-clears_example : 200 * 990 < 1000 * 200
unfolding program
favorable_counter-clears_example =
    favorable_counter-clears 1000 200 100 1 1 {counter_offered = 200} {counter_requested = 990}
      (omega arith) (omega arith) (omega arith) (omega arith) refl refl

-- Where the fraction of the request is not whole, the counter-order may fall short of the gate.
rounded_counter : favorable_counter 1000 2 100 3 4 ≡ some (1, 742)
unfolding program
rounded_counter = refl
