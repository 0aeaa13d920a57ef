-- ===== src/Examples/Orders.antt =====
-- The arithmetic of orders at concrete amounts.
use solver.Prelude.{◌+◌, ◌≤◌, ◌≡◌, refl, ◌↔◌, [], ◌∷◌, true, arith, nat_eq}
use solver.Order.{
  Order, IsValid, calculate_output_amount, offered_for, offered_remaining, is_active, fill,
  min_fill_for_release, rate_key, is_profitable_with, match_with,
}
use solver.Order.Rate.{is_profitable_with-RateLe}
use solver.Order.Fill.{fills, fills-release}
use solver.Order.Release.{min_fill_for_release_iff}
use solver.Order.Match.{IsConserved, match_with-IsConserved}
use solver.Levels.{push_back, remove_id}
use solver.Levels.Sorted.{IsSorted, start, pushed, removed, Reachable-IsSorted}
use solver.Examples.Data.{order_of, sell, buy, sell-IsValid, buy-IsValid}

program : Unit {0}
unfolding calculate_output_amount offered_for offered_remaining is_active fill min_fill_for_release
    rate_key is_profitable_with match_with
program = tt

-- 3 for 7: a fill of 4 of the 7 releases 1, and one of 5 releases 2.
abbrev thirds : Order
thirds = order_of 5 0 1 3 7

thirds-IsValid : IsValid thirds
thirds-IsValid = ground arith

thirds_fill : min_fill_for_release thirds 2 ≡ 5
unfolding program
thirds_fill = refl

min_fill_for_release_iff_example : (min_fill_for_release thirds 2 ≤ 6) ↔ (2 ≤ offered_for thirds 6)
min_fill_for_release_iff_example =
    min_fill_for_release_iff thirds 2 6 thirds-IsValid (omega arith) (omega arith)

fills-release_example :
    (offered_for thirds ((fills thirds (3 ∷ 3 ∷ [])).0.requested_remaining)
        + (fills thirds (3 ∷ 3 ∷ [])).1
      ≤ offered_remaining thirds)
    × ((fills thirds (3 ∷ 3 ∷ [])).0.requested_remaining ≤ 7)
fills-release_example = fills-release thirds (3 ∷ 3 ∷ []) thirds-IsValid

match_with-IsConserved_example :
    IsConserved sell buy
      (record sell { requested_remaining = 0 })
      (record buy { requested_remaining = 0 })
      (record { surplus_offered = 10; surplus_requested = 10 })
unfolding program
match_with-IsConserved_example =
    match_with-IsConserved sell buy {r = record { surplus_offered = 10; surplus_requested = 10 }}
      refl

is_profitable_with-RateLe_example : is_profitable_with sell buy ≡ true
unfolding program
is_profitable_with-RateLe_example =
    is_profitable_with-RateLe sell buy (order_of 6 1 0 60 100) sell-IsValid buy-IsValid
      (ground arith) (omega arith) refl

Reachable-IsSorted_example : IsSorted (
    remove_id
      (rate_key thirds)
      5
      (push_back (rate_key thirds) 5 (push_back (rate_key buy) 2 (push_back (rate_key sell) 1 []))))
unfolding program
Reachable-IsSorted_example = Reachable-IsSorted (
    removed (rate_key thirds) 5 (
      pushed (rate_key thirds) 5 (omega arith)
        (pushed (rate_key buy) 2 (omega arith) (pushed (rate_key sell) 1 (omega arith) start))))
