-- ===== src/SwapEta/Crossing.antt =====
-- `eval_can_fill` against the matcher's own test.
use solver.Prelude.{◌≤◌, ◌≡◌, true, some, arith}
use solver.Order.{Order, IsValid, rate_key, is_profitable_with}
use solver.Order.Rate.{RateLe, is_profitable_with-RateLe}
use solver.Book.Views.{BestLevel}
use solver.SwapEta.{eval_can_fill}

-- A valid order that can fill against a level at the rate of a valid order `c` is profitable for the
-- matcher with every valid order priced at least as well as `c`, and the level holds what it asks for.
pub eval_can_fill-is_profitable_with :
    (a b c : Order) (best : BestLevel)
    → IsValid a
    → IsValid b
    → IsValid c
    → best.rate ≡ rate_key c
    → RateLe (rate_key b) (rate_key c)
    → eval_can_fill a.offered a.requested (some best) ≡ true
    → (is_profitable_with a b ≡ true) × (a.requested ≤ best.volume)
unfolding eval_can_fill is_profitable_with rate_key
eval_can_fill-is_profitable_with a b c best va vb vc level better can =
    let profit : is_profitable_with a c ≡ true = ground arith in
    (is_profitable_with-RateLe a b c va vb vc better profit, ground arith)
