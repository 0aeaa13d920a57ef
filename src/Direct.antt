-- ===== src/Direct.antt =====
-- crates/solver/src/matching/direct_matching.rs: pairwise matching. A hash set is visited in an
-- order that the source leaves open: `arrange` stands for that of the collected pairs. The `loop`
-- takes fuel, and `none` means that it ran out.
pub mod Progress
pub mod Solvency
use solver.Prelude.{
  ℕ, zero, suc, ◌+◌, Bool, ◌&&◌, ◌||◌, not, Option, none, some, List, [], ◌∷◌, leb, nat_eq, pair_eq,
  if◌then◌else◌, add, is_some, as_u64,
}
use solver.Order.{OrderId, TokenId}
use solver.Book.{OrderBook, Pair, best_order, apply_match}
use solver.Book.Views.{has_orders}

-- The inner loop over `token_b`, and the outer one over `token_a`.
unfoldable pub collect_with : OrderBook → TokenId → List TokenId → List Pair → List Pair
collect_with b token_a [] pairs = pairs
collect_with b token_a (token_b ∷ tokens) pairs =
    let matchable = has_orders b token_a token_b && has_orders b token_b token_a in
    collect_with b token_a tokens (
      if leb token_b token_a
      then pairs
      else if matchable
      then add (token_a, token_b) pairs
      else pairs)

unfoldable pub collect_from : OrderBook → List TokenId → List Pair → List Pair
collect_from b [] pairs = pairs
collect_from b (token_a ∷ tokens) pairs =
    collect_from b tokens (collect_with b token_a b.tokens pairs)

unfoldable pub collect_matchable_pairs : OrderBook → List Pair
collect_matchable_pairs b = collect_from b b.tokens []

-- One round of the loop of `match_user_orders`: it breaks, or two orders were matched.
pub data Round : Type 0 where
  stop : OrderBook → Round
  matched : OrderBook → OrderId → OrderId → Round

unfoldable pub match_pair : OrderBook → OrderId → OrderId → Round
match_pair b order_a_id order_b_id =
    let (b', result) = apply_match b order_a_id order_b_id in
    if is_some result then matched b' order_a_id order_b_id else stop b'

unfoldable pub match_round : OrderBook → TokenId → TokenId → Round
match_round b token_a token_b =
    let (b1, best_a) = best_order b token_a token_b in
    elim best_a [
      | none ↦ stop b1
      | some order_a ↦
          let (b2, best_b) = best_order b1 token_b token_a in
          elim best_b [
            | none ↦ stop b2
            | some order_b ↦
                if not (is_some (b2.feed token_a)) || not (is_some (b2.feed token_b))
                then stop b2
                else match_pair b2 order_a.id order_b.id
          ]
    ]

-- The book, the filled orders and the number of cycles.
abbrev pub Matched : Type 0
Matched = OrderBook × List OrderId × ℕ

unfoldable pub match_user_orders : ℕ → Matched → TokenId → TokenId → Option Matched
match_user_orders zero m token_a token_b = none
match_user_orders (suc fuel) (b, filled, cycles) token_a token_b =
    elim (match_round b token_a token_b) [
      | stop b' ↦ some (b', filled, cycles)
      | matched b' order_a_id order_b_id ↦
          match_user_orders fuel (b', add order_b_id (add order_a_id filled), as_u64 (cycles + 1))
            token_a token_b
    ]

unfoldable pub match_pairs : ℕ → Matched → List Pair → Option Matched
match_pairs fuel m [] = some m
match_pairs fuel m (pair ∷ pairs) =
    let after_pair : Option Matched = match_user_orders fuel m pair.0 pair.1 in
    elim after_pair [ none ↦ none | some m' ↦ match_pairs fuel m' pairs ]

unfoldable pub run_direct_matching : (List Pair → List Pair) → ℕ → Matched → Option Matched
run_direct_matching arrange fuel m = match_pairs fuel m (arrange (collect_matchable_pairs m.0))
