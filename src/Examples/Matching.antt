-- ===== src/Examples/Matching.antt =====
-- Pairwise matching on a book of two orders.
use solver.Prelude.{
  ◌≡◌, refl, ◌≤◌, ◌⊎◌, inl, inr, Bool-cases, eq_of_some, sym, [], ◌∷◌, some, arith, In, nat_eq,
  pair_eq, ◌==◌,
}
use solver.Prelude.Maps.{get, insert, remove, total}
use solver.Order.{
  Order, OrderId, calculate_output_amount, cmp, rate_key, is_active, is_completely_filled,
  offered_for, offered_remaining, requested_filled, fill, is_profitable_with, match_with,
}
use solver.Levels.{
  push_back, remove_first, keep_level, remove_id, drop_inactive, prune, best, ids_of,
}
use solver.Book.{
  Pair, new, index_insert, new_order, add_user_order, drop_neighbor, remove_from_index, uncount,
  unindex, cleanup_if_filled, is_live, best_order, add_protocol_balance, settle_match, match_found,
  apply_match,
}
use solver.Book.Views.{has_orders}
use solver.Book.Frame.{to_fill}
use solver.Book.Intake.{add_user_order-IsSound}
use solver.Book.Sound.{IsSound}
use solver.Book.Solvency.{IsSolvent, weigh-zero}
use solver.Book.Evolution.{indexed}
use solver.Book.Matching.{IsFound, best_order-IsFound}
use solver.Direct.{
  Matched, collect_with, collect_from, collect_matchable_pairs, match_pair, match_round,
  match_user_orders, match_pairs, run_direct_matching,
}
use solver.Direct.Progress.{run_direct_matching_total}
use solver.Direct.Solvency.{run_direct_matching-IsSolvent}
use solver.Examples.Data.{sell, buy, two_book, one_cent, sell-IsValid, buy-IsValid}

program : Unit {0}
unfolding get insert remove calculate_output_amount cmp rate_key is_active is_completely_filled
    offered_for offered_remaining requested_filled fill is_profitable_with match_with push_back
    remove_first keep_level remove_id drop_inactive prune best ids_of new index_insert new_order
    add_user_order drop_neighbor remove_from_index uncount unindex cleanup_if_filled is_live
    best_order add_protocol_balance settle_match match_found apply_match has_orders collect_with
    collect_from collect_matchable_pairs match_pair match_round match_user_orders match_pairs
    run_direct_matching total
program = tt

abbrev start : Matched
start = (two_book, [], 0)

built : add_user_order (add_user_order (new one_cent) 1 0 1 100 50) 2 1 0 60 90 ≡ two_book
unfolding program
built = refl

stored :
    (id : OrderId) {o : Order}
    → get id two_book.orders ≡ some o
    → ((id ≡ 1) × (o ≡ sell)) ⊎ ((id ≡ 2) × (o ≡ buy))
unfolding get
stored id h = elim (Bool-cases (id == 1)) [
  | inl e ↦ inl (ground arith, sym (eq_of_some (rw (e, get) at h)))
  | inr e ↦ elim (Bool-cases (id == 2)) [
    | inl e' ↦ inr (ground arith, sym (eq_of_some (rw (e, e', get) at h)))
    | inr e' ↦ absurd (cc (rw (e, e', get) at h))
  ]
]

listed :
    (p : Pair) (id : OrderId)
    → In id (indexed two_book.pair_index p)
    → ((p ≡ (0, 1)) × (id ≡ 1)) ⊎ ((p ≡ (1, 0)) × (id ≡ 2))
unfolding program
listed p id m = elim (Bool-cases (p == (0, 1))) [
  | inl e ↦ inl ((pair_eq.same_iff p (0, 1)).0 e, only id 1 (rw (e, get) at m))
  | inr e ↦ elim (Bool-cases (p == (1, 0))) [
    | inl e' ↦ inr ((pair_eq.same_iff p (1, 0)).0 e', only id 2 (rw (e, e', get) at m))
    | inr e' ↦ absurd (rw (e, e', get) at m)
  ]
]
  where
    only : (id k : OrderId) → In id (k ∷ []) → id ≡ k
    only id k (inl e) = e
    only id k (inr x) = elim x [ ]

two_book-IsSound : IsSound two_book
two_book-IsSound = record {
  valid =
      λ id o h. elim (stored id h) [ inl e ↦ rw (e.1) sell-IsValid | inr e ↦ rw (e.1) buy-IsValid ];
  own_id = λ id o h. elim (stored id h) [ inl e ↦ ground arith | inr e ↦ ground arith ];
  at_pair = λ p id o m h. elim (stored id h) [
    | inl e ↦ elim (listed p id m) [ inl l ↦ ground arith | inr l ↦ ground arith ]
    | inr e ↦ elim (listed p id m) [ inl l ↦ ground arith | inr l ↦ ground arith ]
  ];
}

two_book-IsSolvent : IsSolvent two_book
unfolding program
two_book-IsSolvent t = omega (arith, weigh-zero t 0, weigh-zero t 1)

three_unseen : (p : Pair) → ¬ In 3 (indexed two_book.pair_index p)
three_unseen p m = elim (listed p 3 m) [ inl l ↦ omega (arith, l.1) | inr l ↦ omega (arith, l.1) ]

-- The seller takes 50 of token 1 and the buyer 75 of token 0; 25 of token 0 are left over.
run_direct_matching-IsSolvent_example :
    (m' : Matched) × (run_direct_matching (λ ps. ps) 141 start ≡ some m')
    × IsSound m'.0
    × IsSolvent m'.0
unfolding program
run_direct_matching-IsSolvent_example =
    run_direct_matching-IsSolvent (λ ps. ps) 141 start (omega arith) two_book-IsSound
      two_book-IsSolvent

run_direct_matching_total_example :
    (m' : Matched) × (run_direct_matching (λ ps. ps) 141 start ≡ some m') × (to_fill m'.0 ≤ 140)
unfolding program
run_direct_matching_total_example = run_direct_matching_total (λ ps. ps) 141 start (omega arith)

best_order-IsFound_example : IsFound two_book (1, 0) buy
unfolding program
best_order-IsFound_example = best_order-IsFound two_book 1 0 {o = buy} refl

add_user_order-IsSound_example :
    IsSound (add_user_order two_book 3 0 1 100 40)
    × IsSolvent (add_user_order two_book 3 0 1 100 40)
unfolding get
add_user_order-IsSound_example =
    add_user_order-IsSound two_book 3 0 1 100 40 (omega arith) (omega arith) (omega arith)
      (omega arith) refl three_unseen two_book-IsSound two_book-IsSolvent
