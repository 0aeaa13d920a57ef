-- ===== src/Examples/Priority.antt =====
-- Two orders of one pair, the later one at the better rate.
use solver.Prelude.{◌≡◌, refl, false, [], ◌∷◌, inl, inr, In, arith, nat_eq, pair_eq, eq_of_some}
use solver.Prelude.Maps.{get, insert, remove}
use solver.Order.{Order, OrderId, cmp, rate_key, is_active}
use solver.Order.Rate.{RateLe}
use solver.Levels.{
  Levels, remove_first, keep_level, remove_id, push_back, prune, drop_inactive, best, ids_of,
}
use solver.Levels.Sorted.{IsSorted, Below}
use solver.Levels.Best.{Keyed}
use solver.Book.{
  OrderBook, new, new_order, index_insert, add_user_order, best_order, is_live, uncount,
  drop_neighbor, remove_from_index, unindex, park, unpark, reindex, reactivate,
  reactivate_parked_older_than,
}
use solver.Book.Reactivate.{IsReactivated, reactivate_parked_older_than-IsReactivated}
use solver.Book.Best.{IsRate, IsOrdered, best_order-RateLe, best_order-none}
use solver.Examples.Data.{order_of, one_cent}

program : Unit {0}
unfolding reactivate_parked_older_than reactivate park unindex remove_from_index remove_id
    keep_level remove_first unpark uncount drop_neighbor reindex get insert remove cmp rate_key
    is_active push_back prune drop_inactive best ids_of new new_order index_insert add_user_order
    best_order is_live IsSorted Below
program = tt

abbrev dear : Order
dear = order_of 1 0 1 100 50

abbrev cheap : Order
cheap = order_of 3 0 1 100 40

abbrev queue_book : OrderBook
queue_book = add_user_order (add_user_order (new one_cent) 1 0 1 100 50) 3 0 1 100 40

abbrev queue_levels : Levels
queue_levels = (rate_key cheap, 3 ∷ []) ∷ (rate_key dear, 1 ∷ []) ∷ []

only : (id k : OrderId) → In id (k ∷ []) → id ≡ k
only id k (inl e) = e
only id k (inr x) = elim x [ ]

cheap-IsRate : IsRate queue_book.orders 3 (rate_key cheap)
unfolding program
cheap-IsRate = record {
  offers = omega arith;
  no_better = λ o g. let same : cheap ≡ o = eq_of_some g in rw (← same) (omega arith);
  no_worse = λ o g. let same : cheap ≡ o = eq_of_some g in rw (← same) (omega arith);
}

dear-IsRate : IsRate queue_book.orders 1 (rate_key dear)
unfolding program
dear-IsRate = record {
  offers = omega arith;
  no_better = λ o g. let same : dear ≡ o = eq_of_some g in rw (← same) (omega arith);
  no_worse = λ o g. let same : dear ≡ o = eq_of_some g in rw (← same) (omega arith);
}

queue_levels-IsSorted : IsSorted queue_levels
unfolding program
queue_levels-IsSorted = (omega arith, ((omega arith, tt), (omega arith, (tt, tt))))

queue_levels-Keyed : Keyed (IsRate queue_book.orders) queue_levels
queue_levels-Keyed = (λ i m. rw (only i 3 m) cheap-IsRate, (λ i m. rw (only i 1 m) dear-IsRate, tt))

queue_book-IsOrdered : IsOrdered queue_book (0, 1)
unfolding program
queue_book-IsOrdered ls h =
    let same : queue_levels ≡ ls = eq_of_some h in
    rw (← same) (queue_levels-IsSorted, queue_levels-Keyed)

best_order-RateLe_example : RateLe (rate_key cheap) (rate_key dear)
unfolding program
best_order-RateLe_example =
    best_order-RateLe queue_book 0 1 {o = cheap} 1 dear queue_book-IsOrdered refl (inr (inl refl))
      refl refl

-- The only order of the pair is filled, but still in the index.
abbrev filled : Order
filled = record dear { requested_remaining = 0 }

abbrev stale_book : OrderBook
stale_book = record (add_user_order (new one_cent) 1 0 1 100 50) { orders = (1, filled) ∷ [] }

best_order-none_example : is_active filled ≡ false
unfolding program
best_order-none_example = best_order-none stale_book 0 1 1 filled refl (inl refl) refl

-- The first note was parked at 100 and the second at 200; at 210 the first one has timed out.
abbrev parked_book : OrderBook
parked_book = park (park queue_book 1 7 100) 3 8 200

came_back : (reactivate_parked_older_than parked_book 50 210).1 ≡ (1, 7) ∷ []
unfolding program
came_back = refl

reactivate_parked_older_than-IsReactivated_example :
    IsReactivated 50 210 parked_book parked_book.park_queue 1
      (reactivate_parked_older_than parked_book 50 210)
reactivate_parked_older_than-IsReactivated_example =
    reactivate_parked_older_than-IsReactivated parked_book 50 210 1
