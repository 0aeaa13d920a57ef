-- ===== src/Examples/Routing.antt =====
-- Notes and quotes of one pair.
use solver.Prelude.{
  arith, ℕ, ◌≤◌, ◌≡◌, refl, List, [], ◌∷◌, All, nat_eq, some, none, ◌⊎◌, In, pair_eq, inl, inr,
}
use solver.Prelude.Maps.{get, insert, remove, keys}
use solver.Order.{Order, rate_key, cmp, is_active, DexId}
use solver.Levels.{push_back, remove_first, keep_level, remove_id, ids_of}
use solver.Book.{
  OrderBook, new, new_order, index_insert, add_user_order, uncount, drop_neighbor,
  remove_from_index, unindex, park, unpark, reindex,
}
use solver.Book.Views.{fetch, notes_for_pair}
use solver.Select.{
  select_from, select_notes, Quote, Pick, crosses, slots_of, is_unusable, choose, deduct, dex_at,
  pick_of, assign, assign_all, match_pair,
}
use solver.Select.Capacity.{taken, supplied, match_pair-capacity}
use solver.Select.Willing.{IsWilling, match_pair-IsWilling}
use solver.Matcher.{
  QuotesSnapshot, sent, is_whole, candidates, hand_over, route_external, unpark_all, deliver_routed,
  external_pass,
}
use solver.Matcher.Rollback.{batched, external_pass-parked}
use solver.Router.{
  RouterState, new_router, no_less_generous, insert_quote, sort_quotes, group_quotes, group_all,
  sort_values, republish, quote_ttl, quote_of, register_quote, send_frames, use_quotes, deliver,
}
use solver.Router.Complete.{assign-picks}
use solver.Router.Published.{started, registered, delivered, IsPublished, Reachable-IsPublished}
use solver.Examples.Data.{one_cent, order_of}

program : Unit {0}
unfolding new_router no_less_generous insert_quote sort_quotes group_quotes group_all sort_values
    republish quote_ttl quote_of register_quote send_frames use_quotes deliver get insert remove
    keys rate_key cmp is_active push_back remove_first keep_level remove_id ids_of new new_order
    index_insert add_user_order uncount drop_neighbor remove_from_index unindex park unpark reindex
    fetch notes_for_pair select_from select_notes is_whole candidates hand_over route_external
    unpark_all deliver_routed external_pass crosses slots_of is_unusable choose deduct dex_at
    pick_of assign assign_all match_pair
program = tt

abbrev notes : List Order
notes = order_of 1 0 1 100 40 ∷ order_of 2 0 1 100 30 ∷ order_of 3 0 1 100 40 ∷ []

-- Two quotes of DEX 7, of which the second has expired, and one of DEX 8.
abbrev quotes : List Quote
quotes =
    record { dex = 8; pair = (0, 1); supply = 60; demand = 100; expires_at = 20 }
    ∷ record { dex = 7; pair = (0, 1); supply = 50; demand = 90; expires_at = 20 }
    ∷ record { dex = 7; pair = (0, 1); supply = 500; demand = 900; expires_at = 9 }
    ∷ []

chosen_dexes : List ℕ → List Pick → List ℕ
chosen_dexes ds [] = ds
chosen_dexes ds (p ∷ ps) = p.dex ∷ chosen_dexes ds ps

-- The first note goes to DEX 7, the second to DEX 8, and no quote has 40 left for the third.
run_of_three : chosen_dexes [] (match_pair (0, 1) notes quotes 10).picks ≡ 7 ∷ 8 ∷ []
unfolding program chosen_dexes
run_of_three = refl

match_pair-capacity_example : taken 7 (match_pair (0, 1) notes quotes 10).picks ≤ supplied 7 quotes
match_pair-capacity_example = match_pair-capacity 7 (0, 1) notes quotes 10

match_pair-IsWilling_example :
    All (IsWilling (0, 1) notes quotes 10) (match_pair (0, 1) notes quotes 10).picks
match_pair-IsWilling_example = match_pair-IsWilling (0, 1) notes quotes 10

-- A book of one order, whose note a DEX takes whole.
abbrev note_book : OrderBook
note_book = add_user_order (new one_cent) 1 0 1 100 40

abbrev note_quotes : QuotesSnapshot
note_quotes =
    ((0, 1), record { dex = 8; pair = (0, 1); supply = 60; demand = 100; expires_at = 20 } ∷ [])
    ∷ []

external_pass-parked_example :
    In 1 (batched (external_pass note_book ((1, 9 ∷ []) ∷ []) note_quotes sent 10).1)
    ⊎ (get 1 note_book.parked ≡ some (8, 10))
unfolding program
external_pass-parked_example =
    external_pass-parked note_book ((1, 9 ∷ []) ∷ []) note_quotes sent 10 1 {v = (8, 10)} refl

-- Two DEXes quote one pair, the second more generously.
abbrev quoted : RouterState
quoted =
    deliver
      (register_quote (register_quote (new_router 100) 7 (1, 50) (0, 90) (some 30) 10).0 8 (1, 60)
        (0, 90) none 11).0
      []

published_first :
    quoted.published
    ≡ (
      (0, 1),
      record { dex = 8; pair = (0, 1); supply = 60; demand = 90; expires_at = 111 }
          ∷ record { dex = 7; pair = (0, 1); supply = 50; demand = 90; expires_at = 40 }
          ∷ [],
    )
      ∷ []
unfolding program
published_first = refl

Reachable-IsPublished_example :
    (quoted.published ≡ sort_values (group_all quoted.quotes [])) × IsPublished quoted.published
Reachable-IsPublished_example = Reachable-IsPublished (
    delivered [] (
      registered 8 (1, 60) (0, 90) none 11
        (registered 7 (1, 50) (0, 90) (some 30) 10 (started 100))))

abbrev second_quote : Quote
second_quote = record { dex = 7; pair = (0, 1); supply = 50; demand = 90; expires_at = 20 }

assign-picks_example :
    (dex : DexId) × ((assign (0, 1) 10 (order_of 1 0 1 100 40) (slots_of quotes)).1
      ≡ pick_of (0, 1) (order_of 1 0 1 100 40) dex ∷ [])
unfolding program
assign-picks_example =
    assign-picks (0, 1) 10 (order_of 1 0 1 100 40) (slots_of quotes) (second_quote, 50)
      ((omega arith, (omega arith, tt)), ((omega arith, tt), (tt, tt))) (inr (inl refl))
      (record { usable = refl; accepts = refl; room = omega arith })
