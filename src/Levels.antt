-- ===== src/Levels.antt =====
-- crates/solver/src/matching/order_book.rs: one entry of `pair_index`, the price levels of a
-- directed pair. The source's `BTreeMap<RateKey, VecDeque<OrderId>>` is the list of its entries in
-- ascending key order; `entry`, `get_mut` and `remove` find a key by `RateKey::cmp`.
pub mod Sorted
pub mod Ids
pub mod Best
use Prim.Native.Nat.{Ordering}
use solver.Prelude.{
  Bool, Option, none, some, List, [], ◌∷◌, ◌++◌, ◌==◌, nat_eq, if◌then◌else◌, front,
}
use solver.Order.{OrderId, RateKey, cmp}

abbrev pub Levels : Type 0
Levels = List (RateKey × List OrderId)

-- `levels.entry(key).or_default().push_back(id)`
unfoldable pub push_back : RateKey → OrderId → Levels → Levels
push_back key id [] = (key, id ∷ []) ∷ []
push_back key id ((k, ids) ∷ ls) =
    let later = push_back key id ls in
    elim (cmp key k) [
      | Ordering.lt ↦ (key, id ∷ []) ∷ (k, ids) ∷ ls
      | Ordering.eq ↦ (k, ids ++ id ∷ []) ∷ ls
      | Ordering.gt ↦ (k, ids) ∷ later
    ]

-- `ids.remove(pos)` at the first position of the id.
unfoldable pub remove_first : OrderId → List OrderId → List OrderId
remove_first id [] = []
remove_first id (i ∷ ids) = let rest = i ∷ remove_first id ids in if i == id then ids else rest

-- A level that has become empty goes.
unfoldable pub keep_level : RateKey → List OrderId → Levels → Levels
keep_level k [] ls = ls
keep_level k (i ∷ ids) ls = (k, i ∷ ids) ∷ ls

unfoldable pub remove_id : RateKey → OrderId → Levels → Levels
remove_id key id [] = []
remove_id key id ((k, ids) ∷ ls) =
    let later = remove_id key id ls in
    elim (cmp key k) [
      | Ordering.lt ↦ (k, ids) ∷ ls
      | Ordering.eq ↦ keep_level k (remove_first id ids) ls
      | Ordering.gt ↦ (k, ids) ∷ later
    ]

-- The inner loop of `best_order`: drop ids from the front while they are not active.
unfoldable pub drop_inactive : (OrderId → Bool) → List OrderId → List OrderId
drop_inactive active [] = []
drop_inactive active (i ∷ ids) =
    let rest = drop_inactive active ids in if active i then i ∷ ids else rest

-- The outer loop: empty front levels go until one has an active id at its front.
unfoldable pub prune : (OrderId → Bool) → Levels → Levels
prune active [] = []
prune active ((k, ids) ∷ ls) =
    let rest = prune active ls in
    elim (drop_inactive active ids) [ [] ↦ rest | i ∷ kept ↦ (k, i ∷ kept) ∷ ls ]

-- The id at the front of the first level.
unfoldable pub best : Levels → Option OrderId
best [] = none
best ((k, ids) ∷ ls) = front ids

-- All ids, level by level: `btree.values().flat_map(|ids| ids.iter())`.
unfoldable pub ids_of : Levels → List OrderId
ids_of [] = []
ids_of ((k, ids) ∷ ls) = ids ++ ids_of ls
