-- ===== src/Levels/Sorted.antt =====
-- The levels of a directed pair stay in ascending key order under every operation of the book on
-- them, so that the first level holds the best price: the order a `BTreeMap` keeps.
use solver.Prelude.{◌<◌, Bool, List, [], ◌∷◌, inl, inr}
use solver.Order.{OrderId, RateKey, cmp}
use solver.Order.Rate.{RateLe, RateLe-trans, cmp-lt_RateLe, cmp-gt_RateLe}
use solver.Levels.{Levels, push_back, remove_first, keep_level, remove_id, drop_inactive, prune}
use solver.Levels.Ids.{cmp-cases}

-- Every level has a key no better than `k`.
unfoldable pub Below : RateKey → Levels → Type 0
Below k [] = Unit
Below k ((l, ids) ∷ ls) = RateLe k l × Below k ls

unfoldable pub IsSorted : Levels → Type 0
IsSorted [] = Unit
IsSorted ((k, ids) ∷ ls) = (0 < k.offered) × (Below k ls × IsSorted ls)

Below-trans : (k l : RateKey) (ls : Levels) → 0 < l.offered → RateLe k l → Below l ls → Below k ls
unfolding Below
Below-trans k l [] pos h b = b
Below-trans k l ((m, ids) ∷ ls) pos h (i, b) =
    (RateLe-trans k l m pos h i, Below-trans k l ls pos h b)

Below-push_back :
    (k key : RateKey) (id : OrderId) (ls : Levels)
    → RateLe k key
    → Below k ls
    → Below k (push_back key id ls)
unfolding Below push_back
Below-push_back k key id [] h b = (h, b)
Below-push_back k key id ((l, ids) ∷ ls) h (i, b) = elim (cmp-cases (cmp key l)) [
  | inl e ↦ rw (e, push_back, Below) (h, (i, b))
  | inr (inl e) ↦ rw (e, push_back, Below) (i, b)
  | inr (inr e) ↦ rw (e, push_back, Below) (i, Below-push_back k key id ls h b)
]

pub push_back-IsSorted :
    (key : RateKey) (id : OrderId) (ls : Levels)
    → 0 < key.offered
    → IsSorted ls
    → IsSorted (push_back key id ls)
unfolding IsSorted push_back Below
push_back-IsSorted key id [] pos s = (pos, (s, s))
push_back-IsSorted key id ((l, ids) ∷ ls) pos (p, (b, s)) = elim (cmp-cases (cmp key l)) [
  | inl e ↦
      rw (e, push_back, IsSorted, Below)
        (
          pos,
          ((cmp-lt_RateLe key l e, Below-trans key l ls p (cmp-lt_RateLe key l e) b), (p, (b, s))),
        )
  | inr (inl e) ↦ rw (e, push_back, IsSorted, Below) (p, (b, s))
  | inr (inr e) ↦
      rw (e, push_back, IsSorted, Below)
        (
          p,
          (
            Below-push_back l key id ls (cmp-gt_RateLe key l e) b,
            push_back-IsSorted key id ls pos s,
          ),
        )
]

Below-keep_level :
    (k l : RateKey) (ids : List OrderId) (ls : Levels)
    → RateLe k l
    → Below k ls
    → Below k (keep_level l ids ls)
unfolding Below keep_level
Below-keep_level k l [] ls h b = b
Below-keep_level k l (i ∷ ids) ls h b = (h, b)

keep_level-IsSorted :
    (k : RateKey) (ids : List OrderId) (ls : Levels)
    → 0 < k.offered
    → Below k ls
    → IsSorted ls
    → IsSorted (keep_level k ids ls)
unfolding IsSorted keep_level
keep_level-IsSorted k [] ls p b s = s
keep_level-IsSorted k (i ∷ ids) ls p b s = (p, (b, s))

Below-remove_id :
    (k key : RateKey) (id : OrderId) (ls : Levels) → Below k ls → Below k (remove_id key id ls)
unfolding Below remove_id
Below-remove_id k key id [] b = b
Below-remove_id k key id ((l, ids) ∷ ls) (i, b) = elim (cmp-cases (cmp key l)) [
  | inl e ↦ rw (e, remove_id, Below) (i, b)
  | inr (inl e) ↦ rw (e, remove_id) (Below-keep_level k l (remove_first id ids) ls i b)
  | inr (inr e) ↦ rw (e, remove_id, Below) (i, Below-remove_id k key id ls b)
]

pub remove_id-IsSorted :
    (key : RateKey) (id : OrderId) (ls : Levels) → IsSorted ls → IsSorted (remove_id key id ls)
unfolding IsSorted remove_id Below
remove_id-IsSorted key id [] s = s
remove_id-IsSorted key id ((l, ids) ∷ ls) (p, (b, s)) = elim (cmp-cases (cmp key l)) [
  | inl e ↦ rw (e, remove_id, IsSorted) (p, (b, s))
  | inr (inl e) ↦ rw (e, remove_id, IsSorted) (keep_level-IsSorted l (remove_first id ids) ls p b s)
  | inr (inr e) ↦
      rw (e, remove_id, IsSorted)
        (p, (Below-remove_id l key id ls b, remove_id-IsSorted key id ls s))
]

pub prune-IsSorted :
    (active : OrderId → Bool) (ls : Levels) → IsSorted ls → IsSorted (prune active ls)
unfolding IsSorted prune
prune-IsSorted active [] s = s
prune-IsSorted active ((k, ids) ∷ ls) (p, (b, s)) =
    go (drop_inactive active ids) (prune-IsSorted active ls s)
  where
    go :
        (kept : List OrderId)
        → IsSorted (prune active ls)
        → IsSorted (elim kept [ [] ↦ prune active ls | j ∷ js ↦ (k, j ∷ js) ∷ ls ])
    go [] later = later
    go (j ∷ js) later = (p, (b, s))

-- The levels the book's operations lead to from none.
pub data Reachable : Levels → Type 0 where
  start : Reachable []
  pushed :
      {ls : Levels} (key : RateKey) (id : OrderId)
      → 0 < key.offered
      → Reachable ls
      → Reachable (push_back key id ls)
  removed :
      {ls : Levels} (key : RateKey) (id : OrderId) → Reachable ls → Reachable (remove_id key id ls)
  pruned : {ls : Levels} (active : OrderId → Bool) → Reachable ls → Reachable (prune active ls)

-- Price levels that arise from none by adding orders that offer something, removing orders and
-- dropping inactive ones are in ascending key order: no level has a better rate than one before it.
pub Reachable-IsSorted : {ls : Levels} → Reachable ls → IsSorted ls
unfolding IsSorted
Reachable-IsSorted start = tt
Reachable-IsSorted (pushed {ls} key id pos r) =
    push_back-IsSorted key id ls pos (Reachable-IsSorted r)
Reachable-IsSorted (removed {ls} key id r) = remove_id-IsSorted key id ls (Reachable-IsSorted r)
Reachable-IsSorted (pruned {ls} active r) = prune-IsSorted active ls (Reachable-IsSorted r)
