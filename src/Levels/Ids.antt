-- ===== src/Levels/Ids.antt =====
-- The ids held by the levels: `push_back` brings in one, `remove_id` and `prune` bring in none, and
-- the best id after `prune` is an active one.
use Prim.Native.Nat.{Ordering}
use solver.Prelude.{
  ◌≡◌, refl, Bool, true, some, List, [], ◌∷◌, ◌++◌, ◌⊎◌, inl, inr, In, In-append_left,
  In-append_right, In-append_cases, Bool-cases, arith, front, ◌==◌, nat_eq,
}
use solver.Order.{OrderId, RateKey, cmp}
use solver.Levels.{Levels, remove_first, keep_level, remove_id, drop_inactive, prune, best, ids_of}

abbrev pub Subset : List OrderId → List OrderId → Type 0
Subset xs ys = (i : OrderId) → In i xs → In i ys

Subset-append :
    (xs xs' ys ys' : List OrderId) → Subset xs xs' → Subset ys ys' → Subset (xs ++ ys) (xs' ++ ys')
Subset-append xs xs' ys ys' f g i m = elim (In-append_cases i xs ys m) [
  | inl l ↦ In-append_left i xs' ys' (f i l)
  | inr r ↦ In-append_right i xs' ys' (g i r)
]

remove_first-Subset : (id : OrderId) (ids : List OrderId) → Subset (remove_first id ids) ids
unfolding remove_first
remove_first-Subset id [] i m = m
remove_first-Subset id (j ∷ ids) i m = elim (Bool-cases (j == id)) [
  | inl e ↦ inr (rw (e, remove_first) at m)
  | inr e ↦ elim (rw (e, remove_first) at m) [
    | inl h ↦ inl h
    | inr h ↦ inr (remove_first-Subset id ids i h)
  ]
]

keep_level-ids :
    (k : RateKey) (ids : List OrderId) (ls : Levels)
    → ids_of (keep_level k ids ls) ≡ ids ++ ids_of ls
unfolding keep_level ids_of
keep_level-ids k [] ls = refl
keep_level-ids k (i ∷ ids) ls = refl

pub cmp-cases : (o : Ordering) → (o ≡ Ordering.lt) ⊎ ((o ≡ Ordering.eq) ⊎ (o ≡ Ordering.gt))
cmp-cases Ordering.lt = inl refl
cmp-cases Ordering.eq = inr (inl refl)
cmp-cases Ordering.gt = inr (inr refl)

pub remove_id-Subset :
    (key : RateKey) (id : OrderId) (ls : Levels) → Subset (ids_of (remove_id key id ls)) (ids_of ls)
unfolding remove_id ids_of
remove_id-Subset key id [] = λ i m. m
remove_id-Subset key id ((k, ids) ∷ ls) = elim (cmp-cases (cmp key k)) [
  | inl e ↦ rw (e, remove_id) (λ i m. m)
  | inr (inl e) ↦
      rw (e, remove_id, keep_level-ids k (remove_first id ids) ls)
        (Subset-append (remove_first id ids) ids (ids_of ls) (ids_of ls)
          (remove_first-Subset id ids) (λ i m. m))
  | inr (inr e) ↦
      rw (e, remove_id)
        (Subset-append ids ids (ids_of (remove_id key id ls)) (ids_of ls) (λ i m. m)
          (remove_id-Subset key id ls))
]

module _ (active : OrderId → Bool) where
  pub drop_inactive-Subset : (ids : List OrderId) → Subset (drop_inactive active ids) ids
  unfolding drop_inactive
  drop_inactive-Subset [] i m = m
  drop_inactive-Subset (j ∷ ids) i m = elim (Bool-cases (active j)) [
    | inl e ↦ rw (e, drop_inactive) at m
    | inr e ↦ inr (drop_inactive-Subset ids i (rw (e, drop_inactive) at m))
  ]

  drop_inactive-front :
      (ids : List OrderId) {i : OrderId}
      → front (drop_inactive active ids) ≡ some i
      → active i ≡ true
  unfolding drop_inactive
  drop_inactive-front [] e = absurd (cc)
  drop_inactive-front (j ∷ ids) e = elim (Bool-cases (active j)) [
    | inl h ↦ ground arith
    | inr h ↦ drop_inactive-front ids (rw (h, drop_inactive) at e)
  ]

  pub prune-Subset : (ls : Levels) → Subset (ids_of (prune active ls)) (ids_of ls)
  unfolding prune ids_of
  prune-Subset [] i m = m
  prune-Subset ((k, ids) ∷ ls) i m =
      go (drop_inactive active ids) (drop_inactive-Subset ids) (prune-Subset ls) m
    where
      go :
          (kept : List OrderId)
          → Subset kept ids
          → Subset (ids_of (prune active ls)) (ids_of ls)
          → In i (ids_of (elim kept [ [] ↦ prune active ls | j ∷ js ↦ (k, j ∷ js) ∷ ls ]))
          → In i (ids ++ ids_of ls)
      go [] f later h = In-append_right i ids (ids_of ls) (later i h)
      go (j ∷ js) f later h = Subset-append (j ∷ js) ids (ids_of ls) (ids_of ls) f (λ i m. m) i h

  -- The best id is active.
  pub best-prune : (ls : Levels) {i : OrderId} → best (prune active ls) ≡ some i → active i ≡ true
  unfolding prune best
  best-prune [] e = absurd (cc)
  best-prune ((k, ids) ∷ ls) {i} e = go (drop_inactive active ids) refl (best-prune ls) e
    where
      go :
          (kept : List OrderId)
          → drop_inactive active ids ≡ kept
          → (best (prune active ls) ≡ some i → active i ≡ true)
          → best (elim kept [ [] ↦ prune active ls | j ∷ js ↦ (k, j ∷ js) ∷ ls ]) ≡ some i
          → active i ≡ true
      go [] d later h = later h
      go (j ∷ js) d later h = drop_inactive-front ids (rw d h)

pub best-In : (ls : Levels) {i : OrderId} → best ls ≡ some i → In i (ids_of ls)
unfolding best ids_of
best-In [] e = absurd (cc)
best-In ((k, []) ∷ ls) e = absurd (cc)
best-In ((k, j ∷ ids) ∷ ls) e = inl (ground arith)
