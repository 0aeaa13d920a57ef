-- ===== src/Levels/Best.antt =====
-- The best id of sorted levels has the best rate among the active ids, and there is one if any id
-- is active.
use solver.Prelude.{
  ◌≡◌, refl, Bool, true, none, some, List, [], ◌∷◌, ◌⊎◌, inl, inr, In, In-append_left,
  In-append_right, In-append_cases, Bool-cases, arith, nat_eq, All,
}
use solver.Order.{OrderId, RateKey}
use solver.Order.Rate.{RateLe}
use solver.Levels.{Levels, drop_inactive, prune, best, ids_of}
use solver.Levels.Ids.{Subset, drop_inactive-Subset}
use solver.Levels.Sorted.{Below, IsSorted}

module _ (active : OrderId → Bool) where
  drop_inactive-keeps :
      (ids : List OrderId) (i : OrderId)
      → active i ≡ true
      → In i ids
      → In i (drop_inactive active ids)
  unfolding drop_inactive
  drop_inactive-keeps [] i a m = m
  drop_inactive-keeps (j ∷ ids) i a m = elim (Bool-cases (active j)) [
    | inl h ↦ rw (h, drop_inactive) m
    | inr h ↦ elim m [
      | inl same ↦ absurd (cc (a, h, same))
      | inr later ↦ rw (h, drop_inactive) (drop_inactive-keeps ids i a later)
    ]
  ]

  -- No active id is dropped.
  pub prune-keeps :
      (ls : Levels) (i : OrderId)
      → active i ≡ true
      → In i (ids_of ls)
      → In i (ids_of (prune active ls))
  unfolding prune ids_of
  prune-keeps [] i a m = m
  prune-keeps ((k, ids) ∷ ls) i a m =
      go (drop_inactive active ids) (drop_inactive-keeps ids i a) (prune-keeps ls i a)
        (In-append_cases i ids (ids_of ls) m)
    where
      go :
          (kept : List OrderId)
          → (In i ids → In i kept)
          → (In i (ids_of ls) → In i (ids_of (prune active ls)))
          → In i ids ⊎ In i (ids_of ls)
          → In i (ids_of (elim kept [ [] ↦ prune active ls | j ∷ js ↦ (k, j ∷ js) ∷ ls ]))
      go [] f later (inl h) = absurd (f h)
      go [] f later (inr h) = later h
      go (j ∷ js) f later (inl h) = In-append_left i (j ∷ js) (ids_of ls) (f h)
      go (j ∷ js) f later (inr h) = In-append_right i (j ∷ js) (ids_of ls) h

module _ (P : OrderId → RateKey → Type 0) where
  -- Every id has the property with the key that it stands under.
  abbrev pub Keyed : Levels → Type 0
  Keyed ls = All (λ (l : RateKey × List OrderId). (i : OrderId) → In i l.1 → P i l.0) ls

  pub prune-Keyed : (active : OrderId → Bool) (ls : Levels) → Keyed ls → Keyed (prune active ls)
  unfolding prune
  prune-Keyed active [] a = a
  prune-Keyed active ((k, ids) ∷ ls) a =
      go (drop_inactive active ids) (drop_inactive-Subset active ids) (prune-Keyed active ls a.1)
    where
      go :
          (kept : List OrderId)
          → Subset kept ids
          → Keyed (prune active ls)
          → Keyed (elim kept [ [] ↦ prune active ls | j ∷ js ↦ (k, j ∷ js) ∷ ls ])
      go [] f later = later
      go (j ∷ js) f later = (λ i m. a.0 i (f i m), a.1)

  -- An id stands under a key no better than `k`.
  pub record Follows (k : RateKey) (i : OrderId) : Type 0 where
    pub key : RateKey
    pub no_better : RateLe k key
    pub under : P i key

  Below-Follows :
      (k : RateKey) (ls : Levels) (i : OrderId)
      → Below k ls
      → Keyed ls
      → In i (ids_of ls)
      → Follows k i
  unfolding Below ids_of
  Below-Follows k [] i b a m = elim m [ ]
  Below-Follows k ((l, ids) ∷ ls) i b a m = elim (In-append_cases i ids (ids_of ls) m) [
    | inl h ↦ record { key = l; no_better = b.0; under = a.0 i h }
    | inr h ↦ Below-Follows k ls i b.1 a.1 h
  ]

  -- The key of the best id, which every id follows.
  pub record Leads (ls : Levels) (id : OrderId) : Type 0 where
    pub key : RateKey
    pub under : P id key
    pub leads : (i : OrderId) → In i (ids_of ls) → Follows key i

  pub best-Leads :
      (ls : Levels) {id : OrderId} → IsSorted ls → Keyed ls → best ls ≡ some id → Leads ls id
  unfolding best IsSorted ids_of
  best-Leads [] s a e = absurd (cc)
  best-Leads ((k, []) ∷ ls) s a e = absurd (cc)
  best-Leads ((k, j ∷ ids) ∷ ls) {id} s a e =
      let same : j ≡ id = ground arith in
      let first : P j k = a.0 j (inl refl) in
      record {
        key = k;
        under = rw same at first;
        leads = λ i m. elim (In-append_cases i (j ∷ ids) (ids_of ls) m) [
          | inl h ↦ record { key = k; no_better = omega arith; under = a.0 i h }
          | inr h ↦ Below-Follows k ls i s.1.0 a.1 h
        ];
      }

-- Where there is no best id after `prune`, no id is left.
pub best-prune-none :
    (active : OrderId → Bool) (ls : Levels)
    → best (prune active ls) ≡ none
    → ids_of (prune active ls) ≡ []
unfolding prune best ids_of
best-prune-none active [] e = refl
best-prune-none active ((k, ids) ∷ ls) e =
    go (drop_inactive active ids) (best-prune-none active ls) e
  where
    go :
        (kept : List OrderId)
        → (best (prune active ls) ≡ none → ids_of (prune active ls) ≡ [])
        → best (elim kept [ [] ↦ prune active ls | j ∷ js ↦ (k, j ∷ js) ∷ ls ]) ≡ none
        → ids_of (elim kept [ [] ↦ prune active ls | j ∷ js ↦ (k, j ∷ js) ∷ ls ]) ≡ []
    go [] later h = later h
    go (j ∷ js) later h = absurd (cc (h))
