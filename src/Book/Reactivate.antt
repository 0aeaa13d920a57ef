-- ===== src/Book/Reactivate.antt =====
-- The reactivation of parked notes whose time is over.
use solver.Prelude.{
  ℕ, ◌≤◌, ◌<◌, ◌≡◌, refl, sym, ◌∙◌, Bool, true, false, Option, none, some, List, [], ◌∷◌, ◌++◌, ap,
  inl, inr, Bool-cases, Option-cases, if◌then◌else◌, arith, contains, ◌==◌, nat_eq, ltb, sat_add64,
}
use solver.Prelude.Maps.{get}
use solver.Order.{OrderId, DexId}
use solver.Book.{OrderBook, unpark, reactivate, reactivate_parked_older_than}
use solver.Book.Park.{unpark-parked}

abbrev pub queue_ids : List (ℕ × OrderId) → List OrderId
queue_ids [] = []
queue_ids ((parked_at, id) ∷ queue) = id ∷ queue_ids queue

-- The DEX of a parked note.
abbrev pub dex_of : Option (DexId × ℕ) → Option DexId
dex_of none = none
dex_of (some (dex, parked_at)) = some dex

-- The time of every entry is over.
abbrev pub AreOver : ℕ → ℕ → List (ℕ × OrderId) → Type 0
AreOver ttl time [] = Unit
AreOver ttl time ((parked_at, id) ∷ queue) =
    (sat_add64 parked_at ttl ≤ time) × AreOver ttl time queue

-- The first entry of the queue, if there is one, is not over its time.
abbrev pub IsWaiting : ℕ → ℕ → List (ℕ × OrderId) → Type 0
IsWaiting ttl time [] = Unit
IsWaiting ttl time ((parked_at, id) ∷ queue) = time < sat_add64 parked_at ttl

-- The queue is what was taken and what is left: exactly the entries at its front whose time is over
-- are taken. A note of one of them comes back, with its DEX, where it is parked, and is parked no
-- more; the other notes stay as they are and do not come back.
abbrev pub IsReactivated :
    ℕ → ℕ → OrderBook → List (ℕ × OrderId) → OrderId → OrderBook × List (OrderId × DexId) → Type 0
IsReactivated ttl time b queue j (after, returned) =
    (taken : List (ℕ × OrderId)) × (left : List (ℕ × OrderId)) × (queue ≡ taken ++ left)
    × AreOver ttl time taken
    × IsWaiting ttl time left
    × (after.park_queue ≡ left)
    × (get j after.parked ≡ (if contains j (queue_ids taken) then none else get j b.parked))
    × (get j returned ≡ (if contains j (queue_ids taken) then dex_of (get j b.parked) else none))

if_same {ℓ} : {A : Type ℓ} {x : A} (t : Bool) → (if t then x else x) ≡ x
if_same true = refl
if_same false = refl

unpark-returns : (b : OrderBook) (id : OrderId) → (unpark b id).1 ≡ dex_of (get id b.parked)
unfolding unpark
unpark-returns b id = elim (Option-cases (get id b.parked)) [
  | inl e ↦ rw (e, unpark)
  | inr (v, e) ↦ rw (e, unpark)
]

-- One more entry is taken.
module _ (b : OrderBook) (id j : OrderId) (ids : List OrderId) where
  parked_step :
      (if contains j ids then none else get j (unpark b id).0.parked)
      ≡ (if contains j (id ∷ ids) then none else get j b.parked)
  parked_step = elim (Bool-cases (j == id)) [
    | inl same ↦ rw (unpark-parked b id j, same) (if_same (contains j ids))
    | inr other ↦ rw (unpark-parked b id j, other) refl
  ]

  back_step :
      (if contains j ids then dex_of (get j (unpark b id).0.parked) else none)
      ≡ (if j == id then none else if contains j (id ∷ ids) then dex_of (get j b.parked) else none)
  back_step = elim (Bool-cases (j == id)) [
    | inl same ↦ rw (unpark-parked b id j, same) (if_same (contains j ids))
    | inr other ↦ rw (unpark-parked b id j, other) refl
  ]

  returned_none :
      (returned : List (OrderId × DexId))
      → (unpark b id).1 ≡ none
      → get j returned ≡ (if contains j ids then dex_of (get j (unpark b id).0.parked) else none)
      → get j returned ≡ (if contains j (id ∷ ids) then dex_of (get j b.parked) else none)
  returned_none returned h back = elim (Bool-cases (j == id)) [
    | inl same ↦
        let at : j ≡ id = ground arith in
        let missing : dex_of (get j b.parked) ≡ none = rw at (sym (unpark-returns b id) ∙ h) in
        back ∙ back_step ∙ rw (same, missing) refl
    | inr other ↦ back ∙ back_step ∙ rw other refl
  ]

  returned_some :
      (returned : List (OrderId × DexId)) (dex : DexId)
      → (unpark b id).1 ≡ some dex
      → get j returned ≡ (if contains j ids then dex_of (get j (unpark b id).0.parked) else none)
      → get j ((id, dex) ∷ returned)
        ≡ (if contains j (id ∷ ids) then dex_of (get j b.parked) else none)
  unfolding get
  returned_some returned dex h back = elim (Bool-cases (j == id)) [
    | inl same ↦
        let at : j ≡ id = ground arith in
        let there : dex_of (get j b.parked) ≡ some dex = rw at (sym (unpark-returns b id) ∙ h) in
        rw (same, there) refl
    | inr other ↦ rw (get, other) (back ∙ back_step ∙ rw other refl)
  ]

module _ (ttl : ℕ) (time : ℕ) where
  reactivate-IsReactivated :
      (b : OrderBook) (queue : List (ℕ × OrderId)) (j : OrderId)
      → IsReactivated ttl time b queue j (reactivate b queue ttl time)
  unfolding reactivate get
  reactivate-IsReactivated b [] j = ([], [], refl, tt, tt, refl, refl, refl)
  reactivate-IsReactivated b ((parked_at, id) ∷ queue) j =
      let (taken, left, split, over, waiting, kept, parked, back) =
        reactivate-IsReactivated (unpark b id).0 queue j in
      let parts = ap (λ q. (parked_at, id) ∷ q) split in
      let ids = queue_ids taken in
      elim (Bool-cases (ltb time (sat_add64 parked_at ttl))) [
        | inl e ↦
            rw (e, reactivate)
              ([], (parked_at, id) ∷ queue, refl, tt, ground arith, refl, refl, refl)
        | inr e ↦
            let due : sat_add64 parked_at ttl ≤ time = ground arith in
            let gone = parked ∙ parked_step b id j ids in
            let first = (parked_at, id) ∷ taken in
            elim (Option-cases (unpark b id).1) [
              | inl h ↦
                  rw (e, h, reactivate)
                    (
                      first,
                      left,
                      parts,
                      (due, over),
                      waiting,
                      kept,
                      gone,
                      returned_none b id j ids _ h back,
                    )
              | inr (dex, h) ↦
                  rw (e, h, reactivate)
                    (
                      first,
                      left,
                      parts,
                      (due, over),
                      waiting,
                      kept,
                      gone,
                      returned_some b id j ids _ dex h back,
                    )
            ]
      ]

-- Reactivation takes exactly the entries at the front of the queue whose time is over, and leaves
-- the queue from the first one on whose time is not. A note of a taken entry that is parked comes
-- back with the DEX that it was parked for and is parked no more; any other note stays parked or not
-- as it was, and does not come back.
pub reactivate_parked_older_than-IsReactivated :
    (b : OrderBook) (ttl : ℕ) (time : ℕ) (j : OrderId)
    → IsReactivated ttl time b b.park_queue j (reactivate_parked_older_than b ttl time)
unfolding reactivate_parked_older_than
reactivate_parked_older_than-IsReactivated b ttl time j =
    reactivate-IsReactivated ttl time b b.park_queue j
