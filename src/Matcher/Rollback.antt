-- ===== src/Matcher/Rollback.antt =====
-- The external pass of a tick: which notes it leaves parked.
use solver.Prelude.{
  ℕ, ◌≡◌, refl, ◌∙◌, Option, none, some, List, [], ◌∷◌, ◌⊎◌, inl, inr, In, Bool-cases, Option-cases,
  arith, ◌==◌, nat_eq, pair_eq, null,
}
use solver.Prelude.Maps.{Map, get, keys}
use solver.Order.{OrderId, DexId}
use solver.Book.{OrderBook, park, unpark}
use solver.Book.Park.{unpark-orders, unpark-parked, park-orders, park-parked}
use solver.Select.{Pick, select_notes}
use solver.Matcher.{
  Bytes, QuotesSnapshot, RoutedNote, RouteBatch, TrySend, sent, full, closed, candidates, hand_over,
  route_external, unpark_all, deliver_routed, external_pass,
}

-- The notes that the items of a batch hand over.
abbrev pub handed : List RoutedNote → List OrderId
handed [] = []
handed (item ∷ items) = item.note_id ∷ handed items

-- What a batch is made of, if one was sent.
abbrev pub batched : Option RouteBatch → List OrderId
batched none = []
batched (some batch) = handed batch.items

unpark_all-orders :
    (b : OrderBook) (items : List RoutedNote) → (unpark_all b items).orders ≡ b.orders
unfolding unpark_all
unpark_all-orders b [] = refl
unpark_all-orders b (item ∷ items) =
    unpark_all-orders (unpark b item.note_id).0 items ∙ unpark-orders b item.note_id

-- A note that is parked after `unpark_all` was parked before, and is none of the items.
unpark_all-parked :
    (b : OrderBook) (items : List RoutedNote) (j : OrderId) {v : DexId × ℕ}
    → get j (unpark_all b items).parked ≡ some v
    → (get j b.parked ≡ some v) × ¬ In j (handed items)
unfolding unpark_all
unpark_all-parked b [] j g = (g, λ m. m)
unpark_all-parked b (item ∷ items) j {v} g =
    let (kept, fresh) = unpark_all-parked (unpark b item.note_id).0 items j g in
    elim (Bool-cases (j == item.note_id)) [
      | inl same ↦ absurd (cc (rw (unpark-parked b item.note_id j, same) at kept))
      | inr other ↦ (
        rw (unpark-parked b item.note_id j, other) at kept,
        λ m. elim m [ inl e ↦ ground arith | inr later ↦ fresh later ],
      )
    ]

hand_over-orders :
    (b : OrderBook) (raw_notes : Map OrderId Bytes) (now : ℕ) (picks : List Pick)
    → (hand_over b raw_notes now picks).0.orders ≡ b.orders
unfolding hand_over
hand_over-orders b raw_notes now [] = refl
hand_over-orders b raw_notes now (pick ∷ picks) = elim (Option-cases (get pick.note_id raw_notes)) [
  | inl e ↦ rw (e, hand_over) (hand_over-orders b raw_notes now picks)
  | inr (bytes, e) ↦
      rw (e, hand_over)
        (hand_over-orders (park b pick.note_id pick.dex now) raw_notes now picks
          ∙ park-orders b pick.note_id pick.dex now)
]

hand_over-parked :
    (b : OrderBook) (raw_notes : Map OrderId Bytes) (now : ℕ) (picks : List Pick) (j : OrderId)
    {v : DexId × ℕ}
    → get j (hand_over b raw_notes now picks).0.parked ≡ some v
    → In j (handed (hand_over b raw_notes now picks).1) ⊎ (get j b.parked ≡ some v)
unfolding hand_over
hand_over-parked b raw_notes now [] j g = inr g
hand_over-parked b raw_notes now (pick ∷ picks) j {v} g =
    elim (Option-cases (get pick.note_id raw_notes)) [
      | inl e ↦
          rw (e, hand_over) (hand_over-parked b raw_notes now picks j (rw (e, hand_over) at g))
      | inr (bytes, e) ↦
          rw (e, hand_over)
            (elim (hand_over-parked (park b pick.note_id pick.dex now) raw_notes now picks j
              (rw (e, hand_over) at g)) [
                | inl later ↦ inl (inr later)
                | inr first ↦ elim (park-parked b pick.note_id pick.dex now j first) [
                  | inl same ↦ inl (inl same)
                  | inr before ↦ inr before
                ]
              ])
    ]

module _ (b : OrderBook) (raw_notes : Map OrderId Bytes) (quotes : QuotesSnapshot) (now : ℕ) where
  route_external-orders : (route_external b raw_notes quotes now).0.orders ≡ b.orders
  unfolding route_external
  route_external-orders = ground (
    arith,
    hand_over-orders b raw_notes now (select_notes (candidates b (keys quotes)) quotes now),
  )

  route_external-parked :
      (j : OrderId) {v : DexId × ℕ}
      → get j (route_external b raw_notes quotes now).0.parked ≡ some v
      → In j (handed (route_external b raw_notes quotes now).1) ⊎ (get j b.parked ≡ some v)
  unfolding route_external
  route_external-parked j g = elim (Bool-cases (null quotes)) [
    | inl e ↦ rw (e, route_external) (inr (rw (e, route_external) at g))
    | inr e ↦ elim (Bool-cases (null (candidates b (keys quotes)))) [
      | inl h ↦ rw (e, h, route_external) (inr (rw (e, h, route_external) at g))
      | inr h ↦
          rw (e, h, route_external)
            (hand_over-parked b raw_notes now (select_notes (candidates b (keys quotes)) quotes now)
              j (rw (e, h, route_external) at g))
    ]
  ]

-- A note that is parked after `deliver_routed` was parked before, and is none of the items unless
-- these were sent as a batch.
deliver_routed-parked :
    (b : OrderBook) (items : List RoutedNote) (outcome : TrySend) (j : OrderId) {v : DexId × ℕ}
    → get j (deliver_routed b items outcome).0.parked ≡ some v
    → (get j b.parked ≡ some v)
      × (In j (handed items) → In j (batched (deliver_routed b items outcome).1))
unfolding deliver_routed
deliver_routed-parked b [] outcome j g = (g, λ m. m)
deliver_routed-parked b (item ∷ items) sent j g = (g, λ m. m)
deliver_routed-parked b (item ∷ items) full j g =
    let (before, fresh) = unpark_all-parked b (item ∷ items) j g in (before, λ m. absurd (fresh m))
deliver_routed-parked b (item ∷ items) closed j g =
    let (before, fresh) = unpark_all-parked b (item ∷ items) j g in (before, λ m. absurd (fresh m))

deliver_routed-orders :
    (b : OrderBook) (items : List RoutedNote) (outcome : TrySend)
    → (deliver_routed b items outcome).0.orders ≡ b.orders
unfolding deliver_routed
deliver_routed-orders b [] outcome = refl
deliver_routed-orders b (item ∷ items) sent = refl
deliver_routed-orders b (item ∷ items) full = unpark_all-orders b (item ∷ items)
deliver_routed-orders b (item ∷ items) closed = unpark_all-orders b (item ∷ items)

pub external_pass-orders :
    (b : OrderBook) (raw_notes : Map OrderId Bytes) (quotes : QuotesSnapshot) (outcome : TrySend)
    (now : ℕ)
    → (external_pass b raw_notes quotes outcome now).0.orders ≡ b.orders
unfolding external_pass
external_pass-orders b raw_notes quotes outcome now =
    let r = route_external b raw_notes quotes now in
    deliver_routed-orders r.0 r.1 outcome ∙ route_external-orders b raw_notes quotes now

-- A note that is parked after the external pass was parked before, or stands in the batch that the
-- router got: a handover that the channel refuses, full or closed, parks nothing.
pub external_pass-parked :
    (b : OrderBook) (raw_notes : Map OrderId Bytes) (quotes : QuotesSnapshot) (outcome : TrySend)
    (now : ℕ) (j : OrderId) {v : DexId × ℕ}
    → get j (external_pass b raw_notes quotes outcome now).0.parked ≡ some v
    → In j (batched (external_pass b raw_notes quotes outcome now).1) ⊎ (get j b.parked ≡ some v)
unfolding external_pass
external_pass-parked b raw_notes quotes outcome now j g =
    let r = route_external b raw_notes quotes now in
    let (before, batch) = deliver_routed-parked r.0 r.1 outcome j g in
    elim (route_external-parked b raw_notes quotes now j before) [
      | inl handed_over ↦ inl (batch handed_over)
      | inr earlier ↦ inr earlier
    ]
