-- ===== src/Db/Statuses.antt =====
-- What the updates of the order table do to one row, and how often.
use solver.Prelude.{
  ◌≡◌, refl, Bool, true, false, ◌&&◌, none, some, List, [], ◌∷◌, inl, inr, Bool-cases,
  if◌then◌else◌, ◌==◌, nat_eq, arith, contains, eq_of_some,
}
use solver.Prelude.Maps.{Map, get}
use solver.Order.{OrderId}
use solver.Status.{OrderStatus, settling, onchain_nullified, same_status, as_str}
use solver.Db.{
  OrderRow, Db, set_where, update_orders_status, is_open, mark_orders_onchain_nullified,
}

-- A row with another status.
abbrev pub with_status : OrderStatus → OrderRow → OrderRow
with_status s row = record row { status = s }

abbrev pub updated : (OrderRow → Bool) → OrderStatus → OrderRow → OrderRow
updated chosen s row = if chosen row then with_status s row else row

pub get-set_where :
    (chosen : OrderRow → Bool) (s : OrderStatus) (m : Map OrderId OrderRow) (id : OrderId)
    {row : OrderRow}
    → get id m ≡ some row
    → get id (set_where chosen s m).0 ≡ some (updated chosen s row)
unfolding set_where get
get-set_where chosen s [] id g = absurd (cc)
get-set_where chosen s ((k, r) ∷ m) id {row} g = elim (Bool-cases (id == k)) [
  | inl here ↦
      let same : r ≡ row = eq_of_some (rw (here, get) at g) in
      rw (← same)
        (elim (Bool-cases (chosen r)) [ inl c ↦ rw (c, here, get) | inr c ↦ rw (c, here, get) ])
  | inr there ↦
      let later = get-set_where chosen s m id (rw (there, get) at g) in
      elim (Bool-cases (chosen r)) [
        | inl c ↦ rw (c, there, get) later
        | inr c ↦ rw (c, there, get) later
      ]
]

pub get-set_where-none :
    (chosen : OrderRow → Bool) (s : OrderStatus) (m : Map OrderId OrderRow) (id : OrderId)
    → get id m ≡ none
    → get id (set_where chosen s m).0 ≡ none
unfolding set_where get
get-set_where-none chosen s [] id g = refl
get-set_where-none chosen s ((k, r) ∷ m) id g = elim (Bool-cases (id == k)) [
  | inl here ↦ absurd (cc (rw (here, get) at g))
  | inr there ↦
      let later = get-set_where-none chosen s m id (rw (there, get) at g) in
      elim (Bool-cases (chosen r)) [
        | inl c ↦ rw (c, there, get) later
        | inr c ↦ rw (c, there, get) later
      ]
]

-- Where no row is chosen any more once it was set, a second update touches none.
set_where_twice :
    (chosen : OrderRow → Bool) (s : OrderStatus)
    → ((row : OrderRow) → chosen (with_status s row) ≡ false)
    → (m : Map OrderId OrderRow) → (set_where chosen s (set_where chosen s m).0).1 ≡ 0
unfolding set_where
set_where_twice chosen s once [] = refl
set_where_twice chosen s once ((k, r) ∷ m) = elim (Bool-cases (chosen r)) [
  | inl c ↦ rw (c, set_where, once r) (set_where_twice chosen s once m)
  | inr c ↦ rw (c, set_where, c) (set_where_twice chosen s once m)
]

nullified_closed : is_open onchain_nullified ≡ false
unfolding is_open same_status as_str
nullified_closed = refl

-- The row that marking leaves: an open one among the ids is nullified, and any other stays.
pub get-mark_orders_onchain_nullified :
    (d : Db) (ids : List OrderId) (id : OrderId) {row : OrderRow}
    → get id d.orders ≡ some row
    → get id (mark_orders_onchain_nullified d ids).0.orders
      ≡ some (
          if contains row.note_id ids && is_open row.status
          then with_status onchain_nullified row
          else row)
unfolding mark_orders_onchain_nullified
get-mark_orders_onchain_nullified d ids id g =
    get-set_where (λ row. contains row.note_id ids && is_open row.status) onchain_nullified d.orders
      id g

-- Marking a second time touches no row.
mark_orders_onchain_nullified_twice :
    (d : Db) (ids : List OrderId)
    → (mark_orders_onchain_nullified (mark_orders_onchain_nullified d ids).0 ids).1 ≡ 0
unfolding mark_orders_onchain_nullified
mark_orders_onchain_nullified_twice d ids =
    set_where_twice (λ row. contains row.note_id ids && is_open row.status) onchain_nullified closed
      d.orders
  where
    closed : (row : OrderRow) → (contains row.note_id ids && is_open onchain_nullified) ≡ false
    closed row = ground (arith, nullified_closed)

pub get-update_orders_status :
    (d : Db) (ids : List OrderId) (s : OrderStatus) (id : OrderId) {row : OrderRow}
    → get id d.orders ≡ some row
    → get id (update_orders_status d ids s).0.orders
      ≡ some (if contains row.note_id ids then with_status s row else row)
unfolding update_orders_status
get-update_orders_status d ids s id g =
    get-set_where (λ row. contains row.note_id ids) s d.orders id g

pub settling_open : is_open settling ≡ true
unfolding is_open same_status as_str
settling_open = refl
