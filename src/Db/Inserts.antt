-- ===== src/Db/Inserts.antt =====
-- The batch insert: which orders it reports as new, and that it leaves the others alone.
use solver.Prelude.{
  ℕ, ◌≡◌, refl, sym, ◌∙◌, true, false, Option, none, some, List, [], ◌∷◌, ◌⊎◌, ◌↔◌, inl, inr, In,
  In-append_left, In-append_right, In-append_cases, Bool-cases, Option-cases, ◌==◌, nat_eq, arith,
  contains, add, is_some, if◌then◌else◌,
}
use solver.Prelude.Maps.{Map, get, insert, get-insert_ne, get-insert_self}
use solver.Order.{OrderId}
use solver.Db.{NoteRow, OrderRow, Db, insert_orders, insert_notes_batch}

abbrev pub ids_of : List OrderRow → List OrderId
ids_of [] = []
ids_of (o ∷ os) = o.note_id ∷ ids_of os

pub In-add : (i id : OrderId) (ids : List OrderId) → In i (add id ids) → (i ≡ id) ⊎ In i ids
In-add i id ids m = elim (Bool-cases (contains id ids)) [
  | inl h ↦ inr (rw h at m)
  | inr h ↦ elim (In-append_cases i ids (id ∷ []) (rw h at m)) [
    | inl old ↦ inr old
    | inr last ↦ elim last [ inl same ↦ inl same | inr none_left ↦ absurd none_left ]
  ]
]

pub contains-In : (i : OrderId) (ids : List OrderId) → contains i ids ≡ true → In i ids
contains-In i [] h = absurd (cc)
contains-In i (j ∷ ids) h = elim (Bool-cases (i == j)) [
  | inl e ↦ inl (ground arith)
  | inr e ↦ inr (contains-In i ids (ground arith))
]

add-In_self : (id : OrderId) (ids : List OrderId) → In id (add id ids)
add-In_self id ids = elim (Bool-cases (contains id ids)) [
  | inl h ↦ rw h (contains-In id ids h)
  | inr h ↦ rw h (In-append_right id ids (id ∷ []) (inl refl))
]

add-In_old : (i id : OrderId) (ids : List OrderId) → In i ids → In i (add id ids)
add-In_old i id ids m = elim (Bool-cases (contains id ids)) [
  | inl h ↦ rw h m
  | inr h ↦ rw h (In-append_left i ids (id ∷ []) m)
]

-- A row that is there is left as it is.
pub insert_orders-kept :
    (os : List OrderRow) (table : Map OrderId OrderRow) (inserted : List OrderId) (i : OrderId)
    {row : OrderRow}
    → get i table ≡ some row
    → get i (insert_orders os table inserted).0 ≡ some row
unfolding insert_orders
insert_orders-kept [] table inserted i g = g
insert_orders-kept (o ∷ os) table inserted i {row} g = elim (Option-cases (get o.note_id table)) [
  | inr (r, h) ↦ rw (h, insert_orders) (insert_orders-kept os table inserted i g)
  | inl h ↦
      let other : (i == o.note_id) ≡ false = elim (Bool-cases (i == o.note_id)) [
        | inr ne ↦ ne
        | inl same ↦ let at : i ≡ o.note_id = ground arith in absurd (cc (h, rw at at g))
      ] in
      rw (h, insert_orders)
        (insert_orders-kept os (insert o.note_id o table) (add o.note_id inserted) i
          (rw (get-insert_ne o.note_id i o table other) g))
]

-- The new ids are reported, and nothing else is.
insert_orders-inserted :
    (os : List OrderRow) (table : Map OrderId OrderRow) (inserted : List OrderId) (i : OrderId)
    → In i (insert_orders os table inserted).1
    → In i inserted ⊎ (In i (ids_of os) × (get i table ≡ none))
unfolding insert_orders
insert_orders-inserted [] table inserted i m = inl m
insert_orders-inserted (o ∷ os) table inserted i m = elim (Option-cases (get o.note_id table)) [
  | inr (r, h) ↦ elim (insert_orders-inserted os table inserted i (rw (h, insert_orders) at m)) [
    | inl old ↦ inl old
    | inr new ↦ inr (inr new.0, new.1)
  ]
  | inl h ↦
      elim (insert_orders-inserted os (insert o.note_id o table) (add o.note_id inserted) i
        (rw (h, insert_orders) at m)) [
          | inl old ↦ elim (In-add i o.note_id inserted old) [
            | inl same ↦ inr (inl same, rw same h)
            | inr before ↦ inl before
          ]
          | inr new ↦ elim (Bool-cases (i == o.note_id)) [
            | inl same ↦ let at : i ≡ o.note_id = ground arith in inr (inl at, rw at h)
            | inr other ↦ inr (inr new.0, sym (get-insert_ne o.note_id i o table other) ∙ new.1)
          ]
        ]
]

insert_orders-keeps :
    (os : List OrderRow) (table : Map OrderId OrderRow) (inserted : List OrderId) (i : OrderId)
    → In i inserted
    → In i (insert_orders os table inserted).1
unfolding insert_orders
insert_orders-keeps [] table inserted i m = m
insert_orders-keeps (o ∷ os) table inserted i m = elim (Option-cases (get o.note_id table)) [
  | inr (r, h) ↦ rw (h, insert_orders) (insert_orders-keeps os table inserted i m)
  | inl h ↦
      rw (h, insert_orders)
        (insert_orders-keeps os (insert o.note_id o table) (add o.note_id inserted) i
          (add-In_old i o.note_id inserted m))
]

insert_orders-reports :
    (os : List OrderRow) (table : Map OrderId OrderRow) (inserted : List OrderId) (i : OrderId)
    → In i (ids_of os)
    → get i table ≡ none
    → In i (insert_orders os table inserted).1
unfolding insert_orders
insert_orders-reports [] table inserted i m g = elim m [ ]
insert_orders-reports (o ∷ os) table inserted i m g = elim (Bool-cases (i == o.note_id)) [
  | inl same ↦
      let at : i ≡ o.note_id = ground arith in
      let missing : get o.note_id table ≡ none = rw at at g in
      rw (missing, insert_orders)
        (insert_orders-keeps os (insert o.note_id o table) (add o.note_id inserted) i
          (rw at (add-In_self o.note_id inserted)))
  | inr other ↦
      let later : In i (ids_of os) = elim m [
        | inl e ↦ absurd (cc (other, (nat_eq.same_iff i o.note_id).1 e))
        | inr l ↦ l
      ] in
      elim (Option-cases (get o.note_id table)) [
        | inr (r, h) ↦ rw (h, insert_orders) (insert_orders-reports os table inserted i later g)
        | inl h ↦
            rw (h, insert_orders)
              (insert_orders-reports os (insert o.note_id o table) (add o.note_id inserted) i later
                (get-insert_ne o.note_id i o table other ∙ g))
      ]
]

insert_orders-stored-head :
    (o : OrderRow) (os : List OrderRow) (table : Map OrderId OrderRow) (inserted : List OrderId)
    → is_some (get o.note_id (insert_orders (o ∷ os) table inserted).0) ≡ true
unfolding insert_orders
insert_orders-stored-head o os table inserted = elim (Option-cases (get o.note_id table)) [
  | inr (r, h) ↦ rw (h, insert_orders, insert_orders-kept os table inserted o.note_id h) refl
  | inl h ↦
      rw
        (
          h,
          insert_orders,
          insert_orders-kept os (insert o.note_id o table) (add o.note_id inserted) o.note_id
              (get-insert_self o.note_id o table),
        )
        refl
]

-- Every row of the batch is stored afterwards, under its id.
pub insert_orders-stored :
    (os : List OrderRow) (table : Map OrderId OrderRow) (inserted : List OrderId) (i : OrderId)
    → In i (ids_of os)
    → is_some (get i (insert_orders os table inserted).0) ≡ true
unfolding insert_orders
insert_orders-stored [] table inserted i m = elim m [ ]
insert_orders-stored (o ∷ os) table inserted i (inr m) = insert_orders-stored os _ _ i m
insert_orders-stored (o ∷ os) table inserted i (inl e) =
    rw e (insert_orders-stored-head o os table inserted)

-- The batch insert reports exactly the ids of the batch that no order was stored under.
pub insert_notes_batch-reports :
    (d : Db) (ns : List NoteRow) (os : List OrderRow) (block : ℕ) (i : OrderId)
    → In i (insert_notes_batch d ns os block).1 ↔ (In i (ids_of os) × (get i d.orders ≡ none))
unfolding insert_notes_batch
insert_notes_batch-reports d ns os block i = (
  λ m. elim (insert_orders-inserted os d.orders [] i m) [ inl x ↦ absurd x | inr new ↦ new ],
  λ new. insert_orders-reports os d.orders [] i new.0 new.1,
)

-- The first row of a batch with an id.
abbrev pub first_row : OrderId → List OrderRow → Option OrderRow
first_row i [] = none
first_row i (o ∷ os) = if i == o.note_id then some o else first_row i os

-- Under an id that is free the first row of the batch is stored, if there is one.
pub insert_orders-first :
    (os : List OrderRow) (table : Map OrderId OrderRow) (inserted : List OrderId) (i : OrderId)
    → get i table ≡ none
    → get i (insert_orders os table inserted).0 ≡ first_row i os
unfolding insert_orders
insert_orders-first [] table inserted i g = g
insert_orders-first (o ∷ os) table inserted i g = elim (Bool-cases (i == o.note_id)) [
  | inl same ↦
      let at : i ≡ o.note_id = ground arith in
      let missing : get o.note_id table ≡ none = rw at at g in
      let there : get i (insert o.note_id o table) ≡ some o =
        rw at (get-insert_self o.note_id o table) in
      rw (missing, same, insert_orders)
        (insert_orders-kept os (insert o.note_id o table) (add o.note_id inserted) i there)
  | inr other ↦ elim (Option-cases (get o.note_id table)) [
    | inr (r, h) ↦ rw (h, other, insert_orders) (insert_orders-first os table inserted i g)
    | inl h ↦
        rw (h, other, insert_orders)
          (insert_orders-first os (insert o.note_id o table) (add o.note_id inserted) i
            (get-insert_ne o.note_id i o table other ∙ g))
  ]
]
