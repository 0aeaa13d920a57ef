-- ===== src/Book/Sound.antt =====
-- The invariant of matching: stored orders are valid and carry their own id, and an indexed id that
-- is stored stands under the pair of its order.
use solver.Prelude.{◌≡◌, ◌∙◌, some, In, arith, nat_eq, pair_eq}
use solver.Prelude.Maps.{get}
use solver.Order.{Order, OrderId, IsValid}
use solver.Order.Match.{SameTerms, SameTerms-IsValid}
use solver.Book.{OrderBook, Pair, pair_of}
use solver.Book.Evolution.{Evolves, indexed}

pub record IsSound (b : OrderBook) : Type 0 where
  pub valid : (id : OrderId) (o : Order) → get id b.orders ≡ some o → IsValid o
  pub own_id : (id : OrderId) (o : Order) → get id b.orders ≡ some o → o.id ≡ id
  pub at_pair :
      (p : Pair) (id : OrderId) (o : Order)
      → In id (indexed b.pair_index p)
      → get id b.orders ≡ some o
      → pair_of o ≡ p

SameTerms-pair : (o o' : Order) → SameTerms o o' → pair_of o' ≡ pair_of o
SameTerms-pair o o' s = ground arith

pub Evolves-IsSound : {b b' : OrderBook} → Evolves b b' → IsSound b → IsSound b'
Evolves-IsSound e v = record {
  valid =
      λ id o h. let (q, hq, s) = e.orders_from id o h in SameTerms-IsValid q o s (v.valid id q hq);
  own_id = λ id o h. let (q, hq, s) = e.orders_from id o h in s.id ∙ v.own_id id q hq;
  at_pair = λ p id o m h.
      let (q, hq, s) = e.orders_from id o h in
      SameTerms-pair q o s ∙ v.at_pair p id q (e.index_from p id m) hq;
}
