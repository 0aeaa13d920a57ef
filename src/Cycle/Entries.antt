-- ===== src/Cycle/Entries.antt =====
-- crates/solver/src/matching/three_edge_cycle.rs: triangles, the entries of the heap, and their
-- enumeration. Hash sets of tokens are visited in the order of the lists that model them.
use solver.Prelude.{
  ℕ, ◌*◌, Bool, false, ◌&&◌, ◌||◌, not, Option, none, some, List, [], ◌∷◌, ◌++◌, leb, ltb, ◌==◌,
  nat_eq, pair_eq, triple_eq, if◌then◌else◌, ◌>>=◌, contains, u128_mod,
}
use solver.Prelude.Maps.{Map, update_entry}
use solver.Order.{Order, OrderId, TokenId}
use solver.Book.{OrderBook, Pair, best_order}
use solver.Book.Views.{has_orders, neighbors, incoming_neighbors}
use solver.Cycle.Simulate.{simulate_full_cycle}

-- The cycle runs from the first token to the second, to the third and back.
abbrev pub Triangle : Type 0
Triangle = TokenId × TokenId × TokenId

unfoldable pub canonical : TokenId → TokenId → TokenId → Triangle
canonical a b c =
    if leb a b && leb a c then (a, b, c) else if leb b a && leb b c then (b, c, a) else (c, a, b)

unfoldable pub pairs : Triangle → List Pair
pairs t = (t.0, t.1) ∷ (t.1, t.2) ∷ (t.2, t.0) ∷ []

pub record CycleEntry : Type 0 where
  pub triangle : Triangle
  pub order_ab : OrderId
  pub order_bc : OrderId
  pub order_ca : OrderId
  pub surplus_usd : ℕ

-- `checked_mul` of `u128`
unfoldable pub checked_mul : ℕ → ℕ → Option ℕ
checked_mul a b = if ltb (a * b) u128_mod then some (a * b) else none

unfoldable pub triple_product : ℕ → ℕ → ℕ → Option ℕ
triple_product a b c = checked_mul a b >>= λ p. checked_mul p c

-- The pre-filter: both products can be computed, and the offers do not exceed the requests.
unfoldable pub is_unprofitable : Order → Order → Order → Bool
is_unprofitable order_ab order_bc order_ca =
    elim (triple_product order_ab.offered order_bc.offered order_ca.offered) [
      | none ↦ false
      | some lhs ↦ elim (triple_product order_ab.requested order_bc.requested order_ca.requested) [
        | none ↦ false
        | some rhs ↦ leb lhs rhs
      ]
    ]

unfoldable pub entry_of : OrderBook → Triangle → Order → Order → Order → Option CycleEntry
entry_of book triangle order_ab order_bc order_ca =
    if is_unprofitable order_ab order_bc order_ca
    then none
    else simulate_full_cycle book order_ab.id order_bc.id order_ca.id >>= λ simulation.
        if simulation.surplus_usd == 0
        then none
        else some (record {
          triangle = triangle;
          order_ab = order_ab.id;
          order_bc = order_bc.id;
          order_ca = order_ca.id;
          surplus_usd = simulation.surplus_usd;
        })

-- Each `best_order` may prune the book, also where a later one finds nothing.
unfoldable pub try_build_entry : OrderBook → Triangle → OrderBook × Option CycleEntry
try_build_entry book triangle =
    let (book_1, best_ab) = best_order book triangle.0 triangle.1 in
    elim best_ab [
      | none ↦ (book_1, none)
      | some order_ab ↦
          let (book_2, best_bc) = best_order book_1 triangle.1 triangle.2 in
          elim best_bc [
            | none ↦ (book_2, none)
            | some order_bc ↦
                let (book_3, best_ca) = best_order book_2 triangle.2 triangle.0 in
                elim best_ca [
                  | none ↦ (book_3, none)
                  | some order_ca ↦ (book_3, entry_of book_3 triangle order_ab order_bc order_ca)
                ]
          ]
    ]

abbrev pub ByPair : Type 0
ByPair = Map Pair (List Triangle)

-- The variables of `enumerate_triangles`.
pub record Enumeration : Type 0 where
  pub book : OrderBook
  pub seen : List Triangle
  pub entries : List CycleEntry
  pub triangles_by_pair : ByPair

unfoldable pub push_pairs : Triangle → List Pair → ByPair → ByPair
push_pairs triangle [] by_pair = by_pair
push_pairs triangle (pair ∷ ps) by_pair =
    push_pairs triangle ps (update_entry pair [] (λ ts. ts ++ triangle ∷ []) by_pair)

unfoldable pub visit_triangle : Enumeration → Triangle → Enumeration
visit_triangle e triangle =
    let (book', built) = try_build_entry e.book triangle in
    if contains triangle e.seen then e else elim built [
      | none ↦ record e { book = book'; seen = e.seen ++ triangle ∷ [] }
      | some entry ↦ record {
        book = book';
        seen = e.seen ++ triangle ∷ [];
        entries = e.entries ++ entry ∷ [];
        triangles_by_pair = push_pairs triangle (pairs triangle) e.triangles_by_pair;
      }
    ]

unfoldable pub visit_outgoing : TokenId → TokenId → List TokenId → Enumeration → Enumeration
visit_outgoing token_a token_b [] e = e
visit_outgoing token_a token_b (token_c ∷ outgoing) e = visit_outgoing token_a token_b outgoing (
    if token_c == token_a || token_c == token_b
    then e
    else if not (has_orders e.book token_c token_a)
    then e
    else visit_triangle e (canonical token_a token_b token_c))

unfoldable pub visit_incoming : TokenId → List TokenId → List TokenId → Enumeration → Enumeration
visit_incoming token_b [] outgoing e = e
visit_incoming token_b (token_a ∷ incoming) outgoing e =
    visit_incoming token_b incoming outgoing (visit_outgoing token_a token_b outgoing e)

unfoldable pub visit_tokens : List TokenId → Enumeration → Enumeration
visit_tokens [] e = e
visit_tokens (token_b ∷ tokens) e =
    visit_tokens tokens
      (visit_incoming token_b (incoming_neighbors e.book token_b) (neighbors e.book token_b) e)

unfoldable pub enumerate_triangles : OrderBook → Enumeration
enumerate_triangles book =
    visit_tokens book.tokens
      (record { book = book; seen = []; entries = []; triangles_by_pair = [] })
