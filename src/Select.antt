-- ===== src/Select.antt =====
-- crates/solver/src/router/select.rs: which unmatched notes go to which DEX. The vector `remaining`
-- runs beside the quotes, so the two are one list of slots here.
pub mod Chosen
pub mod Capacity
pub mod Willing
use solver.Prelude.{
  ℕ, suc, ◌+◌, ◌-◌, ◌*◌, Bool, ◌||◌, not, Option, none, some, List, [], ◌∷◌, ◌++◌, leb, ◌==◌,
  nat_eq, pair_eq, if◌then◌else◌, get_or,
}
use solver.Prelude.Maps.{Map, get}
use solver.Order.{Order, OrderId, DexId, Amount}
use solver.Book.{Pair}

pub record Rate : Type 0 where
  pub requested : Amount
  pub offered : Amount

pub record Quote : Type 0 where
  pub dex : DexId
  pub pair : Pair
  pub supply : Amount
  pub demand : Amount
  pub expires_at : ℕ

pub record Pick : Type 0 where
  pub dex : DexId
  pub note_id : OrderId
  pub fill : Amount
  pub pair : Pair
  pub price : Rate

pub record PairMatch : Type 0 where
  pub picks : List Pick
  pub clearing : Option Rate

unfoldable pub crosses : Order → Quote → Bool
crosses note quote = leb (note.requested * quote.demand) (quote.supply * note.offered)

-- A quote, and what it can still supply in this batch.
abbrev pub Slot : Type 0
Slot = Quote × Amount

unfoldable pub slots_of : List Quote → List Slot
slots_of [] = []
slots_of (q ∷ qs) = (q, q.supply) ∷ slots_of qs

unfoldable pub is_unusable : Quote → ℕ → Bool
is_unusable q time = leb q.expires_at time || q.supply == 0 || q.demand == 0

-- The inner loop, from index `i` on.
unfoldable pub choose : Order → ℕ → List Slot → ℕ → Option ℕ → Option ℕ
choose note time [] i chosen = chosen
choose note time ((q, left) ∷ slots) i chosen =
    let skipped = choose note time slots (suc i) chosen in
    let looked =
      choose note time slots (suc i) (if leb note.requested left then some i else chosen) in
    if is_unusable q time then skipped else if not (crosses note q) then chosen else looked

-- `remaining[i] -= need`
unfoldable pub deduct : ℕ → Amount → List Slot → List Slot
deduct i need [] = []
deduct i need ((q, left) ∷ slots) = elim i [
  | ℕ.zero ↦ (q, left - need) ∷ slots
  | ℕ.suc j ↦ (q, left) ∷ deduct j need slots
]

-- `quotes[i].dex`
unfoldable pub dex_at : ℕ → List Slot → Option DexId
dex_at i [] = none
dex_at i ((q, left) ∷ slots) = elim i [ ℕ.zero ↦ some q.dex | ℕ.suc j ↦ dex_at j slots ]

unfoldable pub pick_of : Pair → Order → DexId → Pick
pick_of pair note dex = record {
  dex = dex;
  note_id = note.id;
  fill = note.requested;
  pair = pair;
  price = record { requested = note.requested; offered = note.offered };
}

-- One note: the slots that it leaves, and its pick. An index from `choose` is that of a slot.
unfoldable pub assign : Pair → ℕ → Order → List Slot → List Slot × List Pick
assign pair time note slots = elim (choose note time slots 0 none) [
  | none ↦ (slots, [])
  | some i ↦ elim (dex_at i slots) [
    | none ↦ (slots, [])
    | some dex ↦ (deduct i note.requested slots, pick_of pair note dex ∷ [])
  ]
]

unfoldable pub assign_all : Pair → ℕ → List Order → List Slot → List Slot × List Pick
assign_all pair time [] slots = (slots, [])
assign_all pair time (note ∷ notes) slots =
    let (slots', picks) = assign pair time note slots in
    let (slots'', rest) = assign_all pair time notes slots' in (slots'', picks ++ rest)

unfoldable pub match_pair : Pair → List Order → List Quote → ℕ → PairMatch
match_pair pair notes quotes time = record {
  picks = (assign_all pair time notes (slots_of quotes)).1;
  clearing = none;
}

unfoldable pub select_from : Map Pair (List Order) → Map Pair (List Quote) → ℕ → List Pick
select_from notes_by_pair [] time = []
select_from notes_by_pair ((pair, quotes) ∷ rest) time =
    (match_pair pair (get_or (get pair notes_by_pair) []) quotes time).picks
    ++ select_from notes_by_pair rest time

unfoldable pub select_notes : Map Pair (List Order) → Map Pair (List Quote) → ℕ → List Pick
select_notes notes_by_pair quotes_by_pair time = select_from notes_by_pair quotes_by_pair time
