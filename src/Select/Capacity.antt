-- ===== src/Select/Capacity.antt =====
-- No DEX is asked for more than its quotes supply.
use solver.Prelude.{
  ℕ, zero, suc, ◌+◌, ◌-◌, ◌≤◌, ◌≡◌, refl, sym, eq_of_some, some, none, List, [], ◌∷◌, ◌++◌, inl,
  inr, arith, get_elem?, Option-cases, ◌==◌, nat_eq, if◌then◌else◌,
}
use solver.Order.{Order, DexId, Amount}
use solver.Book.{Pair}
use solver.Select.{
  Quote, Slot, Pick, slots_of, choose, deduct, pick_of, assign, assign_all, match_pair,
}
use solver.Select.Chosen.{choose-Fits, dex_at_found}

-- `amount` if the two ids are one, and nothing otherwise.
share : DexId → DexId → Amount → Amount
share d dex amount = if dex == d then amount else 0

-- What the quotes of a DEX supply, what is left of them, and what its picks take.
pub supplied : DexId → List Quote → Amount
supplied d [] = 0
supplied d (q ∷ qs) = share d q.dex q.supply + supplied d qs

left_over : DexId → List Slot → Amount
left_over d [] = 0
left_over d ((q, left) ∷ slots) = share d q.dex left + left_over d slots

pub taken : DexId → List Pick → Amount
taken d [] = 0
taken d (p ∷ ps) = share d p.dex p.fill + taken d ps

taken-append : (d : DexId) (xs ys : List Pick) → taken d (xs ++ ys) ≡ taken d xs + taken d ys
unfolding taken
taken-append d [] ys = omega arith
taken-append d (x ∷ xs) ys = omega (arith, taken-append d xs ys)

left_over-slots_of : (d : DexId) (qs : List Quote) → left_over d (slots_of qs) ≡ supplied d qs
unfolding left_over slots_of supplied
left_over-slots_of d [] = refl
left_over-slots_of d (q ∷ qs) = omega (arith, left_over-slots_of d qs)

share-sub :
    (d dex left need : ℕ)
    → need ≤ left
    → share d dex (left - need) + share d dex need ≡ share d dex left
unfolding share
share-sub d dex left need h = ground arith

left_over-deduct :
    (d : DexId) (slots : List Slot) (i : ℕ) (s : Slot) (need : Amount)
    → get_elem? slots i ≡ some s
    → need ≤ s.1
    → left_over d (deduct i need slots) + share d s.0.dex need ≡ left_over d slots
unfolding left_over deduct
left_over-deduct d [] i s need h room = absurd (cc)
left_over-deduct d ((q, left) ∷ slots) zero s need h room =
    let same : s ≡ (q, left) = sym (eq_of_some h) in
    rw same (omega (arith, share-sub d q.dex left need (rw same at room)))
left_over-deduct d ((q, left) ∷ slots) (suc i) s need h room =
    omega (arith, left_over-deduct d slots i s need h room)

assign-tally :
    (d : DexId) (pair : Pair) (time : ℕ) (note : Order) (slots : List Slot)
    → left_over d (assign pair time note slots).0 + taken d (assign pair time note slots).1
      ≡ left_over d slots
unfolding assign taken pick_of
assign-tally d pair time note slots = elim (Option-cases (choose note time slots 0 none)) [
  | inl e ↦ rw (e, assign) (omega arith)
  | inr (i, e) ↦
      let f = choose-Fits note time slots e in
      rw (e, dex_at_found slots i f.slot f.found, assign)
        (omega (arith, left_over-deduct d slots i f.slot note.requested f.found f.room))
]

assign_all-tally :
    (d : DexId) (pair : Pair) (time : ℕ) (notes : List Order) (slots : List Slot)
    → left_over d (assign_all pair time notes slots).0
        + taken d (assign_all pair time notes slots).1
      ≡ left_over d slots
unfolding assign_all taken
assign_all-tally d pair time [] slots = omega arith
assign_all-tally d pair time (note ∷ notes) slots =
    let first = assign-tally d pair time note slots in
    let rest = assign_all-tally d pair time notes (assign pair time note slots).0 in
    omega (
      arith,
      first,
      rest,
      taken-append d (assign pair time note slots).1
          (assign_all pair time notes (assign pair time note slots).0).1,
    )

-- The picks of a pair ask no DEX for more than its quotes for the pair supply, however many notes
-- each of its quotes serves.
pub match_pair-capacity :
    (d : DexId) (pair : Pair) (notes : List Order) (quotes : List Quote) (time : ℕ)
    → taken d (match_pair pair notes quotes time).picks ≤ supplied d quotes
unfolding match_pair
match_pair-capacity d pair notes quotes time =
    omega (arith, assign_all-tally d pair time notes (slots_of quotes), left_over-slots_of d quotes)
