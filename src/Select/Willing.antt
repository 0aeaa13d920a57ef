-- ===== src/Select/Willing.antt =====
-- A note goes only to a DEX that has a live quote whose rate accepts the note's, and whole.
use solver.Prelude.{
  ℕ, zero, suc, ◌*◌, ◌<◌, ◌≤◌, ◌≡◌, refl, some, none, List, [], ◌∷◌, inl, inr, arith, get_elem?,
  Option-cases, All, All-append, In, sym, eq_of_some,
}
use solver.Order.{Order}
use solver.Book.{Pair}
use solver.Select.{
  Quote, Slot, Pick, slots_of, choose, deduct, pick_of, assign, assign_all, match_pair, is_unusable,
  crosses,
}
use solver.Select.Chosen.{Fits, choose-Fits, dex_at_found}

-- Some quote of the DEX is alive at the time, offers both amounts, and accepts the pick's rate.
pub record IsWilling (pair : Pair) (notes : List Order) (quotes : List Quote) (time : ℕ) (p : Pick)
    : Type 0 where
  pub quote : Quote
  pub quoted : In quote quotes
  pub dex : p.dex ≡ quote.dex
  pub alive : time < quote.expires_at
  pub supplies : 0 < quote.supply
  pub demands : 0 < quote.demand
  pub accepts : p.price.requested * quote.demand ≤ quote.supply * p.price.offered
  pub pair_kept : p.pair ≡ pair
  pub note : Order
  pub noted : In note notes
  pub note_id : p.note_id ≡ note.id
  pub whole : p.fill ≡ note.requested
  pub own_rate : (p.price.requested ≡ note.requested) × (p.price.offered ≡ note.offered)

-- The slots hold quotes of the list.
abbrev AreQuoted : List Quote → List Slot → Type 0
AreQuoted quotes slots = All (λ (s : Slot). In s.0 quotes) slots

found-In :
    (quotes : List Quote) (slots : List Slot) (i : ℕ) (s : Slot)
    → AreQuoted quotes slots
    → get_elem? slots i ≡ some s
    → In s.0 quotes
found-In quotes [] i s a h = absurd (cc)
found-In quotes (x ∷ slots) zero s a h = let same : s ≡ x = sym (eq_of_some h) in rw same a.0
found-In quotes (x ∷ slots) (suc i) s a h = found-In quotes slots i s a.1 h

deduct-AreQuoted :
    (quotes : List Quote) (i need : ℕ) (slots : List Slot)
    → AreQuoted quotes slots
    → AreQuoted quotes (deduct i need slots)
unfolding deduct
deduct-AreQuoted quotes i need [] a = tt
deduct-AreQuoted quotes zero need ((q, left) ∷ slots) a = a
deduct-AreQuoted quotes (suc i) need ((q, left) ∷ slots) a =
    (a.0, deduct-AreQuoted quotes i need slots a.1)

slots_of-AreQuoted :
    (all quotes : List Quote)
    → ((q : Quote) → In q quotes → In q all)
    → AreQuoted all (slots_of quotes)
unfolding slots_of
slots_of-AreQuoted all [] f = tt
slots_of-AreQuoted all (q ∷ quotes) f =
    (f q (inl refl), slots_of-AreQuoted all quotes (λ p m. f p (inr m)))

pick-IsWilling :
    (pair : Pair) (notes : List Order) (quotes : List Quote) (time : ℕ) (note : Order)
    (slots : List Slot) (i : ℕ)
    → In note notes
    → AreQuoted quotes slots
    → (f : Fits note time slots i)
    → IsWilling pair notes quotes time (pick_of pair note f.slot.0.dex)
unfolding pick_of is_unusable crosses
pick-IsWilling pair notes quotes time note slots i m a f =
    let live = f.usable in
    let accepted = f.accepts in
    record {
      quote = f.slot.0;
      quoted = found-In quotes slots i f.slot a f.found;
      dex = refl;
      alive = ground (arith, live);
      supplies = ground (arith, live);
      demands = ground (arith, live);
      accepts = ground (arith, accepted);
      pair_kept = refl;
      note = note;
      noted = m;
      note_id = refl;
      whole = refl;
      own_rate = (refl, refl);
    }

module _ (pair : Pair) (all : List Order) (quotes : List Quote) (time : ℕ) where
  record Assigned (r : List Slot × List Pick) : Type 0 where
    slots : AreQuoted quotes r.0
    picks : All (IsWilling pair all quotes time) r.1

  assign-Assigned :
      (note : Order) (slots : List Slot)
      → In note all
      → AreQuoted quotes slots
      → Assigned (assign pair time note slots)
  unfolding assign
  assign-Assigned note slots m a = elim (Option-cases (choose note time slots 0 none)) [
    | inl e ↦ rw (e, assign) (record { slots = a; picks = tt })
    | inr (i, e) ↦
        let f = choose-Fits note time slots e in
        rw (e, dex_at_found slots i f.slot f.found, assign)
          (record {
            slots = deduct-AreQuoted quotes i note.requested slots a;
            picks = (pick-IsWilling pair all quotes time note slots i m a f, tt);
          })
  ]

  assign_all-Assigned :
      (notes : List Order) (slots : List Slot)
      → ((n : Order) → In n notes → In n all)
      → AreQuoted quotes slots
      → Assigned (assign_all pair time notes slots)
  unfolding assign_all
  assign_all-Assigned [] slots within a = record { slots = a; picks = tt }
  assign_all-Assigned (note ∷ notes) slots within a =
      let first = assign-Assigned note slots (within note (inl refl)) a in
      let rest =
        assign_all-Assigned notes (assign pair time note slots).0 (λ n m. within n (inr m))
          first.slots in
      record {
        slots = rest.slots;
        picks = All-append (IsWilling pair all quotes time) _ _ first.picks rest.picks;
      }

-- Every pick hands a note of the list, whole and at its own rate, to a DEX one of whose quotes for
-- the pair is alive, has two positive amounts, and accepts that rate.
pub match_pair-IsWilling :
    (pair : Pair) (notes : List Order) (quotes : List Quote) (time : ℕ)
    → All (IsWilling pair notes quotes time) (match_pair pair notes quotes time).picks
unfolding match_pair
match_pair-IsWilling pair notes quotes time =
    let r =
      assign_all-Assigned pair notes quotes time notes (slots_of quotes) (λ n m. m)
        (slots_of-AreQuoted quotes quotes (λ q m. m)) in
    r.picks
