-- ===== src/Router/Complete.antt =====
-- On quotes in the order that the router publishes, selection misses no note that a quote can take:
-- the loop may stop at the first quote that refuses the note's rate.
use solver.Prelude.{
  ℕ, suc, ◌*◌, ◌<◌, ◌≤◌, ◌≡◌, refl, true, false, Option, some, none, List, [], ◌∷◌, inl, inr, In,
  All, Bool-cases, arith, leb, nat_eq,
}
use native.Mathlib.Nat.{le_of_mul-le-mul_right, mul-le-mul_right}
use solver.Order.{Order, DexId}
use solver.Book.{Pair}
use solver.Select.{Quote, Slot, crosses, is_unusable, choose, pick_of, assign}
use solver.Select.Chosen.{choose-Fits, dex_at_found}
use solver.Router.Sorting.{Leads}

-- No slot's quote is more generous than one before it.
abbrev pub AreDescending : List Slot → Type 0
AreDescending [] = Unit
AreDescending ((q, left) ∷ slots) = All (λ (s : Slot). Leads q s.0) slots × AreDescending slots

-- The slot can take the note: its quote is usable, accepts the rate, and has room.
pub record IsTaker (note : Order) (time : ℕ) (s : Slot) : Type 0 where
  pub usable : is_unusable s.0 time ≡ false
  pub accepts : crosses note s.0 ≡ true
  pub room : note.requested ≤ s.1

usable-demand : (q : Quote) (time : ℕ) → is_unusable q time ≡ false → 0 < q.demand
unfolding is_unusable
usable-demand q time h = ground arith

-- A quote that is no less generous accepts what the other accepts.
crosses-Leads :
    (note : Order) (q r : Quote)
    → Leads q r
    → 0 < r.demand
    → crosses note r ≡ true
    → crosses note q ≡ true
unfolding crosses
crosses-Leads note q r h pos c =
    let taken : note.requested * r.demand ≤ r.supply * note.offered = ground arith in
    let taken_too : note.requested * q.demand ≤ q.supply * note.offered =
      le_of_mul-le-mul_right {k = r.demand}
        (omega (arith, mul-le-mul_right q.demand taken, mul-le-mul_right note.offered h)) pos in
    ground arith

Leads-In :
    (q : Quote) (slots : List Slot) (s : Slot)
    → All (λ (x : Slot). Leads q x.0) slots
    → In s slots
    → Leads q s.0
Leads-In q [] s a m = elim m [ ]
Leads-In q (x ∷ slots) s a (inl e) = rw e a.0
Leads-In q (x ∷ slots) s a (inr m) = Leads-In q slots s a.1 m

module _ (note : Order) (time : ℕ) where
  choose-kept :
      (slots : List Slot) (i c : ℕ) → (k : ℕ) × (choose note time slots i (some c) ≡ some k)
  unfolding choose
  choose-kept [] i c = (c, refl)
  choose-kept ((q, left) ∷ slots) i c = elim (Bool-cases (is_unusable q time)) [
    | inl e ↦ rw (e, choose) (choose-kept slots (suc i) c)
    | inr e ↦ elim (Bool-cases (crosses note q)) [
      | inr h ↦ rw (e, h, choose) (c, refl)
      | inl h ↦ elim (Bool-cases (leb note.requested left)) [
        | inl r ↦ rw (e, h, r, choose) (choose-kept slots (suc i) i)
        | inr r ↦ rw (e, h, r, choose) (choose-kept slots (suc i) c)
      ]
    ]
  ]

  choose-found :
      (slots : List Slot) (i : ℕ) (chosen : Option ℕ) (s : Slot)
      → AreDescending slots
      → In s slots
      → IsTaker note time s
      → (k : ℕ) × (choose note time slots i chosen ≡ some k)
  unfolding choose
  choose-found [] i chosen s d m f = elim m [ ]
  choose-found ((q, left) ∷ slots) i chosen s d (inl e) f =
      let usable : is_unusable q time ≡ false = rw e at f.usable in
      let accepts : crosses note q ≡ true = rw e at f.accepts in
      let room : note.requested ≤ left = rw e at f.room in
      let fits : leb note.requested left ≡ true = ground arith in
      rw (usable, accepts, fits, choose) (choose-kept slots (suc i) i)
  choose-found ((q, left) ∷ slots) i chosen s d (inr m) f = elim (Bool-cases (is_unusable q time)) [
    | inl e ↦ rw (e, choose) (choose-found slots (suc i) chosen s d.1 m f)
    | inr e ↦
        let accepts : crosses note q ≡ true =
          crosses-Leads note q s.0 (Leads-In q slots s d.0 m) (usable-demand s.0 time f.usable)
            f.accepts in
        elim (Bool-cases (leb note.requested left)) [
          | inl r ↦ rw (e, accepts, r, choose) (choose-found slots (suc i) (some i) s d.1 m f)
          | inr r ↦ rw (e, accepts, r, choose) (choose-found slots (suc i) chosen s d.1 m f)
        ]
  ]

-- Where the quotes of the slots descend in generosity and some slot can take a note, the note is
-- picked, for a DEX.
pub assign-picks :
    (pair : Pair) (time : ℕ) (note : Order) (slots : List Slot) (s : Slot)
    → AreDescending slots
    → In s slots
    → IsTaker note time s
    → (dex : DexId) × ((assign pair time note slots).1 ≡ pick_of pair note dex ∷ [])
unfolding assign
assign-picks pair time note slots s d m f =
    let (k, e) = choose-found note time slots 0 none s d m f in
    let fit = choose-Fits note time slots e in
    let at = dex_at_found slots k fit.slot fit.found in (fit.slot.0.dex, rw (e, at, assign))
