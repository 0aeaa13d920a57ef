-- ===== src/Order/Fill.antt =====
-- What a fill releases: within the order's offer, monotone, and no more in parts than at once.
use native.Mathlib.Nat.{mul-le-mul_left, mul-div_cancel, mod-eq_of_lt, mul-add}
use solver.Prelude.{
  ℕ, ◌+◌, ◌-◌, ◌*◌, ◌/◌, ◌≤◌, ◌≡◌, min, List, [], ◌∷◌, arith, div_mono, div-add-le,
}
use solver.Order.{
  Order, Amount, IsValid, calculate_output_amount, offered_for, offered_remaining, fill,
}

module _ (o : Order) (v : IsValid o) where
  share-le : (f : ℕ) → f ≤ o.requested → o.offered * f / o.requested ≤ o.offered
  share-le f h = omega (
    arith,
    div_mono (o.offered * f) (o.offered * o.requested) o.requested v.requested_pos
        (mul-le-mul_left o.offered h),
    mul-div_cancel o.offered v.requested_pos,
  )

  -- Up to the whole request the cast to `u64` keeps the value.
  pub offered_for-eq : (f : ℕ) → f ≤ o.requested → offered_for o f ≡ o.offered * f / o.requested
  unfolding offered_for calculate_output_amount
  offered_for-eq f h = mod-eq_of_lt (omega (arith, share-le f h, v.offered_word))

  pub offered_for-le : (f : ℕ) → f ≤ o.requested → offered_for o f ≤ o.offered
  offered_for-le f h = omega (arith, share-le f h, offered_for-eq f h)

  pub offered_for_mono : (f g : ℕ) → f ≤ g → g ≤ o.requested → offered_for o f ≤ offered_for o g
  offered_for_mono f g h k = omega (
    arith,
    offered_for-eq f (omega arith),
    offered_for-eq g k,
    div_mono (o.offered * f) (o.offered * g) o.requested v.requested_pos
        (mul-le-mul_left o.offered h),
  )

  -- The whole request releases the whole offer.
  pub offered_for-requested : offered_for o o.requested ≡ o.offered
  offered_for-requested =
      omega
        (arith, offered_for-eq o.requested (omega arith), mul-div_cancel o.offered v.requested_pos)

  -- Two parts release no more than their sum.
  pub offered_for-add-le :
      (f g : ℕ) → f + g ≤ o.requested → offered_for o f + offered_for o g ≤ offered_for o (f + g)
  offered_for-add-le f g h =
      rw
        (
          offered_for-eq f (omega arith),
          offered_for-eq g (omega arith),
          offered_for-eq (f + g) h,
          mul-add o.offered f g,
        )
        (div-add-le (o.offered * f) (o.offered * g) o.requested v.requested_pos)

  pub fill-IsValid : (x : Amount) → IsValid (fill o x).0
  unfolding fill
  fill-IsValid x =
      omega
        (arith, v.offered_pos, v.requested_pos, v.offered_word, v.requested_word, v.remaining_le)

-- A sequence of fills: the order that they leave, and what they release together.
abbrev pub fills : Order → List Amount → Order × Amount
fills o [] = (o, 0)
fills o (x ∷ xs) =
    let (o', released) = fill o x in let (o'', rest) = fills o' xs in (o'', released + rest)

-- However a valid order is filled in parts, what the parts release and what a fill of the rest would
-- release are together no more than one fill of all that was left; and no more is left than before.
pub fills-release :
    (o : Order) (xs : List Amount)
    → IsValid o
    → (offered_for o ((fills o xs).0.requested_remaining) + (fills o xs).1 ≤ offered_remaining o)
      × ((fills o xs).0.requested_remaining ≤ o.requested_remaining)
unfolding fill offered_for offered_remaining
fills-release o [] v = omega arith
fills-release o (x ∷ xs) v =
    let rest = fills-release (fill o x).0 xs (fill-IsValid o v x) in
    let filled : ℕ = min x o.requested_remaining in
    let parts =
      offered_for-add-le o v (o.requested_remaining - filled) filled
        (omega (arith, v.remaining_le)) in
    let whole : o.requested_remaining - filled + filled ≡ o.requested_remaining = omega arith in
    let bound = rw whole at parts in omega (arith, rest, bound)
