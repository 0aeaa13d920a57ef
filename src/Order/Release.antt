-- ===== src/Order/Release.antt =====
-- `min_fill_for_release` is the upper inverse of `offered_for`.
use native.Mathlib.Nat.{
  mul-le-mul_left, mul-lt-mul_of_pos_left, mul-lt-mul_of_pos_right, mul-div-le, lt-mul-div-succ,
  mod-eq_of_lt,
}
use native.Mathlib.Decide.{dec_lt}
use solver.Prelude.{
  ℕ, ◌+◌, ◌*◌, ◌/◌, ◌^◌, ◌<◌, ◌≤◌, ◌≡◌, ◌↔◌, inl, inr, min, leb, ◌==◌, nat_eq, Bool-cases,
  if◌then◌else◌, arith, as_u64, le_div, mul_le_of_le_div, div_lt,
}
use solver.Order.{Order, Amount, IsValid, offered_for, min_fill_for_release}
use solver.Order.Fill.{offered_for-eq}

-- The value at `q` or just above it, as the code rounds.
round_up : Order → Amount → ℕ → Amount
round_up o target q = if leb target (offered_for o q) then q else min (as_u64 (q + 1)) o.requested

module _ (o : Order) (v : IsValid o) where
  -- To release `target` is a linear condition on the fill.
  releases_iff :
      (target f : Amount)
      → f ≤ o.requested
      → (target ≤ offered_for o f) ↔ (target * o.requested ≤ o.offered * f)
  releases_iff target f h = rw (offered_for-eq o v f h) (
    λ r. omega (arith, mul_le_of_le_div target (o.offered * f) o.requested v.requested_pos r),
    le_div target (o.offered * f) o.requested v.requested_pos,
  )

  -- `m` is the least number that meets the condition.
  record IsCeiling (target m : ℕ) : Type 0 where
    within : m ≤ o.requested
    enough : target * o.requested ≤ o.offered * m
    least : (f : ℕ) → f < m → o.offered * f < target * o.requested

  below : (m f : ℕ) → f < m → o.offered * f < o.offered * m
  below m f h = mul-lt-mul_of_pos_left h v.offered_pos

  full-IsCeiling : (target : Amount) → target ≡ o.offered → IsCeiling target o.requested
  full-IsCeiling target e = record {
    within = omega arith;
    enough = rw e (omega arith);
    least = λ f h. rw e (below o.requested f h);
  }

  module _ (target : Amount) (part : target < o.offered) where
    abbrev floor : ℕ
    floor = target * o.requested / o.offered

    floor-lt : floor < o.requested
    floor-lt =
        div_lt o.requested (target * o.requested) o.offered v.offered_pos
          (omega (arith, mul-lt-mul_of_pos_right part v.requested_pos))

    floor-clamp : min (as_u64 floor) o.requested ≡ floor
    floor-clamp =
        let word : as_u64 floor ≡ floor =
          mod-eq_of_lt (omega (arith, floor-lt, v.requested_word)) in
        rw word (omega (arith, floor-lt))

    missed : offered_for o floor < target → o.offered * floor < target * o.requested
    missed short = elim (dec_lt (o.offered * floor) (target * o.requested)) [
      | yes p ↦ p
      | no p ↦
          let enough = (releases_iff target floor (omega (arith, floor-lt))).1 (omega arith) in
          absurd (omega arith)
    ]

    round_up-IsCeiling : IsCeiling target (round_up o target floor)
    unfolding round_up
    round_up-IsCeiling = elim (Bool-cases (leb target (offered_for o floor))) [
      | inl e ↦ rw e (record {
        within = omega (arith, floor-lt);
        enough = (releases_iff target floor (omega (arith, floor-lt))).0 (ground arith);
        least = λ f h. omega (arith, below floor f h, mul-div-le (target * o.requested) o.offered);
      })
      | inr e ↦
          let next : min (as_u64 (floor + 1)) o.requested ≡ floor + 1 =
            rw
              (mod-eq_of_lt {n = floor + 1} {m = 2 ^ 64}
                (omega (arith, floor-lt, v.requested_word)))
              (omega (arith, floor-lt)) in
          rw (e, next)
            (record {
              within = omega (arith, floor-lt);
              enough = omega (arith, lt-mul-div-succ (target * o.requested) v.offered_pos);
              least = λ f h.
                  let at_most : o.offered * f ≤ o.offered * floor =
                    mul-le-mul_left o.offered (omega arith) in
                  omega (arith, at_most, missed (ground arith));
            })
    ]

  min_fill-IsCeiling :
      (target : Amount) → target ≤ o.offered → IsCeiling target (min_fill_for_release o target)
  unfolding min_fill_for_release round_up
  min_fill-IsCeiling target h = elim (Bool-cases (target == 0)) [
    | inl z ↦
        let zero_target : target ≡ 0 = ground arith in
        rw z (record {
          within = omega arith;
          enough = rw zero_target (omega arith);
          least = λ f p. elim p [ ];
        })
    | inr n ↦ rw n (elim (Bool-cases (leb o.offered target)) [
      | inl all ↦ rw all (full-IsCeiling target (ground arith))
      | inr part ↦
          let less : target < o.offered = ground arith in
          rw (part, floor-clamp target less) (round_up-IsCeiling target less)
    ])
  ]

-- For a valid order, a fill up to its whole request releases at least a target up to its whole offer
-- exactly when the fill is no less than `min_fill_for_release`: that one is enough, and the least.
pub min_fill_for_release_iff :
    (o : Order) (target f : Amount)
    → IsValid o
    → target ≤ o.offered
    → f ≤ o.requested
    → (min_fill_for_release o target ≤ f) ↔ (target ≤ offered_for o f)
min_fill_for_release_iff o target f v h k =
    let c = min_fill-IsCeiling o v target h in
    let linear = releases_iff o v target f k in
    (
      λ le. linear.1 (omega (arith, c.enough, mul-le-mul_left o.offered le)),
      λ r. elim (dec_lt f (min_fill_for_release o target)) [
        | yes less ↦ absurd (omega (arith, c.least f less, linear.0 r))
        | no more ↦ omega arith
      ],
    )
