-- ===== src/Mirror.antt =====
-- crates/mock-mirror/src/mirror.rs: the counter-order of the devnet harness.
use native.Mathlib.Nat.{
  mul-le-mul_left, mul-le-mul_right, le_of_mul-le-mul_right, lt_of_mul-lt-mul_right,
  mul-lt-mul_of_pos_right, div-mul-le_self, mod-eq_of_lt, mul-pos,
}
use solver.Prelude.{
  ap, sym, ◌∙◌, ℕ, ◌-◌, ◌*◌, ◌/◌, ◌<◌, ◌≤◌, ◌≡◌, ◌||◌, Option, some, none, min, ◌==◌, nat_eq,
  if◌then◌else◌, as_u64, u64_mod, arith,
}
use solver.Order.{Amount}

unfoldable pub mul_div : ℕ → ℕ → ℕ → ℕ
mul_div a num den = as_u64 (a * num / den)

-- The two guards before the counter-order is handed out.
unfoldable pub counter_of : ℕ → ℕ → ℕ → Option (Amount × Amount)
counter_of counter_offered scaled_a counter_requested =
    if counter_offered == 0 || scaled_a == 0
    then none
    else if counter_requested == 0
    then none
    else some (counter_offered, counter_requested)

unfoldable pub favorable_counter : Amount → Amount → ℕ → ℕ → ℕ → Option (Amount × Amount)
unfolding mul_div
favorable_counter offered requested spread_bps fill_num fill_den =
    let counter_offered = mul_div requested fill_num fill_den in
    let scaled_a = mul_div offered fill_num fill_den in
    counter_of counter_offered scaled_a
      (min (mul_div scaled_a (10000 - spread_bps) 10000) (scaled_a - 1))

-- A fraction of at most one of `a`, rounded down, is no more than `a`.
part_le : (a num den : ℕ) → 0 < den → num ≤ den → a * num / den ≤ a
part_le a num den pos part =
    le_of_mul-le-mul_right {k = den}
      (omega (arith, div-mul-le_self (a * num) den, mul-le-mul_left a part)) pos

counter_of-cases :
    (co sa cr : ℕ) {c : Amount} {r : Amount}
    → counter_of co sa cr ≡ some (c, r)
    → ((co ≡ c) × (cr ≡ r)) × ((0 < co) × (0 < sa))
unfolding counter_of
counter_of-cases co sa cr e = ground arith

strict :
    (o r num den g t c : ℕ)
    → 0 < den
    → 0 < g
    → g * den ≡ r * num
    → t * den ≤ o * num
    → c < t
    → r * c < o * g
strict o r num den g t c pos some_given exact cover less =
    let ahead : c * (g * den) < t * (g * den) =
      mul-lt-mul_of_pos_right less (mul-pos some_given pos) in
    let whole : (g * den) * c ≡ (r * num) * c = ap (λ x. x * c) exact in
    lt_of_mul-lt-mul_right num (omega (arith, ahead, whole, mul-le-mul_right g cover))

-- A counter-order for a fraction of at most one of `u64` amounts, where there is one, clears the
-- matcher's strict gate against the user's order, if the fraction of the request is a whole amount.
pub favorable_counter-clears :
    (offered requested spread_bps fill_num fill_den : ℕ) {counter_offered : Amount}
    {counter_requested : Amount}
    → 0 < fill_den
    → fill_num ≤ fill_den
    → requested < u64_mod
    → offered < u64_mod
    → requested * fill_num / fill_den * fill_den ≡ requested * fill_num
    → favorable_counter offered requested spread_bps fill_num fill_den
      ≡ some (counter_offered, counter_requested)
    → requested * counter_requested < offered * counter_offered
unfolding favorable_counter
favorable_counter-clears offered requested spread num den {counter_offered} {counter_requested} pos
      part wr wo exact e =
    let give : requested * num / den < u64_mod =
      omega (arith, part_le requested num den pos part) in
    let take : offered * num / den < u64_mod = omega (arith, part_le offered num den pos part) in
    go (mul_div requested num den) (mul_div offered num den)
      (mul_div (mul_div offered num den) (10000 - spread) 10000) (mod-eq_of_lt give)
      (mod-eq_of_lt take) e
  where
    go :
        (co sa x : ℕ)
        → co ≡ requested * num / den
        → sa ≡ offered * num / den
        → counter_of co sa (min x (sa - 1)) ≡ some (counter_offered, counter_requested)
        → requested * counter_requested < offered * counter_offered
    go co sa x is_co is_sa h =
        let facts = counter_of-cases co sa (min x (sa - 1)) h in
        let given : counter_offered ≡ requested * num / den = sym facts.0.0 ∙ is_co in
        strict offered requested num den counter_offered sa counter_requested pos
          (rw facts.0.0 at facts.1.0) (rw (given) exact)
          (rw (is_sa) (div-mul-le_self (offered * num) den)) (omega (arith, facts.0.1, facts.1.1))
