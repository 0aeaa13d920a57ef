-- ===== src/SwapEta.antt =====
-- crates/solver/src/swap_eta.rs: the window of settlement durations, its median, and the tests
-- behind the swap-eta endpoint. `eval_off_market` is modelled from the two prices in whole cents
-- on: the `f64` prices, their rounding and the formatted market price are not.
pub mod Window
pub mod Crossing
use solver.Prelude.{
  ℕ, zero, suc, ◌+◌, ◌-◌, ◌*◌, ◌/◌, ◌%◌, ◌^◌, Bool, false, ◌&&◌, ◌||◌, Option, none, some, List, [],
  ◌∷◌, ◌++◌, min, ltb, leb, ◌==◌, nat_eq, pair_eq, if◌then◌else◌, get_or, get_elem?, length, null,
  ◌>>=◌, u128_mod,
}
use solver.Prelude.Maps.{Map, get, insert}
use solver.Order.{Amount}
use solver.Book.{Pair}
use solver.Book.Views.{BestLevel}

abbrev pub window_secs : ℕ
window_secs = 24 * 60 * 60

abbrev pub max_samples_per_pair : ℕ
max_samples_per_pair = 1000

pub record Sample : Type 0 where
  pub at_unix : ℕ
  pub duration_secs : ℕ

pub record SettlementStats : Type 0 where
  pub by_pair : Map Pair (List Sample)

unfoldable pub new_stats : SettlementStats
new_stats = record { by_pair = [] }

-- `while q.front().map_or(false, |s| s.at_unix < cutoff) { q.pop_front(); }`
unfoldable pub drop_older : ℕ → List Sample → List Sample
drop_older cutoff [] = []
drop_older cutoff (s ∷ q) =
    let rest = drop_older cutoff q in if ltb s.at_unix cutoff then rest else s ∷ q

-- `while q.len() > limit { q.pop_front(); }`
unfoldable pub drop_excess : ℕ → List Sample → List Sample
drop_excess limit [] = []
drop_excess limit (s ∷ q) =
    let rest = drop_excess limit q in if ltb limit (suc (length q)) then rest else s ∷ q

unfoldable pub record_queue : List Sample → ℕ → ℕ → List Sample
record_queue q now_unix duration_secs = drop_excess max_samples_per_pair (
    drop_older (now_unix - window_secs)
      (q ++ record { at_unix = now_unix; duration_secs = duration_secs } ∷ []))

unfoldable pub record_settlement : SettlementStats → Pair → ℕ → ℕ → SettlementStats
record_settlement stats pair now_unix duration_secs = record {
  by_pair =
      insert pair (record_queue (get_or (get pair stats.by_pair) []) now_unix duration_secs)
        stats.by_pair;
}

-- `sort_unstable` on numbers: their ascending order, which is unique.
unfoldable pub insert_sorted : ℕ → List ℕ → List ℕ
insert_sorted x [] = x ∷ []
insert_sorted x (y ∷ ys) =
    let later = y ∷ insert_sorted x ys in if leb x y then x ∷ y ∷ ys else later

unfoldable pub sort : List ℕ → List ℕ
sort [] = []
sort (x ∷ xs) = insert_sorted x (sort xs)

-- The middle of a sorted slice of length `n`, or the floored mean of the two middles.
unfoldable pub middle : List ℕ → ℕ → Option ℕ
middle v n =
    if n % 2 == 1
    then get_elem? v (n / 2)
    else get_elem? v (n / 2 - 1) >>= λ low. get_elem? v (n / 2) >>= λ high. some ((low + high) / 2)

unfoldable pub median_of : List ℕ → Option ℕ
median_of v = if null v then none else middle (sort v) (length v)

unfoldable pub fresh_durations : ℕ → List Sample → List ℕ
fresh_durations cutoff [] = []
fresh_durations cutoff (s ∷ q) =
    let rest = fresh_durations cutoff q in
    if leb cutoff s.at_unix then s.duration_secs ∷ rest else rest

unfoldable pub median_secs : SettlementStats → Pair → ℕ → Option ℕ
median_secs stats pair now_unix =
    get pair stats.by_pair >>= λ q. median_of (fresh_durations (now_unix - window_secs) q)

unfoldable pub eval_can_fill : Amount → Amount → Option BestLevel → Bool
eval_can_fill offered_a requested_b none = false
eval_can_fill offered_a requested_b (some best) =
    ltb (requested_b * best.rate.requested) (offered_a * best.rate.offered)
    && leb requested_b best.volume

-- `checked_mul`, `checked_pow` and `checked_add` of `u128`.
unfoldable pub checked : ℕ → Option ℕ
checked x = if ltb x u128_mod then some x else none

-- The comparison of the two USD values over a common scale; `none` on overflow.
unfoldable pub off_market_of : Amount → ℕ → ℕ → Amount → ℕ → ℕ → ℕ → Option Bool
off_market_of offered_a d_a cents_a requested_b d_b cents_b tol_bps = do
  let m = min d_a d_b
  offered_cents ← checked (offered_a * cents_a)
  scale_b ← checked (10 ^ (d_b - m))
  offered_usd ← checked (offered_cents * scale_b)
  requested_cents ← checked (requested_b * cents_b)
  scale_a ← checked (10 ^ (d_a - m))
  requested_usd ← checked (requested_cents * scale_a)
  lhs ← checked (requested_usd * 10000)
  tolerance ← checked (10000 + tol_bps)
  rhs ← checked (offered_usd * tolerance)
  some (ltb rhs lhs)

-- The flag of `eval_off_market` from the cents on: unknown without decimals or at a price of 0.
unfoldable pub off_market_flag : Amount → Option ℕ → ℕ → Amount → Option ℕ → ℕ → ℕ → Option Bool
off_market_flag offered_a d_a cents_a requested_b d_b cents_b tol_bps = do
  da ← d_a
  db ← d_b
  if cents_a == 0 || cents_b == 0
      then none
      else off_market_of offered_a da cents_a requested_b db cents_b tol_bps
