-- ===== src/Order.antt =====
-- crates/solver/src/matching/types.rs: an order of the book, its fills, and the match of two
-- orders. Token and note ids are numbers, of which only equality and order are used. Amounts are
-- `u64`; a product of two amounts is below 2^128, so the `u128` products carry no wrap-around,
-- and the casts back to `u64` are written out. A method on `&mut self` returns the order it leaves
-- beside its result. Rust panics on a division by 0, where `/` here is 0: `IsValid` excludes it.
pub mod Rate
pub mod Fill
pub mod Release
pub mod Match
use Prim.Native.Nat.{compare, Ordering}
use solver.Prelude.{
  ℕ, ◌+◌, ◌-◌, ◌*◌, ◌/◌, ◌<◌, ◌≤◌, ◌≡◌, min, Bool, not, ◌||◌, Option, none, some, ltb, leb, ◌==◌,
  nat_eq, if◌then◌else◌, as_u64, u64_mod,
}

abbrev pub TokenId : Type 0
TokenId = ℕ

abbrev pub OrderId : Type 0
OrderId = ℕ

abbrev pub DexId : Type 0
DexId = ℕ

abbrev pub Amount : Type 0
Amount = ℕ

-- How much of the offered asset a fill of the requested asset releases.
unfoldable pub calculate_output_amount : Amount → Amount → Amount → Amount
calculate_output_amount offered_total requested_total fill_amount =
    as_u64 (offered_total * fill_amount / requested_total)

pub record RateKey : Type 0 where
  pub requested : Amount
  pub offered : Amount

-- `RateKey::cmp`: the two ratios requested / offered, by cross-multiplication.
unfoldable pub cmp : RateKey → RateKey → Ordering
cmp k l = compare (k.requested * l.offered) (l.requested * k.offered)

pub record Order : Type 0 where
  pub id : OrderId
  pub offered_token : TokenId
  pub requested_token : TokenId
  pub offered : Amount
  pub requested : Amount
  pub requested_remaining : Amount

pub record MatchResult : Type 0 where
  pub surplus_offered : Amount
  pub surplus_requested : Amount

unfoldable pub rate_key : Order → RateKey
rate_key o = record { requested = o.requested; offered = o.offered }

unfoldable pub is_active : Order → Bool
is_active o = ltb 0 o.requested_remaining

unfoldable pub is_completely_filled : Order → Bool
is_completely_filled o = o.requested_remaining == 0

unfoldable pub requested_filled : Order → Amount
requested_filled o = o.requested - o.requested_remaining

unfoldable pub offered_for : Order → Amount → Amount
unfolding calculate_output_amount
offered_for o requested_fill = calculate_output_amount o.offered o.requested requested_fill

unfoldable pub requested_for : Order → Amount → Amount
unfolding calculate_output_amount
requested_for o offered_amount = calculate_output_amount o.requested o.offered offered_amount

-- The inverse of `offered_for`, rounded up.
unfoldable pub min_fill_for_release : Order → Amount → Amount
min_fill_for_release o target =
    if target == 0
    then 0
    else if leb o.offered target
    then o.requested
    else let fill = min (as_u64 (target * o.requested / o.offered)) o.requested in
      if leb target (offered_for o fill) then fill else min (as_u64 (fill + 1)) o.requested

unfoldable pub offered_remaining : Order → Amount
offered_remaining o = offered_for o o.requested_remaining

unfoldable pub fill : Order → Amount → Order × Amount
fill o amount =
    let requested_filled = min amount o.requested_remaining in
    let released = offered_for o requested_filled in
    (record o { requested_remaining = o.requested_remaining - requested_filled }, released)

unfoldable pub full_fill : Order → Order × Amount
full_fill o = (record o { requested_remaining = 0 }, offered_remaining o)

unfoldable pub is_profitable_with : Order → Order → Bool
is_profitable_with a b = ltb (a.requested * b.requested) (a.offered * b.offered)

-- Both orders as the call leaves them, and its result.
unfoldable pub match_with : Order → Order → Order × Order × Option MatchResult
match_with a b =
    if not (is_active a) || not (is_active b)
    then (a, b, none)
    else if not (is_profitable_with a b)
    then (a, b, none)
    else let self_sends = min (offered_remaining a) b.requested_remaining in
      if self_sends == 0
      then (a, b, none)
      else let (b', other_releases) = fill b self_sends in
        if other_releases == 0
        then (a, b', none)
        else let self_receives = min other_releases a.requested_remaining in
          let (a', self_releases) = fill a self_receives in
          if ltb self_releases self_sends then (a', b', none) else (
            a',
            b',
            some (record {
              surplus_offered = self_releases - self_sends;
              surplus_requested = other_releases - self_receives;
            }),
          )

-- What ingest lets into the book: amounts that are positive `u64`s, and no more left to fill than
-- was asked for.
pub record IsValid (o : Order) : Type 0 where
  pub offered_pos : 0 < o.offered
  pub requested_pos : 0 < o.requested
  pub offered_word : o.offered < u64_mod
  pub requested_word : o.requested < u64_mod
  pub remaining_le : o.requested_remaining ≤ o.requested
