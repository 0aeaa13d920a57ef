-- ===== src/Price.antt =====
-- crates/solver/src/matching/price_feed.rs: `PriceFeed::is_order_profitable`, and
-- crates/solver/src/price/price.rs: one poll of the price loop and the feed that reads its snapshot.
-- The full-precision prices are floating-point numbers of a type of their own, and their rounding
-- to whole cents is a parameter.
pub mod Fetch
use solver.Prelude.{ℕ, ◌*◌, Bool, false, Option, none, some, List, [], ◌∷◌, nat_eq, leb, ◌>>=◌}
use solver.Prelude.Maps.{Map, get}
use solver.Order.{TokenId, Amount}
use solver.Book.{PriceFeed}

unfoldable pub is_order_profitable : PriceFeed → TokenId → Amount → TokenId → Amount → Bool
is_order_profitable price_cents offered_token offered_amount requested_token requested_amount =
    elim (price_cents offered_token) [
      | none ↦ false
      | some offered_price ↦ elim (price_cents requested_token) [
        | none ↦ false
        | some requested_price ↦
            leb (requested_amount * requested_price) (offered_amount * offered_price)
      ]
    ]

abbrev pub PriceSnapshot : Type 0
PriceSnapshot = Map TokenId ℕ

-- `WatchPriceFeed::price_cents`
unfoldable pub watch_price_feed : PriceSnapshot → PriceFeed
watch_price_feed prices token = get token prices

module _ {Price : Type 0} (cents : Price → ℕ) where
  unfoldable pub to_cents : Map TokenId Price → PriceSnapshot
  to_cents [] = []
  to_cents ((token, price) ∷ precise) = (token, cents price) ∷ to_cents precise

-- What the loop publishes.
pub record Published (Price : Type 0) : Type 0 where
  pub prices : PriceSnapshot
  pub precise : Map TokenId Price
  pub last_price_update : ℕ

-- One turn of the loop: a poll that fails publishes nothing.
unfoldable pub poll :
    {Price : Type 0}
    → (Price → ℕ)
    → Published Price
    → Option (Map TokenId Price)
    → ℕ
    → Published Price
poll cents p none now = p
poll cents p (some precise) now = record {
  prices = to_cents cents precise;
  precise = precise;
  last_price_update = now;
}

unfoldable pub run_price_feed :
    {Price : Type 0}
    → (Price → ℕ)
    → Published Price
    → List (Option (Map TokenId Price) × ℕ)
    → Published Price
run_price_feed cents p [] = p
run_price_feed cents p ((fetched, now) ∷ polls) =
    run_price_feed cents (poll cents p fetched now) polls
