-- ===== src/Examples/Registry.antt =====
-- A registry with one token, tokens of the configuration, and requests with the right token, a wrong one and none; and a price answer.
use solver.Prelude.{ℕ, ◌≡◌, refl, true, none, some, [], ◌∷◌, ◌++◌, List, Option, nat_eq}
use solver.Prelude.Maps.{Map, get, insert}
use solver.Order.{TokenId}
use solver.Matcher.{Bytes}
use solver.Db.{Db}
use solver.Admin.{TokenRequest, Route, add_token, remove_token, bearer, serve}
use solver.Price.Fetch.{
  Body, answered, requested_of, is_success, price_in, keep_usable, priced, read_answer,
  fetch_prices, IsPriced, fetch_prices-IsPriced, text_eq,
}
use solver.Admin.Coherent.{IsCoherent}
use solver.Pipeline.{prepare_db}
use solver.Pipeline.Boot.{IsKeyed, serve-prepare_db-IsCoherent}
use Prim.Native.String.{String}

program : Unit {0}
unfolding get insert requested_of is_success price_in keep_usable priced read_answer fetch_prices
program = tt

abbrev fresh : Db
fresh = record {
  last_fetched_block = 0;
  notes = [];
  orders = [];
  generated_notes = [];
  registered_tokens = [];
}

abbrev request : TokenRequest
request = record {
  token = some 7;
  external_symbol = some "usd-coin";
  exact_bytes = true;
  writes = true;
  loads = true;
  now = 5;
}

abbrev requests : List (Option Bytes × Route × TokenRequest)
requests =
    (some (bearer ++ 1 ∷ 2 ∷ []), add_token, request)
    ∷ (some (1 ∷ 2 ∷ []), remove_token, request)
    ∷ (none, remove_token, request)
    ∷ []

abbrev stored : Db
stored = record fresh {
  registered_tokens =
      (
        7,
        record {
          token_id = 7;
          created_at = 0;
          external_symbol = some "ether";
          decimals = none;
          ticker = none;
        },
      )
      ∷ [];
}

abbrev configured : List (TokenId × Option String)
configured = (8, some "usd-coin") ∷ (7, none) ∷ []

stored-IsKeyed : IsKeyed stored
unfolding program
stored-IsKeyed = ((refl, tt), (refl, tt))

serve-prepare_db-IsCoherent_example :
    IsCoherent (serve (1 ∷ 2 ∷ []) (prepare_db stored configured 5) requests)
serve-prepare_db-IsCoherent_example =
    serve-prepare_db-IsCoherent stored configured 5 (1 ∷ 2 ∷ []) requests stored-IsKeyed

-- Two tokens that are asked for, one of which has a symbol, and a body with its price.
abbrev body : Body ℕ
body = ("usd-coin", ("usd", 99) ∷ []) ∷ []

abbrev prices : Map TokenId ℕ
prices = (7, 99) ∷ []

fetched :
    fetch_prices
      (λ (usd : ℕ). true)
      "usd"
      ((7, "usd-coin") ∷ [])
      (7 ∷ 8 ∷ [])
      (answered 200 (some body))
    ≡ some prices
unfolding program
fetched = refl

priced_7 : get 7 prices ≡ some 99
unfolding program
priced_7 = refl

fetch_prices-IsPriced_example :
    IsPriced (λ (usd : ℕ). true) "usd" ((7, "usd-coin") ∷ []) (7 ∷ 8 ∷ []) body 7 99
fetch_prices-IsPriced_example =
    fetch_prices-IsPriced (λ usd. true) "usd" ((7, "usd-coin") ∷ []) (7 ∷ 8 ∷ []) 200 body prices 7
      99 fetched priced_7
