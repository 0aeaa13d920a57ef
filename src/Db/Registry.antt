-- ===== src/Db/Registry.antt =====
-- crates/solver/src/db/db.rs: the queries on the registered tokens. The clock is an argument.
use Prim.Native.String.{String}
use solver.Prelude.{ℕ, Bool, true, false, Option, none, some, List, [], ◌∷◌, nat_eq, if◌then◌else◌}
use solver.Prelude.Maps.{Map, get, insert, remove, contains_key, values}
use solver.Order.{TokenId}
use solver.Db.{RegisteredTokenRow, Db}

unfoldable pub get_registered_tokens : Db → List RegisteredTokenRow
get_registered_tokens d = values d.registered_tokens

unfoldable pub new_token_row : TokenId → Option String → ℕ → RegisteredTokenRow
new_token_row token_id external_symbol now = record {
  token_id = token_id;
  created_at = now;
  external_symbol = external_symbol;
  decimals = none;
  ticker = none;
}

unfoldable pub register_token : Db → TokenId → Option String → ℕ → Db × Bool
register_token d token_id external_symbol now =
    if contains_key token_id d.registered_tokens then (d, false) else (
      record d {
        registered_tokens =
            insert token_id (new_token_row token_id external_symbol now) d.registered_tokens;
      },
      true,
    )

-- `UPDATE registered_tokens SET … WHERE token_id = id`, and whether it touches a row.
unfoldable pub update_token : Db → TokenId → (RegisteredTokenRow → RegisteredTokenRow) → Db × Bool
update_token d token_id change = elim (get token_id d.registered_tokens) [
  | none ↦ (d, false)
  | some row ↦
      (record d { registered_tokens = insert token_id (change row) d.registered_tokens }, true)
]

unfoldable pub set_token_metadata : Db → TokenId → Option ℕ → Option String → Db × Bool
set_token_metadata d token_id decimals ticker =
    update_token d token_id (λ row. record row { decimals = decimals; ticker = ticker })

unfoldable pub get_registered_token : Db → TokenId → Option RegisteredTokenRow
get_registered_token d token_id = get token_id d.registered_tokens

unfoldable pub update_token_symbol : Db → TokenId → Option String → Db × Bool
update_token_symbol d token_id symbol =
    update_token d token_id (λ row. record row { external_symbol = symbol })

unfoldable pub symbols_of : List RegisteredTokenRow → Map TokenId String → Map TokenId String
symbols_of [] out = out
symbols_of (row ∷ rows) out =
    symbols_of rows
      (elim row.external_symbol [ none ↦ out | some symbol ↦ insert row.token_id symbol out ])

unfoldable pub load_token_symbols : Db → Map TokenId String
load_token_symbols d = symbols_of (get_registered_tokens d) []

unfoldable pub unregister_token : Db → TokenId → Db × Bool
unregister_token d token_id = (
  record d { registered_tokens = remove token_id d.registered_tokens },
  contains_key token_id d.registered_tokens,
)

unfoldable pub token_ids : List RegisteredTokenRow → List TokenId
token_ids [] = []
token_ids (row ∷ rows) = row.token_id ∷ token_ids rows

unfoldable pub load_registered_tokens : Db → List TokenId
load_registered_tokens d = token_ids (get_registered_tokens d)

unfoldable pub seed_tokens_from_config : Db → List (TokenId × Option String) → ℕ → Db
seed_tokens_from_config d [] now = d
seed_tokens_from_config d ((token, symbol) ∷ tokens) now =
    seed_tokens_from_config (register_token d token symbol now).0 tokens now
