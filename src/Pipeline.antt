-- ===== src/Pipeline.antt =====
-- crates/solver/src/pipeline.rs: what start-up does to the database, the symbol map and the
-- subscriptions. The node's answer to a request for a token's metadata and the outcome of each
-- database call are inputs; wiring, tasks and channels are not modelled.
pub mod Boot
use Prim.Native.String.{String}
use solver.Prelude.{
  ℕ, suc, Bool, true, false, not, Option, none, some, List, [], ◌∷◌, ◌++◌, ◌==◌, nat_eq,
  if◌then◌else◌, is_some, map,
}
use solver.Order.{TokenId}
use solver.Db.{Db, reset_all_settling_to_active}
use solver.Db.Registry.{
  get_registered_token, set_token_metadata, seed_tokens_from_config, load_token_symbols,
  load_registered_tokens,
}
use solver.Admin.{AdminState}

-- `initial_tokens` of the configuration, and the time at which they are seeded.
unfoldable pub prepare_db : Db → List (TokenId × Option String) → ℕ → AdminState
prepare_db d initial_tokens now =
    let recovered = (reset_all_settling_to_active d).0 in
    let seeded = seed_tokens_from_config recovered initial_tokens now in
    record { db = seeded; token_map = load_token_symbols seeded }

-- Whether the two database calls succeed, and what the node answers: an error, no metadata, or
-- the decimals and the ticker.
pub record MetadataInput : Type 0 where
  pub reads : Bool
  pub fetched : Option (Option (ℕ × String))
  pub writes : Bool

unfoldable pub store_metadata : Db → TokenId → MetadataInput → Db
store_metadata d token input = elim input.fetched [
  | none ↦ d
  | some answer ↦ elim answer [
    | none ↦ d
    | some metadata ↦
        if input.writes
        then (set_token_metadata d token (some metadata.0) (some metadata.1)).0
        else d
  ]
]

unfoldable pub ensure_token_metadata : Db → TokenId → MetadataInput → Db
ensure_token_metadata d token input =
    if not input.reads then d else elim (get_registered_token d token) [
      | none ↦ d
      | some row ↦ if is_some row.decimals then d else store_metadata d token input
    ]

unfoldable pub ensure_all : Db → List (TokenId × MetadataInput) → Db
ensure_all d [] = d
ensure_all d ((token, input) ∷ tokens) = ensure_all (ensure_token_metadata d token input) tokens

-- The pairs of a token at an index with those at the others.
unfoldable pub pairs_from : TokenId → ℕ → ℕ → List TokenId → List (TokenId × TokenId)
pairs_from token i j [] = []
pairs_from token i j (other ∷ others) =
    let rest = pairs_from token i (suc j) others in if i == j then rest else (token, other) ∷ rest

unfoldable pub pairs_at : List TokenId → ℕ → List TokenId → List (TokenId × TokenId)
pairs_at all i [] = []
pairs_at all i (token ∷ tokens) = pairs_from token i 0 all ++ pairs_at all (suc i) tokens

-- The database after the metadata was ensured, and the pairs that are subscribed to.
unfoldable pub subscribe_all_pairs : Db → (TokenId → MetadataInput) → Db × List (TokenId × TokenId)
subscribe_all_pairs d input =
    let tokens = load_registered_tokens d in
    (ensure_all d (map (λ token. (token, input token)) tokens), pairs_at tokens 0 tokens)
