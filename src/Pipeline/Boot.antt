-- ===== src/Pipeline/Boot.antt =====
-- The symbol map that start-up loads agrees with the registered tokens.
use Prim.Native.String.{String}
use solver.Prelude.{
  ℕ, ◌≡◌, refl, sym, ap, ◌∙◌, false, Option, none, some, List, [], ◌∷◌, inl, inr, Bool-cases,
  Option-cases, ◌==◌, nat_eq, arith, ◌>>=◌,
}
use solver.Prelude.Maps.{Map, get, insert, get-insert_self, get-insert_ne, values}
use solver.Prelude.Entries.{AllEntries, insert-AllEntries, UniqueKeys, insert-UniqueKeys}
use solver.Order.{TokenId}
use solver.Matcher.{Bytes}
use solver.Db.{Db, RegisteredTokenRow, reset_all_settling_to_active}
use solver.Db.Registry.{
  register_token, new_token_row, get_registered_tokens, symbols_of, load_token_symbols,
  seed_tokens_from_config,
}
use solver.Admin.{Route, TokenRequest, serve}
use solver.Admin.Coherent.{symbol_of, IsCoherent, serve-IsCoherent}
use solver.Pipeline.{prepare_db}

-- The primary key of the table: each row stands once, under its own id.
abbrev pub IsKeyed : Db → Type 0
IsKeyed d =
    AllEntries (λ (k : TokenId) (row : RegisteredTokenRow). row.token_id ≡ k) d.registered_tokens
    × UniqueKeys d.registered_tokens

register_token-IsKeyed :
    (d : Db) (token : TokenId) (symbol : Option String) (now : ℕ)
    → IsKeyed d
    → IsKeyed (register_token d token symbol now).0
unfolding register_token new_token_row
register_token-IsKeyed d token symbol now h = elim (Option-cases (get token d.registered_tokens)) [
  | inr (row, e) ↦ rw (register_token, e) h
  | inl e ↦
      rw (register_token, e)
        (
          insert-AllEntries (λ (k : TokenId) (row : RegisteredTokenRow). row.token_id ≡ k) token _
              d.registered_tokens refl h.0,
          insert-UniqueKeys token _ d.registered_tokens h.1,
        )
]

seed_tokens_from_config-IsKeyed :
    (tokens : List (TokenId × Option String)) (d : Db) (now : ℕ)
    → IsKeyed d
    → IsKeyed (seed_tokens_from_config d tokens now)
unfolding seed_tokens_from_config
seed_tokens_from_config-IsKeyed [] d now h = h
seed_tokens_from_config-IsKeyed ((token, symbol) ∷ tokens) d now h =
    seed_tokens_from_config-IsKeyed tokens (register_token d token symbol now).0 now
      (register_token-IsKeyed d token symbol now h)

abbrev else_symbol : Option String → Option String → Option String
else_symbol none d = d
else_symbol (some s) d = some s

abbrev with_symbol : TokenId → Option String → Map TokenId String → Map TokenId String
with_symbol k none out = out
with_symbol k (some s) out = insert k s out

get-with_symbol :
    (k t : TokenId) (symbol : Option String) (out : Map TokenId String)
    → t ≡ k
    → get t (with_symbol k symbol out) ≡ else_symbol symbol (get t out)
get-with_symbol k t none out e = refl
get-with_symbol k t (some s) out e = rw e (get-insert_self k s out)

get-with_symbol_ne :
    (k t : TokenId) (symbol : Option String) (out : Map TokenId String)
    → (t == k) ≡ false
    → get t (with_symbol k symbol out) ≡ get t out
get-with_symbol_ne k t none out h = refl
get-with_symbol_ne k t (some s) out h = get-insert_ne k t s out h

symbols_of_step :
    (row : RegisteredTokenRow) (rows : List RegisteredTokenRow) (out : Map TokenId String)
    → symbols_of (row ∷ rows) out
      ≡ symbols_of rows (with_symbol row.token_id row.external_symbol out)
unfolding symbols_of
symbols_of_step row rows out = go row.external_symbol
  where
    go :
        (symbol : Option String)
        → symbols_of rows (elim symbol [ none ↦ out | some s ↦ insert row.token_id s out ])
          ≡ symbols_of rows (with_symbol row.token_id symbol out)
    go none = refl
    go (some s) = refl

get-symbols_of :
    (m : Map TokenId RegisteredTokenRow) (out : Map TokenId String) (t : TokenId)
    → AllEntries (λ (k : TokenId) (row : RegisteredTokenRow). row.token_id ≡ k) m
    → UniqueKeys m
    → get t (symbols_of (values m) out)
      ≡ else_symbol (get t m >>= λ row. row.external_symbol) (get t out)
unfolding values get symbols_of
get-symbols_of [] out t keyed unique = refl
get-symbols_of ((k, row) ∷ m) out t keyed unique =
    let rest =
      get-symbols_of m (with_symbol row.token_id row.external_symbol out) t keyed.1 unique.1 in
    let own : row.token_id ≡ k = keyed.0 in
    elim (Bool-cases (t == k)) [
      | inr other ↦
          symbols_of_at t
          ∙ rest
          ∙ ap (λ o. else_symbol (get t m >>= λ (r : RegisteredTokenRow). r.external_symbol) o)
              (get-with_symbol_ne row.token_id t row.external_symbol out (rw own other))
          ∙ rw (get, other) refl
      | inl here ↦
          let same : t ≡ k = ground arith in
          let missing : get t m ≡ none = rw same unique.0 in
          symbols_of_at t
          ∙ rest
          ∙ ap
              (λ o.
                else_symbol (o >>= λ (r : RegisteredTokenRow). r.external_symbol)
                  (get t (with_symbol row.token_id row.external_symbol out)))
              missing
          ∙ get-with_symbol row.token_id t row.external_symbol out (same ∙ sym own)
          ∙ rw (get, here) refl
    ]
  where
    symbols_of_at :
        (u : TokenId)
        → get u (symbols_of (row ∷ values m) out)
          ≡ get u (symbols_of (values m) (with_symbol row.token_id row.external_symbol out))
    symbols_of_at u = ap (λ x. get u x) (symbols_of_step row (values m) out)

-- Start-up leaves the symbol map in agreement with the registered tokens, and any admin requests
-- after it keep it so, if no token had two rows or stood under another's id: the price client sees
-- a token under a symbol exactly where the database holds the token with it.
pub serve-prepare_db-IsCoherent :
    (d : Db) (initial_tokens : List (TokenId × Option String)) (now : ℕ) (expected : Bytes)
    (requests : List (Option Bytes × Route × TokenRequest))
    → IsKeyed d
    → IsCoherent (serve expected (prepare_db d initial_tokens now) requests)
unfolding prepare_db load_token_symbols get_registered_tokens reset_all_settling_to_active get
serve-prepare_db-IsCoherent d initial_tokens now expected requests keyed =
    serve-IsCoherent expected requests (prepare_db d initial_tokens now) (
      loaded (seed_tokens_from_config (reset_all_settling_to_active d).0 initial_tokens now) (
        seed_tokens_from_config-IsKeyed initial_tokens (reset_all_settling_to_active d).0 now
          keyed))
  where
    none_else : (o : Option String) → else_symbol o none ≡ o
    none_else none = refl
    none_else (some s) = refl

    loaded :
        (d' : Db) → IsKeyed d' → IsCoherent (record { db = d'; token_map = load_token_symbols d' })
    loaded d' h t = get-symbols_of d'.registered_tokens [] t h.0 h.1 ∙ none_else (symbol_of t d')
