-- ===== src/Admin.antt =====
-- crates/solver/src/admin/admin.rs: the handlers of the token registry over the database and the
-- in-memory symbol map. The request's decoding (`hex::decode` and the token's `read_from`), the
-- outcome of each database call and the clock are inputs; a send on the subscription channel that
-- fails is only logged, so the handlers give what they send.
pub mod Coherent
use Prim.Native.String.{String}
use solver.Prelude.{
  ℕ, Bool, true, false, Option, none, some, List, [], ◌∷◌, ◌++◌, ◌==◌, nat_eq, if◌then◌else◌,
  is_some, ◌&&◌,
}
use solver.Prelude.Maps.{Map, insert, remove}
use solver.Order.{TokenId}
use solver.Matcher.{Bytes}
use solver.Db.{Db}
use solver.Db.Registry.{
  register_token, update_token_symbol, unregister_token, load_registered_tokens, load_token_symbols,
}

pub record AdminState : Type 0 where
  pub db : Db
  pub token_map : Map TokenId String

-- The decoded request, whether its bytes are exactly those that the token is written as (the reader
-- leaves what follows the token unread), the outcome of the write and of the read after it, and the
-- time.
pub record TokenRequest : Type 0 where
  pub token : Option TokenId
  pub exact_bytes : Bool
  pub external_symbol : Option String
  pub writes : Bool
  pub loads : Bool
  pub now : ℕ

pub data StatusCode : Type 0 where
  created ok bad_request unauthorized not_found internal_server_error : StatusCode

-- The state that a request leaves, the pairs sent to the subscription task, and the status.
pub record Response : Type 0 where
  pub state : AdminState
  pub subscribed : List (TokenId × TokenId)
  pub status : StatusCode

unfoldable pub respond : AdminState → StatusCode → Response
respond state status = record { state = state; subscribed = []; status = status }

unfoldable pub set_cache : Map TokenId String → TokenId → Option String → Map TokenId String
set_cache token_map token none = remove token token_map
set_cache token_map token (some symbol) = insert token symbol token_map

-- Both directions of each pair with another token.
unfoldable pub subscriptions : TokenId → List TokenId → List (TokenId × TokenId)
subscriptions new_token [] = []
subscriptions new_token (token ∷ existing) =
    let rest = subscriptions new_token existing in
    if token == new_token then rest else (new_token, token) ∷ (token, new_token) ∷ rest

unfoldable pub register : AdminState → TokenRequest → TokenId → Response
register a req new_token =
    let (stored, inserted) = register_token a.db new_token req.external_symbol req.now in
    let cached =
      if is_some req.external_symbol
      then set_cache a.token_map new_token req.external_symbol
      else a.token_map in
    let a' : AdminState = record { db = stored; token_map = cached } in
    if inserted
    then (if req.loads
        then record {
          state = a';
          subscribed = subscriptions new_token (load_registered_tokens stored);
          status = created;
        }
        else respond a' internal_server_error)
    else respond a ok

unfoldable pub update_symbol : AdminState → TokenRequest → TokenId → Response
update_symbol a req token =
    let (stored, updated) = update_token_symbol a.db token req.external_symbol in
    if updated
    then respond
        (record { db = stored; token_map = set_cache a.token_map token req.external_symbol }) ok
    else respond a not_found

unfoldable pub unregister : AdminState → TokenId → Response
unregister a token =
    let (stored, deleted) = unregister_token a.db token in
    if deleted
    then respond (record { db = stored; token_map = set_cache a.token_map token none }) ok
    else respond (record a { db = stored }) not_found

pub data Route : Type 0 where
  add_token update_token_symbol_handler remove_token : Route

-- The table is keyed by the bytes that a token is written as. Registration writes the token again;
-- the other two handlers look for the request's own bytes, which name no row unless they are exact.
unfoldable pub routed : Route → AdminState → TokenRequest → TokenId → Response
routed add_token a req token = register a req token
routed update_token_symbol_handler a req token =
    if req.exact_bytes then update_symbol a req token else respond a not_found
routed remove_token a req token =
    if req.exact_bytes then unregister a token else respond a not_found

-- Each handler decodes the token, gets a connection, and writes.
unfoldable pub handle : Route → AdminState → TokenRequest → Response
handle route a req = elim req.token [
  | none ↦ respond a bad_request
  | some token ↦ if req.writes then routed route a req token else respond a internal_server_error
]

unfoldable pub strip_prefix : Bytes → Bytes → Option Bytes
strip_prefix [] text = some text
strip_prefix (c ∷ cs) [] = none
strip_prefix (c ∷ cs) (d ∷ text) = let rest = strip_prefix cs text in if c == d then rest else none

unfoldable pub ct_eq : Bytes → Bytes → Bool
ct_eq [] [] = true
ct_eq [] (d ∷ ds) = false
ct_eq (c ∷ cs) [] = false
ct_eq (c ∷ cs) (d ∷ ds) = c == d && ct_eq cs ds

-- `Bearer ` in ASCII.
abbrev pub bearer : Bytes
bearer = 66 ∷ 101 ∷ 97 ∷ 114 ∷ 101 ∷ 114 ∷ 32 ∷ []

-- `require_bearer_token` before the handler, for the value of the authorization header, if any.
unfoldable pub guarded : Bytes → Option Bytes → Route → AdminState → TokenRequest → Response
guarded expected header route a req = elim header [
  | none ↦ respond a unauthorized
  | some value ↦ elim (strip_prefix bearer value) [
    | none ↦ respond a unauthorized
    | some token ↦ if ct_eq token expected then handle route a req else respond a unauthorized
  ]
]

-- The requests of a run, one after the other.
unfoldable pub serve : Bytes → AdminState → List (Option Bytes × Route × TokenRequest) → AdminState
serve expected a [] = a
serve expected a ((header, route, req) ∷ requests) =
    serve expected (guarded expected header route a req).state requests
