-- ===== src/Admin/Coherent.antt =====
-- The symbol map that the price client reads agrees with the registered tokens.
use Prim.Native.String.{String}
use solver.Prelude.{
  ◌≡◌, refl, sym, ap, ◌∙◌, subst, Bool, true, false, Option, none, some, List, [], ◌∷◌, inl, inr,
  Bool-cases, Option-cases, if◌then◌else◌, ◌==◌, nat_eq, arith, is_some, ◌>>=◌,
}
use solver.Prelude.Maps.{Map, get, insert, remove, get-insert, get-remove}
use solver.Order.{TokenId}
use solver.Matcher.{Bytes}
use solver.Db.{Db, RegisteredTokenRow}
use solver.Db.Registry.{
  register_token, new_token_row, update_token, update_token_symbol, unregister_token,
}
use solver.Admin.{
  AdminState, TokenRequest, bad_request, internal_server_error, Response, respond, set_cache,
  register, update_symbol, unregister, Route, add_token, update_token_symbol_handler, remove_token,
  routed, handle, strip_prefix, ct_eq, bearer, guarded, serve,
}

-- The symbol of a token in the database.
abbrev pub symbol_of : TokenId → Db → Option String
symbol_of t d = get t d.registered_tokens >>= λ row. row.external_symbol

abbrev pub IsCoherent : AdminState → Type 0
IsCoherent a = (t : TokenId) → get t a.token_map ≡ symbol_of t a.db

get-set_cache :
    (m : Map TokenId String) (token : TokenId) (symbol : Option String) (t : TokenId)
    → get t (set_cache m token symbol) ≡ (if t == token then symbol else get t m)
unfolding set_cache
get-set_cache m token none t = get-remove token t m
get-set_cache m token (some symbol) t = get-insert token t symbol m

symbol_of-insert :
    (d : Db) (token : TokenId) (row : RegisteredTokenRow) (t : TokenId)
    → symbol_of t (record d { registered_tokens = insert token row d.registered_tokens })
      ≡ (if t == token then row.external_symbol else symbol_of t d)
symbol_of-insert d token row t =
    ap (λ o. o >>= λ (r : RegisteredTokenRow). r.external_symbol)
      (get-insert token t row d.registered_tokens)
    ∙ elim (Bool-cases (t == token)) [ inl e ↦ rw e refl | inr e ↦ rw e refl ]

-- Both sides of the agreement after a token gets a symbol.
insert-IsCoherent :
    (a : AdminState) (token : TokenId) (row : RegisteredTokenRow) (m : Map TokenId String)
    → IsCoherent a
    → ((t : TokenId) → get t m ≡ (if t == token then row.external_symbol else get t a.token_map))
    → IsCoherent (record {
      db = record a.db { registered_tokens = insert token row a.db.registered_tokens };
      token_map = m;
    })
insert-IsCoherent a token row m coherent written t =
    written t
    ∙ elim (Bool-cases (t == token)) [ inl e ↦ rw e refl | inr e ↦ rw e (coherent t) ]
    ∙ sym (symbol_of-insert a.db token row t)

either_state :
    (t : Bool) (x y : Response)
    → IsCoherent x.state
    → IsCoherent y.state
    → IsCoherent (if t then x else y).state
either_state true x y h k = h
either_state false x y h k = k

register-IsCoherent :
    (a : AdminState) (req : TokenRequest) (token : TokenId)
    → IsCoherent a
    → IsCoherent (register a req token).state
unfolding register register_token respond new_token_row
register-IsCoherent a req token coherent = elim (Option-cases (get token a.db.registered_tokens)) [
  | inr (row, h) ↦ rw (register, register_token, h) coherent
  | inl h ↦
      let row = new_token_row token req.external_symbol req.now in
      let cached =
        if is_some req.external_symbol
        then set_cache a.token_map token req.external_symbol
        else a.token_map in
      let missing : get token a.token_map ≡ none = coherent token ∙ rw h refl in
      let agrees =
        insert-IsCoherent a token row cached coherent (written req.external_symbol missing) in
      rw (register, register_token, h) (either_state req.loads _ _ agrees agrees)
]
  where
    written :
        (symbol : Option String)
        → get token a.token_map ≡ none
        → (t : TokenId)
        → get t (if is_some symbol then set_cache a.token_map token symbol else a.token_map)
          ≡ (if t == token then symbol else get t a.token_map)
    written (some symbol) missing t = get-set_cache a.token_map token (some symbol) t
    written none missing t = elim (Bool-cases (t == token)) [
      | inl e ↦ let same : t ≡ token = ground arith in rw e (rw same missing)
      | inr e ↦ rw e refl
    ]

update_symbol-IsCoherent :
    (a : AdminState) (req : TokenRequest) (token : TokenId)
    → IsCoherent a
    → IsCoherent (update_symbol a req token).state
unfolding update_symbol update_token_symbol update_token respond
update_symbol-IsCoherent a req token coherent =
    elim (Option-cases (get token a.db.registered_tokens)) [
      | inl h ↦ rw (update_symbol, update_token_symbol, update_token, h) coherent
      | inr (row, h) ↦
          rw (update_symbol, update_token_symbol, update_token, h)
            (insert-IsCoherent a token (record row { external_symbol = req.external_symbol })
              (set_cache a.token_map token req.external_symbol) coherent
              (get-set_cache a.token_map token req.external_symbol))
    ]

unregister-IsCoherent :
    (a : AdminState) (token : TokenId) → IsCoherent a → IsCoherent (unregister a token).state
unfolding unregister unregister_token respond
unregister-IsCoherent a token coherent = elim (Option-cases (get token a.db.registered_tokens)) [
  | inl h ↦ rw (unregister, unregister_token, h) (λ t. without h t ∙ sym (removed t))
  | inr (row, h) ↦
      rw (unregister, unregister_token, h)
        (λ t.
          get-set_cache a.token_map token none t
          ∙ ap (λ s. if t == token then none else s) (coherent t)
          ∙ sym (removed t))
]
  where
    removed :
        (t : TokenId)
        → symbol_of t (record a.db { registered_tokens = remove token a.db.registered_tokens })
          ≡ (if t == token then none else symbol_of t a.db)
    removed t =
        ap (λ o. o >>= λ (r : RegisteredTokenRow). r.external_symbol)
          (get-remove token t a.db.registered_tokens)
        ∙ elim (Bool-cases (t == token)) [ inl e ↦ rw e refl | inr e ↦ rw e refl ]

    without :
        get token a.db.registered_tokens ≡ none
        → (t : TokenId) → get t a.token_map ≡ (if t == token then none else symbol_of t a.db)
    without h t = elim (Bool-cases (t == token)) [
      | inl e ↦
          let same : t ≡ token = ground arith in
          let missing : get token a.token_map ≡ none = coherent token ∙ rw h refl in
          rw e (rw same missing)
      | inr e ↦ rw e (coherent t)
    ]

routed-IsCoherent :
    (route : Route) (a : AdminState) (req : TokenRequest) (token : TokenId)
    → IsCoherent a
    → IsCoherent (routed route a req token).state
unfolding routed respond
routed-IsCoherent add_token a req token h = register-IsCoherent a req token h
routed-IsCoherent update_token_symbol_handler a req token h =
    either_state req.exact_bytes _ _ (update_symbol-IsCoherent a req token h) h
routed-IsCoherent remove_token a req token h =
    either_state req.exact_bytes _ _ (unregister-IsCoherent a token h) h

handle-IsCoherent :
    (route : Route) (a : AdminState) (req : TokenRequest)
    → IsCoherent a
    → IsCoherent (handle route a req).state
unfolding handle respond
handle-IsCoherent route a req h = elim (Option-cases req.token) [
  | inl e ↦ rw (handle, e) h
  | inr (token, e) ↦ handled token e
]
  where
    handled : (token : TokenId) → req.token ≡ some token → IsCoherent (handle route a req).state
    handled token e =
        let is : handle route a req
            ≡ (if req.writes then routed route a req token else respond a internal_server_error) =
          ap
            (λ o. elim o [
              | none ↦ respond a bad_request
              | some t ↦
                  if req.writes then routed route a req t else respond a internal_server_error
            ])
            e in
        subst (λ r. IsCoherent r.state) (sym is)
          (either_state req.writes _ _ (routed-IsCoherent route a req token h) h)

guarded-IsCoherent :
    (expected : Bytes) (header : Option Bytes) (route : Route) (a : AdminState) (req : TokenRequest)
    → IsCoherent a
    → IsCoherent (guarded expected header route a req).state
unfolding guarded respond
guarded-IsCoherent expected none route a req h = h
guarded-IsCoherent expected (some value) route a req h =
    elim (Option-cases (strip_prefix bearer value)) [
      | inl e ↦ rw (guarded, e) h
      | inr (token, e) ↦
          rw (guarded, e)
            (either_state (ct_eq token expected) _ _ (handle-IsCoherent route a req h) h)
    ]

-- Where the symbol map agrees with the registered tokens, it does so after any requests to the
-- admin interface, whoever sends them and whichever database call fails: the price client sees a
-- token under a symbol exactly where the database holds the token with it.
pub serve-IsCoherent :
    (expected : Bytes) (requests : List (Option Bytes × Route × TokenRequest)) (a : AdminState)
    → IsCoherent a
    → IsCoherent (serve expected a requests)
unfolding serve
serve-IsCoherent expected [] a h = h
serve-IsCoherent expected ((header, route, req) ∷ requests) a h =
    serve-IsCoherent expected requests (guarded expected header route a req).state
      (guarded-IsCoherent expected header route a req h)
