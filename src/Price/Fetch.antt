-- ===== src/Price/Fetch.antt =====
-- crates/solver/src/price/coingecko.rs: `HttpPriceClient::fetch_prices`, from the answer of the HTTP
-- request. A price is of any type; whether it is finite and not negative is a parameter.
use Prim.Native.String.{String}
use text.Mathlib.Text.{◌==◌ as str_eq}
use text.Mathlib.TextEquality.{eq_iff}
use solver.Prelude.{
  ℕ, ◌≡◌, refl, Bool, true, ◌&&◌, not, Option, none, some, List, [], ◌∷◌, ◌↔◌, inl, inr, In, Key,
  Bool-cases, Option-cases, if◌then◌else◌, ◌==◌, nat_eq, leb, null, eq_of_some, ◌>>=◌,
}
use solver.Prelude.Maps.{Map, get, insert}
use solver.Prelude.Entries.{AllEntries, insert-AllEntries, get-AllEntries}
use solver.Order.{TokenId}

pub same_text_iff : (a b : String) → (str_eq a b ≡ true) ↔ (a ≡ b)
same_text_iff a b = eq_iff a b

instance abbrev pub text_eq : Key String
text_eq = record { same = str_eq; same_iff = same_text_iff }

-- The tokens that have a symbol, with it.
unfoldable pub requested_of :
    List TokenId → Map TokenId String → Map TokenId String → Map TokenId String
requested_of [] token_map requested = requested
requested_of (t ∷ tokens) token_map requested =
    requested_of tokens token_map
      (elim (get t token_map) [ none ↦ requested | some symbol ↦ insert t symbol requested ])

abbrev pub Body : Type 0 → Type 0
Body Price = Map String (Map String Price)

-- The answer: none at all, or a status and a body, if the body can be parsed.
pub data HttpAnswer (Price : Type 0) : Type 0 where
  unreachable : HttpAnswer Price
  answered : ℕ → Option (Body Price) → HttpAnswer Price

abbrev too_many_requests : ℕ
too_many_requests = 429

unfoldable pub is_success : ℕ → Bool
is_success status = leb 200 status && leb status 299

module _ {Price : Type 0} (usable : Price → Bool) (vs_currency : String) where
  unfoldable pub price_in : Body Price → String → Option Price
  price_in body symbol = get symbol body >>= λ m. get vs_currency m

  unfoldable pub keep_usable : TokenId → Option Price → Map TokenId Price → Map TokenId Price
  keep_usable token none out = out
  keep_usable token (some usd) out = if usable usd then insert token usd out else out

  unfoldable pub priced : Body Price → Map TokenId String → Map TokenId Price → Map TokenId Price
  priced body [] out = out
  priced body ((token, symbol) ∷ requested) out =
      priced body requested (keep_usable token (price_in body symbol) out)

  -- Where the answer is used: its status, then its body.
  unfoldable pub read_answer : Map TokenId String → HttpAnswer Price → Option (Map TokenId Price)
  read_answer requested unreachable = none
  read_answer requested (answered status body) =
      if status == too_many_requests
      then none
      else if not (is_success status)
      then none
      else (body >>= λ b. some (priced b requested []))

  unfoldable pub fetch_prices :
      Map TokenId String → List TokenId → HttpAnswer Price → Option (Map TokenId Price)
  fetch_prices token_map tokens answer =
      let requested = requested_of tokens token_map [] in
      if null requested then some [] else read_answer requested answer

  -- A token is asked for, and is priced by a usable price of the body under its symbol.
  abbrev IsAsked : Map TokenId String → List TokenId → TokenId → String → Type 0
  IsAsked token_map tokens t symbol = In t tokens × (get t token_map ≡ some symbol)

  abbrev pub IsPriced : Map TokenId String → List TokenId → Body Price → TokenId → Price → Type 0
  IsPriced token_map tokens body t usd =
      (usable usd ≡ true)
      × (symbol : String) × IsAsked token_map tokens t symbol
      × (price_in body symbol ≡ some usd)

  requested_of-IsAsked :
      (all : List TokenId) (token_map : Map TokenId String) (tokens : List TokenId)
      (requested : Map TokenId String)
      → ((t : TokenId) → In t tokens → In t all)
      → AllEntries (IsAsked token_map all) requested
      → AllEntries (IsAsked token_map all) (requested_of tokens token_map requested)
  unfolding requested_of
  requested_of-IsAsked all token_map [] requested within h = h
  requested_of-IsAsked all token_map (t ∷ tokens) requested within h =
      let later = λ (u : TokenId) (m : In u tokens). within u (inr m) in
      elim (Option-cases (get t token_map)) [
        | inl e ↦ rw (requested_of, e) (requested_of-IsAsked all token_map tokens requested later h)
        | inr (symbol, e) ↦
            rw (requested_of, e)
              (requested_of-IsAsked all token_map tokens (insert t symbol requested) later (
                insert-AllEntries (IsAsked token_map all) t symbol requested
                  (within t (inl refl), e) h))
      ]

  priced-IsPriced :
      (token_map : Map TokenId String) (tokens : List TokenId) (body : Body Price)
      (requested : Map TokenId String) (out : Map TokenId Price)
      → AllEntries (IsAsked token_map tokens) requested
      → AllEntries (IsPriced token_map tokens body) out
      → AllEntries (IsPriced token_map tokens body) (priced body requested out)
  unfolding priced keep_usable
  priced-IsPriced token_map tokens body [] out asked h = h
  priced-IsPriced token_map tokens body ((t, symbol) ∷ requested) out asked h =
      elim (Option-cases (price_in body symbol)) [
        | inl e ↦ rw (priced, e) (priced-IsPriced token_map tokens body requested out asked.1 h)
        | inr (usd, e) ↦ elim (Bool-cases (usable usd)) [
          | inr bad ↦
              rw (priced, e, keep_usable, bad)
                (priced-IsPriced token_map tokens body requested out asked.1 h)
          | inl good ↦
              rw (priced, e, keep_usable, good)
                (priced-IsPriced token_map tokens body requested (insert t usd out) asked.1 (
                  insert-AllEntries (IsPriced token_map tokens body) t usd out
                    (good, symbol, asked.0, e) h))
        ]
      ]

  nothing_there : (t : TokenId) → get {V = Price} t [] ≡ none
  unfolding get
  nothing_there t = refl

  -- A price that a successful fetch reports is usable and stands in the answer's body, under the
  -- symbol that the token map gives to a token that was asked for: a token without a symbol, or
  -- whose price is missing or unusable, stays unpriced.
  pub fetch_prices-IsPriced :
      (token_map : Map TokenId String) (tokens : List TokenId) (status : ℕ) (body : Body Price)
      (prices : Map TokenId Price) (t : TokenId) (usd : Price)
      → fetch_prices token_map tokens (answered status (some body)) ≡ some prices
      → get t prices ≡ some usd
      → IsPriced token_map tokens body t usd
  unfolding fetch_prices read_answer
  fetch_prices-IsPriced token_map tokens status body prices t usd h g =
      elim (Bool-cases (null (requested_of tokens token_map []))) [
        | inl e ↦ empty (eq_of_some (rw (fetch_prices, e) at h))
        | inr e ↦ elim (Bool-cases (status == too_many_requests)) [
          | inl limited ↦ absurd (cc (rw (fetch_prices, e, read_answer, limited) at h))
          | inr within ↦ elim (Bool-cases (is_success status)) [
            | inr bad ↦ absurd (cc (rw (fetch_prices, e, read_answer, within, bad) at h))
            | inl good ↦ found (eq_of_some (rw (fetch_prices, e, read_answer, within, good) at h))
          ]
        ]
      ]
    where
      empty : [] ≡ prices → IsPriced token_map tokens body t usd
      empty same = absurd (cc (nothing_there t, rw (← same) at g))

      found :
          priced body (requested_of tokens token_map []) [] ≡ prices
          → IsPriced token_map tokens body t usd
      found same =
          let asked = requested_of-IsAsked tokens token_map tokens [] (λ u m. m) tt in
          get-AllEntries (IsPriced token_map tokens body) t _
            (priced-IsPriced token_map tokens body (requested_of tokens token_map []) [] asked tt)
            (rw (← same) at g)
