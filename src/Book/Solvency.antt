-- ===== src/Book/Solvency.antt =====
-- Solvency of the batch that a book stands for: of each token the orders release, in one fill each,
-- at least what the orders that ask for it have been filled with and the protocol's balance.
use solver.Prelude.{
  ℕ, ◌+◌, ◌-◌, ◌≤◌, ◌≡◌, ◌≢◌, ap, ◌∙◌, false, some, inl, inr, Bool-cases, Option-cases,
  if◌then◌else◌, ◌==◌, nat_eq, arith, get_or, as_u64, u64_mod,
}
use native.Mathlib.Nat.{mod-le, zero-div, mul-zero}
use solver.Prelude.Maps.{get, insert, total, total-insert, get-insert, get-insert_ne}
use solver.Order.{
  Order, OrderId, TokenId, Amount, MatchResult, IsValid, offered_for, requested_filled, match_with,
}
use solver.Order.Fill.{offered_for-add-le, offered_for-eq}
use solver.Order.Match.{SameTerms, match_with-IsConserved, match_with-SameTerms}
use solver.Book.{OrderBook, add_protocol_balance, settle_match, match_found, apply_match}
use solver.Book.Frame.{==_swap, settle_match-orders, cleanup_if_filled-balances}

-- `amount` if the two tokens are one, and nothing otherwise.
pub weigh : TokenId → TokenId → Amount → Amount
weigh t token amount = if token == t then amount else 0

pub weigh-add : (t k x y : ℕ) → weigh t k (x + y) ≡ weigh t k x + weigh t k y
unfolding weigh
weigh-add t k x y = ground arith

pub weigh-le : (t k x y : ℕ) → x ≤ y → weigh t k x ≤ weigh t k y
unfolding weigh
weigh-le t k x y h = ground arith

pub weigh-zero : (t k : ℕ) → weigh t k 0 ≡ 0
unfolding weigh
weigh-zero t k = ground arith

pub cover-weigh : (t k x y z : ℕ) → x + y ≤ z → weigh t k x + weigh t k y ≤ weigh t k z
unfolding weigh
cover-weigh t k x y z h = ground arith

pub token-weigh : (t : TokenId) {k l : TokenId} (x : Amount) → k ≡ l → weigh t k x ≡ weigh t l x
token-weigh t x h = ap (λ k. weigh t k x) h

pub weigh_self : (t x : ℕ) → weigh t t x ≡ x
unfolding weigh
weigh_self t x = ground arith

pub weigh_ne : (t k x : ℕ) → k ≢ t → weigh t k x ≡ 0
unfolding weigh
weigh_ne t k x h = ground arith

abbrev pub consumed : TokenId → Order → Amount
consumed t o = weigh t o.requested_token (requested_filled o)

abbrev pub released : TokenId → Order → Amount
released t o = weigh t o.offered_token (offered_for o (requested_filled o))

abbrev pub balance : OrderBook → TokenId → Amount
balance b t = get_or (get t b.protocol_balances) 0

-- The batch can pay token `t`.
abbrev pub Covers : OrderBook → TokenId → Type 0
Covers b t = total (consumed t) b.orders + balance b t ≤ total (released t) b.orders

abbrev pub IsSolvent : OrderBook → Type 0
IsSolvent b = (t : TokenId) → Covers b t

module _ (o o' : Order) (v : IsValid o) (s : SameTerms o o') where
  filled-step :
      requested_filled o' ≡ requested_filled o + (o.requested_remaining - o'.requested_remaining)
  unfolding requested_filled
  filled-step = omega (arith, v.remaining_le, s.requested, s.remaining_le)

  filled-le : requested_filled o' ≤ o.requested
  unfolding requested_filled
  filled-le = omega (arith, s.requested)

  pub consumed-step :
      (t : TokenId)
      → consumed t o'
        ≡ consumed t o + weigh t o.requested_token (o.requested_remaining - o'.requested_remaining)
  consumed-step t = rw (filled-step, s.requested_token) (weigh-add t _ _ _)

  offered_for-zero : offered_for o 0 ≡ 0
  offered_for-zero = rw (offered_for-eq o v 0 (omega arith), mul-zero) (zero-div o.requested)

  same-offer : (x : Amount) → offered_for o' x ≡ offered_for o x
  unfolding offered_for
  same-offer x = rw (s.offered, s.requested)

  pub released-step :
      (t : TokenId)
      → released t o
          + weigh t o.offered_token (offered_for o (o.requested_remaining - o'.requested_remaining))
        ≤ released t o'
  released-step t =
      let d : ℕ = o.requested_remaining - o'.requested_remaining in
      let f : ℕ = requested_filled o in
      rw
        (
          same-offer,
          filled-step,
          s.offered_token,
          ← weigh-add t o.offered_token (offered_for o f) (offered_for o d),
        )
        (weigh-le t o.offered_token _ _
          (offered_for-add-le o v f d (omega (arith, filled-step, filled-le))))

  -- From an order that nothing was filled of, the step is exact.
  pub released-step_untouched :
      requested_filled o ≡ 0
      → (t : TokenId)
      → released t o'
        ≡ released t o
          + weigh t o.offered_token (offered_for o (o.requested_remaining - o'.requested_remaining))
  released-step_untouched none_filled t =
      let d : ℕ = o.requested_remaining - o'.requested_remaining in
      let first : requested_filled o' ≡ d = omega (arith, filled-step) in
      let nothing : released t o ≡ 0 =
        rw (none_filled, offered_for-zero) (weigh-zero t o.offered_token) in
      rw (same-offer, first, s.offered_token) (omega (arith, nothing))

pub add_protocol_balance-balance :
    (b : OrderBook) (token t : TokenId) (x : Amount)
    → balance (add_protocol_balance b token x) t ≤ balance b t + weigh t token x
unfolding add_protocol_balance weigh
add_protocol_balance-balance b token t x = elim (Bool-cases (x == 0)) [
  | inl zero_amount ↦ rw (zero_amount, add_protocol_balance) (omega arith)
  | inr some_amount ↦
      let sum = balance b token + x in
      let written = get-insert token t (as_u64 sum) b.protocol_balances in
      rw (some_amount, add_protocol_balance)
        (elim (Bool-cases (t == token)) [
          | inl same ↦
              let at : token ≡ t = ground arith in
              rw (written, same) (rw at (ground (arith, mod-le (balance b t + x) u64_mod)))
          | inr other ↦ rw (written, other) (omega arith)
        ])
]

-- The balances after a match: either surplus goes to the token that it is of.
settle_match-balance :
    (b : OrderBook) (i j : OrderId) (a c : Order) (r : MatchResult) (t : TokenId)
    → balance (settle_match b i j a c r) t
      ≤ balance b t
        + weigh t a.offered_token r.surplus_offered
        + weigh t c.offered_token r.surplus_requested
unfolding settle_match
settle_match-balance b i j a c r t =
    let stored : OrderBook = record b { orders = insert j c (insert i a b.orders) } in
    let once = add_protocol_balance stored a.offered_token r.surplus_offered in
    simp cleanup_if_filled-balances (
      omega (
        arith,
        add_protocol_balance-balance stored a.offered_token t r.surplus_offered,
        add_protocol_balance-balance once c.offered_token t r.surplus_requested,
      ))

-- The four flows of a match, weighed for one token.
weigh-flow : (t k x y z : ℕ) → x ≡ y + z → weigh t k x ≡ weigh t k y + weigh t k z
weigh-flow t k x y z e = rw e (weigh-add t k y z)

-- A match of two stored orders of opposite pairs keeps the batch solvent.
match_found-Covers :
    (b : OrderBook) (i j : OrderId) (a c : Order) (t : TokenId)
    → (i == j) ≡ false
    → get i b.orders ≡ some a
    → get j b.orders ≡ some c
    → IsValid a
    → IsValid c
    → a.offered_token ≡ c.requested_token
    → c.offered_token ≡ a.requested_token
    → Covers b t
    → Covers (match_found b i j a c).0 t
unfolding match_found
match_found-Covers b i j a c t ne hi hj va vc there back solvent =
    elim (Option-cases (match_with a c).2) [
      | inl m ↦ rw (m, match_found) solvent
      | inr (r, m) ↦
          let a' = (match_with a c).0 in
          let c' = (match_with a c).1 in
          let sa : SameTerms a a' = (match_with-SameTerms a c).0 in
          let sc : SameTerms c c' = (match_with-SameTerms a c).1 in
          let flow = match_with-IsConserved a c m in
          let stored = get-insert_ne i j a' b.orders (==_swap i j ne) ∙ hj in
          let credit = settle_match-balance b i j a' c' r t in
          let out = weigh-flow t a.offered_token _ _ _ flow.offered_flow in
          let back_out = weigh-flow t c.offered_token _ _ _ flow.requested_flow in
          rw (m, match_found, settle_match-orders)
            (omega (
              arith,
              credit,
              ap (λ k. weigh t k r.surplus_offered) sa.offered_token,
              ap (λ k. weigh t k r.surplus_requested) sc.offered_token,
              out,
              ap (λ k. weigh t k (c.requested_remaining - c'.requested_remaining)) there,
              back_out,
              ap (λ k. weigh t k (a.requested_remaining - a'.requested_remaining)) back,
              total-insert (consumed t) i a' a b.orders hi,
              total-insert (consumed t) j c' c (insert i a' b.orders) stored,
              total-insert (released t) i a' a b.orders hi,
              total-insert (released t) j c' c (insert i a' b.orders) stored,
              consumed-step a a' va sa t,
              consumed-step c c' vc sc t,
              released-step a a' va sa t,
              released-step c c' vc sc t,
            ))
    ]

-- So does a match by id, whatever it finds there.
pub apply_match-Covers :
    (b : OrderBook) (i j : OrderId) (a c : Order) (t : TokenId)
    → get i b.orders ≡ some a
    → get j b.orders ≡ some c
    → IsValid a
    → IsValid c
    → a.offered_token ≡ c.requested_token
    → c.offered_token ≡ a.requested_token
    → Covers b t
    → Covers (apply_match b i j).0 t
unfolding apply_match
apply_match-Covers b i j a c t hi hj va vc there back solvent = elim (Bool-cases (i == j)) [
  | inl same ↦ rw (same, apply_match) solvent
  | inr ne ↦
      rw (ne, hi, hj, apply_match)
        (match_found-Covers b i j a c t ne hi hj va vc there back solvent)
]
