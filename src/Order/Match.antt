-- ===== src/Order/Match.antt =====
-- The match of two orders conserves both tokens.
use solver.Prelude.{◌+◌, ◌-◌, ◌<◌, ◌≤◌, ◌≡◌, some, arith}
use solver.Order.{Amount, Order, MatchResult, IsValid, offered_for, fill, is_active, match_with}

-- What one order of a match sends out is what the other receives and the surplus, in either token,
-- and both are filled by a positive amount.
pub record IsConserved (a b a' b' : Order) (r : MatchResult) : Type 0 where
  pub offered_flow :
      offered_for a (a.requested_remaining - a'.requested_remaining)
      ≡ (b.requested_remaining - b'.requested_remaining) + r.surplus_offered
  pub requested_flow :
      offered_for b (b.requested_remaining - b'.requested_remaining)
      ≡ (a.requested_remaining - a'.requested_remaining) + r.surplus_requested
  pub first_filled : a'.requested_remaining < a.requested_remaining
  pub second_filled : b'.requested_remaining < b.requested_remaining

-- A match that succeeds conserves both tokens: what either order releases of its offer for its fill
-- is what the other was filled with and the surplus, and both are filled by a positive amount.
pub match_with-IsConserved :
    (a b : Order) {r : MatchResult}
    → (match_with a b).2 ≡ some r
    → IsConserved a b (match_with a b).0 (match_with a b).1 r
unfolding match_with fill is_active
match_with-IsConserved a b e = ground arith

-- Two orders with the same terms differ in what is left to fill at most.
pub record SameTerms (a a' : Order) : Type 0 where
  pub id : a'.id ≡ a.id
  pub offered_token : a'.offered_token ≡ a.offered_token
  pub requested_token : a'.requested_token ≡ a.requested_token
  pub offered : a'.offered ≡ a.offered
  pub requested : a'.requested ≡ a.requested
  pub remaining_le : a'.requested_remaining ≤ a.requested_remaining

pub fill-SameTerms : (a : Order) (x : Amount) → SameTerms a (fill a x).0
unfolding fill
fill-SameTerms a x = ground arith

pub match_with-SameTerms :
    (a b : Order) → SameTerms a (match_with a b).0 × SameTerms b (match_with a b).1
unfolding match_with fill is_active
match_with-SameTerms a b = ground arith

pub SameTerms-IsValid : (a a' : Order) → SameTerms a a' → IsValid a → IsValid a'
SameTerms-IsValid a a' s v = ground arith
