-- ===== src/Router/Sorting.antt =====
-- The sort of the quotes of a pair: the most generous first, with every quote kept.
use solver.Prelude.{◌*◌, ◌<◌, ◌≤◌, List, [], ◌∷◌, inl, inr, arith, Bool-cases, All}
use native.Mathlib.Nat.{le_of_mul-le-mul_right, mul-le-mul_right}
use solver.Select.{Quote}
use solver.Router.{no_less_generous, insert_quote, sort_quotes}

-- `q` is no less generous than `r`.
abbrev pub Leads : Quote → Quote → Type 0
Leads q r = r.supply * q.demand ≤ q.supply * r.demand

-- No quote of the list is more generous than one before it.
abbrev pub IsDescending : List Quote → Type 0
IsDescending [] = Unit
IsDescending (q ∷ qs) = All (Leads q) qs × IsDescending qs

Leads-trans : (p q r : Quote) → 0 < q.demand → Leads p q → Leads q r → Leads p r
Leads-trans p q r pos h i =
    le_of_mul-le-mul_right {k = q.demand}
      (omega (arith, mul-le-mul_right r.demand h, mul-le-mul_right p.demand i)) pos

All-Leads :
    (p q : Quote) (rs : List Quote) → 0 < q.demand → Leads p q → All (Leads q) rs → All (Leads p) rs
All-Leads p q [] pos h a = tt
All-Leads p q (r ∷ rs) pos h a = (Leads-trans p q r pos h a.0, All-Leads p q rs pos h a.1)

module _ (P : Quote → Type 0) where
  insert_quote-All : (q : Quote) (rs : List Quote) → P q → All P rs → All P (insert_quote q rs)
  unfolding insert_quote
  insert_quote-All q [] p a = (p, tt)
  insert_quote-All q (r ∷ rs) p a = elim (Bool-cases (no_less_generous q r)) [
    | inl h ↦ rw (h, insert_quote) (p, a)
    | inr h ↦ rw (h, insert_quote) (a.0, insert_quote-All q rs p a.1)
  ]

  pub sort_quotes-All : (qs : List Quote) → All P qs → All P (sort_quotes qs)
  unfolding sort_quotes
  sort_quotes-All [] a = tt
  sort_quotes-All (q ∷ qs) a = insert_quote-All q (sort_quotes qs) a.0 (sort_quotes-All qs a.1)

-- Every quote asks for something.
abbrev pub AreDemanding : List Quote → Type 0
AreDemanding qs = All (λ (q : Quote). 0 < q.demand) qs

insert_quote-IsDescending :
    (q : Quote) (rs : List Quote)
    → AreDemanding rs
    → IsDescending rs
    → IsDescending (insert_quote q rs)
unfolding insert_quote no_less_generous
insert_quote-IsDescending q [] p s = (tt, tt)
insert_quote-IsDescending q (r ∷ rs) p s = elim (Bool-cases (no_less_generous q r)) [
  | inl h ↦
      let leads : Leads q r = ground arith in
      rw (h, insert_quote) ((leads, All-Leads q r rs p.0 leads s.0), s)
  | inr h ↦
      let leads : Leads r q = ground arith in
      rw (h, insert_quote)
        (insert_quote-All (Leads r) q rs leads s.0, insert_quote-IsDescending q rs p.1 s.1)
]

pub sort_quotes-IsDescending : (qs : List Quote) → AreDemanding qs → IsDescending (sort_quotes qs)
unfolding sort_quotes
sort_quotes-IsDescending [] p = tt
sort_quotes-IsDescending (q ∷ qs) p =
    insert_quote-IsDescending q (sort_quotes qs)
      (sort_quotes-All (λ (r : Quote). 0 < r.demand) qs p.1) (sort_quotes-IsDescending qs p.1)
