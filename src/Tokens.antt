-- ===== src/Tokens.antt =====
-- crates/solver/src/order.rs: the configured pairs, and the tokens that they name.
use solver.Prelude.{
  ◌≡◌, refl, List, [], ◌∷◌, ◌++◌, ◌⊎◌, ◌↔◌, inl, inr, true, false, nat_eq, add, contains, In,
  In-append_left, In-append_right, In-append_cases, Bool-cases, ◌||◌, ◌==◌, arith,
}
use solver.Order.{TokenId}

pub record AssetPair : Type 0 where
  pub x : TokenId
  pub y : TokenId

-- The set `seen` holds what `out` holds, so the two are one list.
unfoldable pub unique_from : List TokenId → List AssetPair → List TokenId
unique_from out [] = out
unique_from out (p ∷ pairs) = unique_from (add p.y (add p.x out)) pairs

unfoldable pub unique_tokens : List AssetPair → List TokenId
unfolding unique_from
unique_tokens pairs = unique_from [] pairs

-- The token stands in one of the pairs.
abbrev pub Named : TokenId → List AssetPair → Type 0
Named t [] = ⊥
Named t (p ∷ pairs) = (t ≡ p.x) ⊎ ((t ≡ p.y) ⊎ Named t pairs)

-- No token stands twice.
abbrev pub IsUnique : List TokenId → Type 0
IsUnique [] = Unit
IsUnique (t ∷ ts) = (contains t ts ≡ false) × IsUnique ts

contains-In : (t : TokenId) (ts : List TokenId) → contains t ts ≡ true → In t ts
contains-In t [] h = absurd (cc)
contains-In t (u ∷ ts) h = elim (Bool-cases (t == u)) [
  | inl e ↦ inl (ground arith)
  | inr e ↦ inr (contains-In t ts (ground arith))
]

add-In : (t u : TokenId) (ts : List TokenId) → In t (add u ts) ↔ ((t ≡ u) ⊎ In t ts)
add-In t u ts = elim (Bool-cases (contains u ts)) [
  | inl e ↦ rw e (λ m. inr m, λ c. elim c [ inl same ↦ rw same (contains-In u ts e) | inr m ↦ m ])
  | inr e ↦ rw e (
    λ m. elim (In-append_cases t ts (u ∷ []) m) [
      | inl l ↦ inr l
      | inr r ↦ elim r [ inl same ↦ inl same | inr none_left ↦ absurd none_left ]
    ],
    λ c. elim c [
      | inl same ↦ In-append_right t ts (u ∷ []) (inl same)
      | inr m ↦ In-append_left t ts (u ∷ []) m
    ],
  )
]

contains-append :
    (t u : TokenId) (ts : List TokenId) → contains t (ts ++ u ∷ []) ≡ (contains t ts || (t == u))
contains-append t u [] = ground arith
contains-append t u (v ∷ ts) = ground (arith, contains-append t u ts)

append-IsUnique :
    (u : TokenId) (ts : List TokenId)
    → contains u ts ≡ false
    → IsUnique ts
    → IsUnique (ts ++ u ∷ [])
append-IsUnique u [] h v = (refl, tt)
append-IsUnique u (t ∷ ts) h v =
    (ground (arith, contains-append t u ts), append-IsUnique u ts (ground arith) v.1)

add-IsUnique : (u : TokenId) (ts : List TokenId) → IsUnique ts → IsUnique (add u ts)
add-IsUnique u ts v = elim (Bool-cases (contains u ts)) [
  | inl e ↦ rw e v
  | inr e ↦ rw e (append-IsUnique u ts e v)
]

unique_from-IsUnique :
    (out : List TokenId) (pairs : List AssetPair) → IsUnique out → IsUnique (unique_from out pairs)
unfolding unique_from
unique_from-IsUnique out [] v = v
unique_from-IsUnique out (p ∷ pairs) v =
    unique_from-IsUnique (add p.y (add p.x out)) pairs (add-IsUnique p.y _ (add-IsUnique p.x out v))

unique_from-In :
    (t : TokenId) (out : List TokenId) (pairs : List AssetPair)
    → In t (unique_from out pairs) ↔ (In t out ⊎ Named t pairs)
unfolding unique_from
unique_from-In t out [] = (λ m. inl m, λ c. elim c [ inl m ↦ m | inr h ↦ absurd h ])
unique_from-In t out (p ∷ pairs) =
    let ih = unique_from-In t (add p.y (add p.x out)) pairs in
    let y = add-In t p.y (add p.x out) in
    let x = add-In t p.x out in
    (
      λ m. elim (ih.0 m) [
        | inr n ↦ inr (inr (inr n))
        | inl m' ↦ elim (y.0 m') [
          | inl e ↦ inr (inr (inl e))
          | inr m'' ↦ elim (x.0 m'') [ inl e ↦ inr (inl e) | inr o ↦ inl o ]
        ]
      ],
      λ c. ih.1 (elim c [
        | inl o ↦ inl (y.1 (inr (x.1 (inr o))))
        | inr n ↦ elim n [
          | inl e ↦ inl (y.1 (inr (x.1 (inl e))))
          | inr n' ↦ elim n' [ inl e ↦ inl (y.1 (inl e)) | inr later ↦ inr later ]
        ]
      ]),
    )

-- The token set names each token of the pairs once, and no other.
pub unique_tokens-IsUnique :
    (pairs : List AssetPair) (t : TokenId)
    → IsUnique (unique_tokens pairs) × (In t (unique_tokens pairs) ↔ Named t pairs)
unfolding unique_tokens
unique_tokens-IsUnique pairs t =
    let members = unique_from-In t [] pairs in
    (
      unique_from-IsUnique [] pairs tt,
      (λ m. elim (members.0 m) [ inl h ↦ absurd h | inr n ↦ n ], λ n. members.1 (inr n)),
    )
