-- ===== src/Prelude/Maps.antt =====
-- The program's hash maps as association lists. `insert` writes in place or at the end, and
-- `remove` drops every entry of the key, so the laws of `get` have no side condition.
use solver.Prelude.Tests.{Key, ◌==◌, if◌then◌else◌, Bool-cases}
use solver.Prelude.Lists.{get_or, is_some}
use Prim.Native.Nat.{ℕ, ◌+◌}
use mathlib.Core.Path.{◌≡◌, refl, ap, sym, ◌∙◌}
use mathlib.Core.Logic.{inl, inr}
use mathlib.Core.List.{List, [], ◌∷◌}
use mathlib.Core.Bool.{Bool, true, false, false≢true}
use mathlib.Core.Option.{Option, none, some}
use native.Mathlib.Omega.{arith}

abbrev pub Map {ℓ κ} : Type ℓ → Type κ → Type (ℓ ⊔ κ)
Map K V = List (K × V)

module _ {ℓ κ} {K : Type ℓ} {V : Type κ} where
  unfoldable pub values : Map K V → List V
  values [] = []
  values ((j, w) ∷ m) = w ∷ values m

  unfoldable pub keys : Map K V → List K
  keys [] = []
  keys ((j, w) ∷ m) = j ∷ keys m

module _ {ℓ κ} {K : Type ℓ} {V : Type κ} ⦃e : Key K⦄ where
  unfoldable pub get : K → Map K V → Option V
  get k [] = none
  get k ((j, w) ∷ m) = if k == j then some w else get k m

  unfoldable pub insert : K → V → Map K V → Map K V
  insert k v [] = (k, v) ∷ []
  insert k v ((j, w) ∷ m) = if k == j then (j, v) ∷ m else (j, w) ∷ insert k v m

  unfoldable pub remove : K → Map K V → Map K V
  remove k [] = []
  remove k ((j, w) ∷ m) = let rest = remove k m in if k == j then rest else (j, w) ∷ rest

  abbrev pub contains_key : K → Map K V → Bool
  contains_key k m = is_some (get k m)

  -- `*m.entry(k).or_default()`, updated by `f`.
  abbrev pub update_entry : K → V → (V → V) → Map K V → Map K V
  update_entry k d f m = insert k (f (get_or (get k m) d)) m

  pub get-insert_self : (k : K) (v : V) (m : Map K V) → get k (insert k v m) ≡ some v
  unfolding get insert
  get-insert_self k v [] = rw ((e.same_iff k k).1 refl)
  get-insert_self k v ((j, w) ∷ m) = elim (Bool-cases (k == j)) [
    | inl h ↦ rw (h, h)
    | inr h ↦ rw (h, h) (get-insert_self k v m)
  ]

  pub get-insert_ne :
      (k q : K) (v : V) (m : Map K V) → (q == k) ≡ false → get q (insert k v m) ≡ get q m
  unfolding get insert
  get-insert_ne k q v [] h = rw h
  get-insert_ne k q v ((j, w) ∷ m) h = elim (Bool-cases (k == j)) [
    | inl p ↦ rw (p, ← (e.same_iff k j).0 p, h)
    | inr p ↦ rw p (ap (λ t. if q == j then some w else t) (get-insert_ne k q v m h))
  ]

  pub get-insert :
      (k q : K) (v : V) (m : Map K V) → get q (insert k v m) ≡ (if q == k then some v else get q m)
  get-insert k q v m = elim (Bool-cases (q == k)) [
    | inl h ↦ rw (h, (e.same_iff q k).0 h) (get-insert_self k v m)
    | inr h ↦ rw h (get-insert_ne k q v m h)
  ]

  pub get-remove : (k q : K) (m : Map K V) → get q (remove k m) ≡ (if q == k then none else get q m)
  unfolding get remove
  get-remove k q [] = elim (Bool-cases (q == k)) [ inl h ↦ rw h | inr h ↦ rw h ]
  get-remove k q ((j, w) ∷ m) = elim (Bool-cases (k == j)) [
    | inl p ↦ rw (p, get-remove k q m, ← (e.same_iff k j).0 p) (go (q == k))
    | inr p ↦ rw p (elim (Bool-cases (q == j)) [
      | inl h ↦ rw (h, differ h p)
      | inr h ↦ rw h (get-remove k q m)
    ])
  ]
    where
      go :
          (b : Bool)
          → (if b then none else get q m) ≡ (if b then none else if b then some w else get q m)
      go true = refl
      go false = refl

      differ : (q == j) ≡ true → (k == j) ≡ false → (q == k) ≡ false
      differ h p = elim (Bool-cases (q == k)) [
        | inl s ↦ absurd (
            false≢true
              (sym p ∙ (e.same_iff k j).1 (sym ((e.same_iff q k).0 s) ∙ (e.same_iff q j).0 h)))
        | inr s ↦ s
      ]

  pub get-remove_self : (k : K) (m : Map K V) → get k (remove k m) ≡ none
  get-remove_self k m = rw (get-remove k k m, (e.same_iff k k).1 refl)

  pub get-remove_ne : (k q : K) (m : Map K V) → (q == k) ≡ false → get q (remove k m) ≡ get q m
  get-remove_ne k q m h = rw (get-remove k q m, h)

-- The sum of a measure over the values. A write in place exchanges one summand.
module _ {ℓ κ} {K : Type ℓ} {V : Type κ} ⦃e : Key K⦄ (size : V → ℕ) where
  unfoldable pub total : Map K V → ℕ
  total [] = 0
  total ((j, w) ∷ m) = size w + total m

  pub total-insert_new :
      (k : K) (v : V) (m : Map K V) → get k m ≡ none → total (insert k v m) ≡ total m + size v
  unfolding get insert total
  total-insert_new k v [] h = omega arith
  total-insert_new k v ((j, w) ∷ m) h = elim (Bool-cases (k == j)) [
    | inl p ↦ cc
    | inr p ↦ rw p (omega (arith, total-insert_new k v m (rw p at h)))
  ]

  pub total-insert :
      (k : K) (v w : V) (m : Map K V)
      → get k m ≡ some w
      → total (insert k v m) + size w ≡ total m + size v
  unfolding get insert total
  total-insert k v w [] h = cc
  total-insert k v w ((j, u) ∷ m) h = elim (Bool-cases (k == j)) [
    | inl p ↦
        rw p (
          let found : some u ≡ some w = rw p at h in let same : u ≡ w = cc in rw same (omega arith))
    | inr p ↦ rw p (omega (arith, total-insert k v w m (rw p at h)))
  ]
