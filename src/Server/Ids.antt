-- ===== src/Server/Ids.antt =====
-- The ids of the router's connections at each stage of their opening, and the counter.
use solver.Prelude.{
  ℕ, suc, ◌+◌, ◌%◌, ◌≤◌, ◌≡◌, refl, ◌∙◌, true, Option, none, some, List, [], ◌∷◌, inl, inr, Bool,
  Bool-cases, Option-cases, ◌==◌, nat_eq, arith, length, is_some, u64_mod,
}
use solver.Prelude.Maps.{Map, get, insert, remove, get-remove, get-insert_ne}
use solver.Prelude.Entries.{AllEntries, get-AllEntries, UniqueKeys}
use solver.Order.{DexId, Amount}
use solver.Matcher.{Bytes}
use solver.Server.{Server, Begun}

abbrev pub Frames : Type 0
Frames = List (Bytes × Amount)

-- At most one of two maps has a key.
abbrev pub AreApart {ℓ} : {A : Type ℓ} → Begun → Map DexId A → Type ℓ
AreApart a b = (dex : DexId) → is_some (get dex a) ≡ true → get dex b ≡ none

-- `n` ids have been given. Every connection, whether it is in `taken`, in `counted` or stored, has one
-- of its own, and the counter counts those that are in `counted` or stored.
pub record AreCounted (n : ℕ) (taken counted : Begun) (next : DexId) (conns : Map DexId Frames)
    (count : ℕ) : Type 0 where
  pub next_lem : next ≡ (n + 1) % u64_mod
  pub taken_below : AllEntries (λ (dex : DexId) (b : Bool). dex ≤ n) taken
  pub counted_below : AllEntries (λ (dex : DexId) (b : Bool). dex ≤ n) counted
  pub conns_below : AllEntries (λ (dex : DexId) (frames : Frames). dex ≤ n) conns
  pub taken_unique : UniqueKeys taken
  pub counted_unique : UniqueKeys counted
  pub conns_unique : UniqueKeys conns
  pub taken_counted : AreApart taken counted
  pub taken_conns : AreApart taken conns
  pub counted_conns : AreApart counted conns
  pub few : length taken + length counted + length conns ≤ n
  pub count_lem : count ≡ length counted + length conns

abbrev pub IsCounted : ℕ → Begun → Begun → Server → Type 0
IsCounted n taken counted s =
    AreCounted n taken counted s.next_dex s.router.conns s.router.conn_count

pub is_some-cases {ℓ} : {A : Type ℓ} (o : Option A) → is_some o ≡ true → (a : A) × (o ≡ some a)
is_some-cases none h = absurd (cc (h))
is_some-cases (some a) h = (a, refl)

module _ {ℓ} {A : Type ℓ} where
  pub fresh_id :
      (n : ℕ) (m : Map DexId A)
      → AllEntries (λ (dex : DexId) (a : A). dex ≤ n) m
      → get (suc n) m ≡ none
  fresh_id n m h = elim (Option-cases (get (suc n) m)) [
    | inl e ↦ e
    | inr (a, e) ↦
        let below = get-AllEntries (λ (dex : DexId) (a : A). dex ≤ n) (suc n) m h e in
        absurd (omega (arith, below))
  ]

  pub below_suc :
      (n : ℕ) (m : Map DexId A)
      → AllEntries (λ (dex : DexId) (a : A). dex ≤ n) m
      → AllEntries (λ (dex : DexId) (a : A). dex ≤ suc n) m
  below_suc n [] h = tt
  below_suc n ((dex, a) ∷ m) h = (omega (arith, h.0), below_suc n m h.1)

  -- What a removal and a write do to two maps that are apart.
  pub AreApart-remove :
      (dex : DexId) (a : Begun) (b : Map DexId A) → AreApart a b → AreApart (remove dex a) b
  AreApart-remove dex a b h j there = elim (Bool-cases (j == dex)) [
    | inl same ↦ absurd (cc (rw (get-remove dex j a, same) at there))
    | inr other ↦ h j (rw (get-remove dex j a, other) at there)
  ]

  pub AreApart-insert_left :
      (dex : DexId) (a : Begun) (b : Map DexId A)
      → get dex b ≡ none
      → AreApart a b
      → AreApart (insert dex true a) b
  AreApart-insert_left dex a b free h j there = elim (Bool-cases (j == dex)) [
    | inl same ↦ let at : j ≡ dex = ground arith in rw at free
    | inr other ↦ h j (rw (get-insert_ne dex j true a other) at there)
  ]

  pub AreApart-insert_right :
      (dex : DexId) (v : A) (a : Begun) (b : Map DexId A)
      → get dex a ≡ none
      → AreApart a b
      → AreApart a (insert dex v b)
  AreApart-insert_right dex v a b free h j there = elim (Bool-cases (j == dex)) [
    | inl same ↦ let at : j ≡ dex = ground arith in absurd (cc (rw at at there, free))
    | inr other ↦ get-insert_ne dex j v b other ∙ h j there
  ]

  pub AreApart-remove_right :
      (dex : DexId) (a : Begun) (b : Map DexId A) → AreApart a b → AreApart a (remove dex b)
  AreApart-remove_right dex a b h j there = elim (Bool-cases (j == dex)) [
    | inl same ↦ rw (get-remove dex j b, same)
    | inr other ↦ rw (get-remove dex j b, other) (h j there)
  ]

  pub AreApart-absent :
      (dex : DexId) (a : Begun) (b : Map DexId A) {v : A}
      → AreApart a b
      → get dex b ≡ some v
      → get dex a ≡ none
  AreApart-absent dex a b h g = elim (Option-cases (get dex a)) [
    | inl e ↦ e
    | inr (w, e) ↦ absurd (cc (g, h dex (rw e refl)))
  ]
