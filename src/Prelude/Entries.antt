-- ===== src/Prelude/Entries.antt =====
-- Predicates on the entries of a map, and writes that change nothing.
use solver.Prelude.Tests.{Key, ◌==◌, Bool-cases, eq_of_some}
use solver.Prelude.Lists.{All, length}
use solver.Prelude.Maps.{Map, get, insert, remove, get-insert_ne, get-remove}
use mathlib.Core.Path.{◌≡◌, refl, ap, sym, ◌∙◌}
use mathlib.Core.Bool.{false, false≢true}
use mathlib.Core.Logic.{inl, inr}
use Prim.Native.Nat.{suc}
use mathlib.Core.List.{[], ◌∷◌}
use mathlib.Core.Option.{none, some}

module _ {ℓ κ ρ} {K : Type ℓ} {V : Type κ} ⦃e : Key K⦄ (P : K → V → Type ρ) where
  -- Every entry of the map has the property.
  abbrev pub AllEntries : Map K V → Type ρ
  AllEntries m = All (λ (x : K × V). P x.0 x.1) m

  pub insert-AllEntries :
      (k : K) (v : V) (m : Map K V) → P k v → AllEntries m → AllEntries (insert k v m)
  unfolding insert
  insert-AllEntries k v [] p a = (p, tt)
  insert-AllEntries k v ((j, w) ∷ m) p a = elim (Bool-cases (k == j)) [
    | inl h ↦ rw (h, insert) (rw ((e.same_iff k j).0 h) at p, a.1)
    | inr h ↦ rw (h, insert) (a.0, insert-AllEntries k v m p a.1)
  ]

  pub remove-AllEntries : (k : K) (m : Map K V) → AllEntries m → AllEntries (remove k m)
  unfolding remove
  remove-AllEntries k [] a = a
  remove-AllEntries k ((j, w) ∷ m) a = elim (Bool-cases (k == j)) [
    | inl h ↦ rw (h, remove) (remove-AllEntries k m a.1)
    | inr h ↦ rw (h, remove) (a.0, remove-AllEntries k m a.1)
  ]

  pub get-AllEntries : (k : K) (m : Map K V) {v : V} → AllEntries m → get k m ≡ some v → P k v
  unfolding get
  get-AllEntries k [] a g = absurd (cc)
  get-AllEntries k ((j, w) ∷ m) {v} a g = elim (Bool-cases (k == j)) [
    | inl h ↦
        let same : w ≡ v = eq_of_some (rw (h, get) at g) in
        rw ((e.same_iff k j).0 h) (rw same at a.0)
    | inr h ↦ get-AllEntries k m a.1 (rw (h, get) at g)
  ]

module _ {ℓ κ} {K : Type ℓ} {V : Type κ} ⦃e : Key K⦄ where
  -- To write what is there changes nothing.
  pub insert_same : (k : K) (v : V) (m : Map K V) → get k m ≡ some v → insert k v m ≡ m
  unfolding get insert
  insert_same k v [] g = absurd (cc)
  insert_same k v ((j, w) ∷ m) g = elim (Bool-cases (k == j)) [
    | inl h ↦ rw (h, insert) (ap (λ u. (j, u) ∷ m) (sym (eq_of_some (rw (h, get) at g))))
    | inr h ↦ rw (h, insert) (ap (λ r. (j, w) ∷ r) (insert_same k v m (rw (h, get) at g)))
  ]

  -- To remove what is not there changes nothing.
  pub remove_absent : (k : K) (m : Map K V) → get k m ≡ none → remove k m ≡ m
  unfolding get remove
  remove_absent k [] g = refl
  remove_absent k ((j, w) ∷ m) g = elim (Bool-cases (k == j)) [
    | inl h ↦ absurd (cc (rw (h, get) at g))
    | inr h ↦ rw (h, remove) (ap (λ r. (j, w) ∷ r) (remove_absent k m (rw (h, get) at g)))
  ]

  -- No key has two entries.
  abbrev pub UniqueKeys : Map K V → Type κ
  UniqueKeys [] = Unit
  UniqueKeys ((j, w) ∷ m) = (get j m ≡ none) × UniqueKeys m

  pub insert-UniqueKeys : (k : K) (v : V) (m : Map K V) → UniqueKeys m → UniqueKeys (insert k v m)
  unfolding insert get
  insert-UniqueKeys k v [] u = (refl, tt)
  insert-UniqueKeys k v ((j, w) ∷ m) u = elim (Bool-cases (k == j)) [
    | inl h ↦ rw (h, insert) u
    | inr h ↦ rw (h, insert) (get-insert_ne k j v m (differ h) ∙ u.0, insert-UniqueKeys k v m u.1)
  ]
    where
      differ : (k == j) ≡ false → (j == k) ≡ false
      differ h = elim (Bool-cases (j == k)) [
        | inl s ↦ absurd (false≢true (sym h ∙ (e.same_iff k j).1 (sym ((e.same_iff j k).0 s))))
        | inr s ↦ s
      ]

  -- How many entries a map has after a write or a removal.
  pub length-insert_old :
      (k : K) (v : V) (m : Map K V) {w : V} → get k m ≡ some w → length (insert k v m) ≡ length m
  unfolding insert get
  length-insert_old k v [] g = absurd (cc (g))
  length-insert_old k v ((j, w) ∷ m) g = elim (Bool-cases (k == j)) [
    | inl h ↦ rw (h, insert) refl
    | inr h ↦ rw (h, insert) (ap suc (length-insert_old k v m (rw (h, get) at g)))
  ]

  pub length-insert_new :
      (k : K) (v : V) (m : Map K V) → get k m ≡ none → length (insert k v m) ≡ suc (length m)
  unfolding insert get
  length-insert_new k v [] g = refl
  length-insert_new k v ((j, w) ∷ m) g = elim (Bool-cases (k == j)) [
    | inl h ↦ absurd (cc (rw (h, get) at g))
    | inr h ↦ rw (h, insert) (ap suc (length-insert_new k v m (rw (h, get) at g)))
  ]

  pub length-remove_old :
      (k : K) (m : Map K V) {w : V}
      → UniqueKeys m
      → get k m ≡ some w
      → suc (length (remove k m)) ≡ length m
  unfolding remove get
  length-remove_old k [] u g = absurd (cc (g))
  length-remove_old k ((j, w) ∷ m) u g = elim (Bool-cases (k == j)) [
    | inl h ↦
        let same : k ≡ j = (e.same_iff k j).0 h in
        rw (h, remove, remove_absent k m (rw same u.0)) refl
    | inr h ↦ rw (h, remove) (ap suc (length-remove_old k m u.1 (rw (h, get) at g)))
  ]

  get-remove-none : (k j : K) (m : Map K V) → get j m ≡ none → get j (remove k m) ≡ none
  get-remove-none k j m g =
      get-remove k j m ∙ elim (Bool-cases (j == k)) [ inl h ↦ rw h refl | inr h ↦ rw h g ]

  pub remove-UniqueKeys : (k : K) (m : Map K V) → UniqueKeys m → UniqueKeys (remove k m)
  unfolding remove
  remove-UniqueKeys k [] u = tt
  remove-UniqueKeys k ((j, w) ∷ m) u = elim (Bool-cases (k == j)) [
    | inl h ↦ rw (h, remove) (remove-UniqueKeys k m u.1)
    | inr h ↦ rw (h, remove) (get-remove-none k j m u.0, remove-UniqueKeys k m u.1)
  ]
