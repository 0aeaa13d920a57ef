-- ===== src/Select/Chosen.antt =====
-- What `choose` finds: a slot whose quote is usable and accepts the note's rate, with room for it.
use solver.Prelude.{
  ℕ, zero, suc, ◌+◌, ◌≤◌, ◌≡◌, refl, ap, ◌>>=◌, ◌⊎◌, inl, inr, true, false, Option, some, none,
  List, [], ◌∷◌, Bool-cases, arith, get_elem?, leb,
}
use solver.Order.{Order}
use solver.Select.{Slot, is_unusable, crosses, choose, dex_at}

pub record Fits (note : Order) (time : ℕ) (slots : List Slot) (i : ℕ) : Type 0 where
  pub slot : Slot
  pub found : get_elem? slots i ≡ some slot
  pub usable : is_unusable slot.0 time ≡ false
  pub accepts : crosses note slot.0 ≡ true
  pub room : note.requested ≤ slot.1

Fits-later :
    (note : Order) (time : ℕ) (s : Slot) (slots : List Slot) (j : ℕ)
    → Fits note time slots j
    → Fits note time (s ∷ slots) (suc j)
Fits-later note time s slots j f = record {
  slot = f.slot;
  found = f.found;
  usable = f.usable;
  accepts = f.accepts;
  room = f.room;
}

-- Either an earlier choice stands, or an index from `i` on was chosen.
abbrev Chosen : Order → ℕ → List Slot → ℕ → Option ℕ → ℕ → Type 0
Chosen note time slots i chosen k =
    (chosen ≡ some k) ⊎ ((j : ℕ) × (k ≡ i + j) × Fits note time slots j)

later-Chosen :
    (note : Order) (time : ℕ) (s : Slot) (slots : List Slot) (i : ℕ) (chosen : Option ℕ) (k : ℕ)
    → Chosen note time slots (suc i) chosen k
    → Chosen note time (s ∷ slots) i chosen k
later-Chosen note time s slots i chosen k (inl e) = inl e
later-Chosen note time s slots i chosen k (inr (j, e, f)) =
    inr (suc j, omega arith, Fits-later note time s slots j f)

choose-Chosen :
    (note : Order) (time : ℕ) (slots : List Slot) (i : ℕ) (chosen : Option ℕ) (k : ℕ)
    → choose note time slots i chosen ≡ some k
    → Chosen note time slots i chosen k
unfolding choose
choose-Chosen note time [] i chosen k e = inl e
choose-Chosen note time ((q, left) ∷ slots) i chosen k e = elim (Bool-cases (is_unusable q time)) [
  | inl stale ↦
      later-Chosen note time (q, left) slots i chosen k
        (choose-Chosen note time slots (suc i) chosen k (rw (stale, choose) at e))
  | inr live ↦ elim (Bool-cases (crosses note q)) [
    | inr out ↦ inl (rw (live, out, choose) at e)
    | inl accepted ↦ elim (Bool-cases (leb note.requested left)) [
      | inr full ↦
          later-Chosen note time (q, left) slots i chosen k
            (choose-Chosen note time slots (suc i) chosen k
              (rw (live, accepted, full, choose) at e))
      | inl room ↦
          elim (choose-Chosen note time slots (suc i) (some i) k
            (rw (live, accepted, room, choose) at e)) [
              | inr (j, h, f) ↦ later-Chosen note time (q, left) slots i chosen k (inr (j, h, f))
              | inl here ↦ inr (
                0,
                ground arith,
                record {
                  slot = (q, left);
                  found = refl;
                  usable = live;
                  accepts = accepted;
                  room = ground arith;
                },
              )
            ]
    ]
  ]
]

-- What is chosen for a note fits it.
pub choose-Fits :
    (note : Order) (time : ℕ) (slots : List Slot) {k : ℕ}
    → choose note time slots 0 none ≡ some k
    → Fits note time slots k
choose-Fits note time slots {k} e = elim (choose-Chosen note time slots 0 none k e) [
  | inl h ↦ absurd (cc)
  | inr (j, h, f) ↦ let same : k ≡ j = omega arith in rw same f
]

pub dex_at_found :
    (slots : List Slot) (i : ℕ) (s : Slot)
    → get_elem? slots i ≡ some s
    → dex_at i slots ≡ some s.0.dex
unfolding dex_at
dex_at_found [] i s h = absurd (cc)
dex_at_found (x ∷ slots) zero s h = ap (λ (o : Option Slot). o >>= λ t. some t.0.dex) h
dex_at_found (x ∷ slots) (suc i) s h = dex_at_found slots i s h
