-- ===== src/Adapter.antt =====
-- crates/solver/src/ingest/ingest.rs: `MidenClientAdapter`, from what the Miden client's store and
-- the node answer. A note's nullifier is a number, and `nullifier` the client's function for it; a
-- hash set of ids is a list.
use solver.Prelude.{
  ℕ, ◌≡◌, refl, sym, ◌∙◌, subst, Option, none, some, List, [], ◌∷◌, ◌++◌, inl, inr, In,
  Option-cases, if◌then◌else◌, nat_eq, add, null, eq_of_some, ◌>>=◌,
}
use solver.Prelude.Maps.{Map, get, insert}
use solver.Prelude.Entries.{AllEntries, insert-AllEntries, get-AllEntries}
use solver.Order.{OrderId}
use solver.Db.Inserts.{In-add}
use solver.Ingest.{Note, SyncResult}

abbrev pub Nullifier : Type 0
Nullifier = ℕ

-- What the store answers for a note that a sync reported.
pub data Lookup : Type 0 where
  found : Note → Lookup
  unconvertible missing failed_lookup : Lookup

pub record SyncSummary : Type 0 where
  pub block_num : ℕ
  pub new_public_notes : List OrderId
  pub new_private_notes : List OrderId
  pub consumed_notes : List OrderId

unfoldable pub collect_notes : (OrderId → Lookup) → List OrderId → List Note
collect_notes get_input_note [] = []
collect_notes get_input_note (id ∷ ids) =
    let rest = collect_notes get_input_note ids in
    elim (get_input_note id) [ found note ↦ note ∷ rest | _ ↦ rest ]

unfoldable pub sync_state : (OrderId → Lookup) → Option SyncSummary → Option SyncResult
sync_state get_input_note summary = summary >>= λ s. some (record {
  block_num = s.block_num;
  new_notes = collect_notes get_input_note (s.new_public_notes ++ s.new_private_notes);
  consumed_notes = s.consumed_notes;
})

module _ (nullifier : Note → Nullifier) where
  unfoldable pub nullifier_to_id : List Note → Map Nullifier OrderId → Map Nullifier OrderId
  nullifier_to_id [] ids = ids
  nullifier_to_id (note ∷ notes) ids = nullifier_to_id notes (insert (nullifier note) note.id ids)

  unfoldable pub nullifiers_of : List Note → List Nullifier → List Nullifier
  nullifiers_of [] set = set
  nullifiers_of (note ∷ notes) set = nullifiers_of notes (add (nullifier note) set)

  unfoldable pub consumed_of :
      Map Nullifier OrderId → List (Nullifier × Option ℕ) → List OrderId → List OrderId
  consumed_of ids [] consumed = consumed
  consumed_of ids ((n, none) ∷ heights) consumed = consumed_of ids heights consumed
  consumed_of ids ((n, some height) ∷ heights) consumed =
      consumed_of ids heights (elim (get n ids) [ none ↦ consumed | some id ↦ add id consumed ])

  -- `commit_heights` is the node's answer, in the order in which its map is visited.
  unfoldable pub check_consumed_notes :
      (List Nullifier → Option (List (Nullifier × Option ℕ))) → List Note → Option (List OrderId)
  check_consumed_notes commit_heights notes =
      let answer = commit_heights (nullifiers_of notes []) >>= λ heights.
      some (consumed_of (nullifier_to_id notes []) heights []) in
      if null notes then some [] else answer

  -- The id is that of a note that was asked about and whose nullifier has a height in the answer.
  abbrev pub IsConsumed : List Note → List (Nullifier × Option ℕ) → OrderId → Type 0
  IsConsumed notes heights id =
      (note : Note) × In note notes
      × (note.id ≡ id)
      × (height : ℕ) × In (nullifier note, some height) heights

  abbrev IsNoteOf : List Note → Nullifier → OrderId → Type 0
  IsNoteOf notes n id = (note : Note) × In note notes × (note.id ≡ id) × (nullifier note ≡ n)

  nullifier_to_id-IsNoteOf :
      (all notes : List Note) (ids : Map Nullifier OrderId)
      → ((note : Note) → In note notes → In note all)
      → AllEntries (IsNoteOf all) ids
      → AllEntries (IsNoteOf all) (nullifier_to_id notes ids)
  unfolding nullifier_to_id
  nullifier_to_id-IsNoteOf all [] ids within h = h
  nullifier_to_id-IsNoteOf all (note ∷ notes) ids within h =
      nullifier_to_id-IsNoteOf all notes (insert (nullifier note) note.id ids)
        (λ m i. within m (inr i))
        (insert-AllEntries (IsNoteOf all) (nullifier note) note.id ids
          (note, within note (inl refl), refl, refl) h)

  consumed_of-IsConsumed :
      (notes : List Note) (all heights : List (Nullifier × Option ℕ)) (ids : Map Nullifier OrderId)
      (consumed : List OrderId) (i : OrderId)
      → ((x : Nullifier × Option ℕ) → In x heights → In x all)
      → AllEntries (IsNoteOf notes) ids
      → ((j : OrderId) → In j consumed → IsConsumed notes all j)
      → In i (consumed_of ids heights consumed)
      → IsConsumed notes all i
  unfolding consumed_of
  consumed_of-IsConsumed notes all [] ids consumed i within keyed h m = h i m
  consumed_of-IsConsumed notes all ((n, none) ∷ heights) ids consumed i within keyed h m =
      consumed_of-IsConsumed notes all heights ids consumed i (λ x e. within x (inr e)) keyed h m
  consumed_of-IsConsumed notes all ((n, some height) ∷ heights) ids consumed i within keyed h m =
      elim (Option-cases (get n ids)) [
        | inl e ↦
            consumed_of-IsConsumed notes all heights ids consumed i (λ x u. within x (inr u)) keyed
              h (rw (consumed_of, e) at m)
        | inr (id, e) ↦
            let (note, listed, own, at) = get-AllEntries (IsNoteOf notes) n ids keyed e in
            let here = within (n, some height) (inl refl) in
            consumed_of-IsConsumed notes all heights ids (add id consumed) i
              (λ x u. within x (inr u)) keyed
              (λ j member. elim (In-add j id consumed member) [
                | inl same ↦ (
                  note,
                  listed,
                  own ∙ sym same,
                  height,
                  subst (λ k. In (k, some height) all) (sym at) here,
                )
                | inr old ↦ h j old
              ])
              (rw (consumed_of, e) at m)
      ]

  -- Every id that the nullifier check reports is the id of a note that it was asked about, whose
  -- nullifier the node's answer gives a height.
  pub check_consumed_notes-IsConsumed :
      (commit_heights : List Nullifier → Option (List (Nullifier × Option ℕ))) (notes : List Note)
      (heights : List (Nullifier × Option ℕ)) (consumed : List OrderId) (i : OrderId)
      → commit_heights (nullifiers_of notes []) ≡ some heights
      → check_consumed_notes commit_heights notes ≡ some consumed
      → In i consumed
      → IsConsumed notes heights i
  unfolding check_consumed_notes
  check_consumed_notes-IsConsumed commit_heights [] heights consumed i answered h m =
      absurd (rw (← (eq_of_some h)) at m)
  check_consumed_notes-IsConsumed commit_heights (note ∷ notes) heights consumed i answered h m =
      let is = eq_of_some (rw (check_consumed_notes, answered) at h) in
      consumed_of-IsConsumed (note ∷ notes) heights heights _ [] i (λ x e. e)
        (nullifier_to_id-IsNoteOf (note ∷ notes) (note ∷ notes) [] (λ n e. e) tt)
        (λ j none_yet. absurd none_yet) (rw (← is) at m)
