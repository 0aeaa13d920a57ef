-- ===== src/Executor/Within.antt =====
-- Rebuilding and classifying a batch name ids of the batch only.
use solver.Prelude.{
  ℕ, zero, suc, ◌≡◌, refl, sym, ap, ◌∙◌, subst, false, some, List, [], ◌∷◌, inl, inr, Bool-cases,
  ◌==◌, nat_eq, contains, eq_of_some,
}
use solver.Order.{OrderId}
use solver.Matcher.{FilledNote, IngestOrder}
use solver.Ingest.{Note, from_note}
use solver.Ingest.Steps.{sent_ids}
use solver.Flow.Terms.{bind-some}
use solver.Executor.{
  refed_order, rebuild_ingest_order, rebuild_all_orders, refeed_orders, Classified, classify_notes,
  source_note_ids,
}

pub rebuilt_id :
    (filled : FilledNote) (note : Note) {o : IngestOrder}
    → rebuild_ingest_order filled note ≡ some o
    → o.note_id ≡ filled.note_id
unfolding rebuild_ingest_order refed_order
rebuilt_id filled note h =
    let (parsed, read, h1) = bind-some (from_note note) _ h in
    sym (ap (λ (o : IngestOrder). o.note_id) (eq_of_some h1))

pub not_head :
    (i j : OrderId) (ids : List OrderId)
    → contains i (j ∷ ids) ≡ false
    → ((i == j) ≡ false) × (contains i ids ≡ false)
not_head i j ids h = elim (Bool-cases (i == j)) [
  | inl e ↦ absurd (cc (rw e at h))
  | inr e ↦ (e, rw e at h)
]

pub no_head :
    (i j : OrderId) (ids : List OrderId)
    → (i == j) ≡ false
    → contains i ids ≡ false
    → contains i (j ∷ ids) ≡ false
no_head i j ids e h = rw (e, h) refl

pub rebuild_all_orders-elsewhere :
    (fs : List FilledNote) (notes : List Note) {orders : List IngestOrder} (i : OrderId)
    → rebuild_all_orders fs notes ≡ some orders
    → contains i (source_note_ids fs) ≡ false
    → contains i (sent_ids orders) ≡ false
unfolding rebuild_all_orders source_note_ids
rebuild_all_orders-elsewhere [] notes i h off = rw (← (eq_of_some h)) refl
rebuild_all_orders-elsewhere (filled ∷ fs) [] i h off = rw (← (eq_of_some h)) refl
rebuild_all_orders-elsewhere (filled ∷ fs) (note ∷ notes) i h off =
    let (o, made, h1) = bind-some (rebuild_ingest_order filled note) _ h in
    let (os, rest, h2) = bind-some (rebuild_all_orders fs notes) _ h1 in
    let (e, later) = not_head i filled.note_id (source_note_ids fs) off in
    ap (λ x. contains i (sent_ids x)) (sym (eq_of_some h2))
    ∙ no_head i o.note_id (sent_ids os) (rw (rebuilt_id filled note made) e)
        (rebuild_all_orders-elsewhere fs notes i rest later)

pub refeed_orders-elsewhere :
    (room : ℕ) (orders : List IngestOrder) (i : OrderId)
    → contains i (sent_ids orders) ≡ false
    → contains i (sent_ids (refeed_orders room orders)) ≡ false
unfolding refeed_orders
refeed_orders-elsewhere room [] i h = refl
refeed_orders-elsewhere zero (o ∷ orders) i h = refl
refeed_orders-elsewhere (suc room) (o ∷ orders) i h =
    let (e, later) = not_head i o.note_id (sent_ids orders) h in
    no_head i o.note_id _ e (refeed_orders-elsewhere room orders i later)

-- The classification names ids of the batch only.
abbrev pub IsElsewhere : OrderId → Classified → Type 0
IsElsewhere i c =
    (contains i c.consumed ≡ false)
    × (contains i c.active_ids ≡ false)
    × (contains i (sent_ids c.active_orders) ≡ false)

pub classify_notes-IsElsewhere :
    (consumed_ids : List OrderId) (fs : List FilledNote) (notes : List Note) (c : Classified)
    (i : OrderId)
    → classify_notes consumed_ids fs notes ≡ some c
    → contains i (source_note_ids fs) ≡ false
    → IsElsewhere i c
unfolding classify_notes source_note_ids
classify_notes-IsElsewhere consumed_ids [] notes c i h off =
    rw (← (eq_of_some h)) (refl, refl, refl)
classify_notes-IsElsewhere consumed_ids (filled ∷ fs) [] c i h off =
    rw (← (eq_of_some h)) (refl, refl, refl)
classify_notes-IsElsewhere consumed_ids (filled ∷ fs) (note ∷ notes) c i h off =
    let (e, later) = not_head i filled.note_id (source_note_ids fs) off in
    elim (Bool-cases (contains filled.note_id consumed_ids)) [
      | inl gone ↦
          let (r, rest, h1) =
            bind-some (classify_notes consumed_ids fs notes) _ (rw (classify_notes, gone) at h) in
          let there = classify_notes-IsElsewhere consumed_ids fs notes r i rest later in
          subst (λ x. IsElsewhere i x) (eq_of_some h1)
            (no_head i filled.note_id r.consumed e there.0, there.1, there.2)
      | inr stays ↦
          let (o, made, h1) =
            bind-some (rebuild_ingest_order filled note) _ (rw (classify_notes, stays) at h) in
          let (r, rest, h2) = bind-some (classify_notes consumed_ids fs notes) _ h1 in
          let there = classify_notes-IsElsewhere consumed_ids fs notes r i rest later in
          subst (λ x. IsElsewhere i x) (eq_of_some h2)
            (
              there.0,
              no_head i filled.note_id r.active_ids e there.1,
              no_head i o.note_id (sent_ids r.active_orders) (rw (rebuilt_id filled note made) e)
                  there.2,
            )
    ]
