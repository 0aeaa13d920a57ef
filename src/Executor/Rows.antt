-- ===== src/Executor/Rows.antt =====
-- What the writes of the executor make of the row of an order.
use solver.Prelude.{
  ◌≡◌, refl, ◌∙◌, Bool, true, false, not, ◌&&◌, some, List, [], ◌∷◌, inl, inr, Bool-cases,
  if◌then◌else◌, nat_eq, contains, null,
}
use solver.Prelude.Maps.{get}
use solver.Order.{OrderId}
use solver.Status.{OrderStatus, active, onchain_nullified}
use solver.Db.{OrderRow, Db, update_orders_status, mark_orders_onchain_nullified, is_open}
use solver.Db.Statuses.{with_status, get-update_orders_status, get-mark_orders_onchain_nullified}
use solver.Executor.{refeed_orders, Classified, ExecInput, failed, write_classified}

-- What the writes make of the row of an order, on the ids and off them; a write that is skipped on
-- an empty list is the same write.
module _ (d : Db) (ids : List OrderId) (i : OrderId) (row : OrderRow)
    (stored : get i d.orders ≡ some row) (own : row.note_id ≡ i) where
  pub updated_in :
      (s : OrderStatus)
      → contains i ids ≡ true
      → get i (update_orders_status d ids s).0.orders ≡ some (with_status s row)
  updated_in s member = get-update_orders_status d ids s i stored ∙ rw (own, member) refl

  pub updated_out :
      (s : OrderStatus)
      → contains i ids ≡ false
      → get i (update_orders_status d ids s).0.orders ≡ some row
  updated_out s member = get-update_orders_status d ids s i stored ∙ rw (own, member) refl

  pub nullified_in :
      is_open row.status ≡ true
      → contains i ids ≡ true
      → get i (mark_orders_onchain_nullified d ids).0.orders
        ≡ some (with_status onchain_nullified row)
  nullified_in opened member =
      get-mark_orders_onchain_nullified d ids i stored ∙ rw (own, member, opened) refl

  pub nullified_out :
      contains i ids ≡ false → get i (mark_orders_onchain_nullified d ids).0.orders ≡ some row
  nullified_out member = get-mark_orders_onchain_nullified d ids i stored ∙ rw (own, member) refl

pub skipped_in {ℓ} :
    {A : Type ℓ} (x y : A) (i : OrderId) (ids : List OrderId)
    → contains i ids ≡ true
    → (if null ids then x else y) ≡ y
skipped_in x y i [] h = absurd (cc (h))
skipped_in x y i (j ∷ ids) h = refl

pub guard_off : (t w : Bool) → w ≡ true → (t && not w) ≡ false
guard_off true w h = rw h refl
guard_off false w h = refl

abbrev pub nullified_of : Db → Classified → Db
nullified_of d c = if null c.consumed then d else (mark_orders_onchain_nullified d c.consumed).0

abbrev pub reverted_of : Db → Classified → Db
reverted_of d c =
    if null c.active_ids
    then nullified_of d c
    else (update_orders_status (nullified_of d c) c.active_ids active).0

pub write_classified_smooth :
    (input : ExecInput) (d : Db) (c : Classified)
    → input.nullify_write ≡ true
    → input.active_write ≡ true
    → write_classified input d c
      ≡ failed (reverted_of d c) (refeed_orders input.room c.active_orders)
unfolding write_classified
write_classified_smooth input d c n a =
    rw
      (
        write_classified,
        guard_off (not (null c.consumed)) input.nullify_write n,
        guard_off (not (null c.active_ids)) input.active_write a,
      )
      refl

module _ (d : Db) (c : Classified) (i : OrderId) (row : OrderRow)
    (stored : get i d.orders ≡ some row) (own : row.note_id ≡ i) where
  pub nullified_of-off : contains i c.consumed ≡ false → get i (nullified_of d c).orders ≡ some row
  nullified_of-off off = elim (Bool-cases (null c.consumed)) [
    | inl e ↦ rw e stored
    | inr e ↦ rw e (nullified_out d c.consumed i row stored own off)
  ]

  pub nullified_of-on :
      is_open row.status ≡ true
      → contains i c.consumed ≡ true
      → get i (nullified_of d c).orders ≡ some (with_status onchain_nullified row)
  nullified_of-on opened on =
      rw (skipped_in d (mark_orders_onchain_nullified d c.consumed).0 i c.consumed on)
        (nullified_in d c.consumed i row stored own opened on)

  pub reverted_of-consumed :
      is_open row.status ≡ true
      → contains i c.consumed ≡ true
      → contains i c.active_ids ≡ false
      → get i (reverted_of d c).orders ≡ some (with_status onchain_nullified row)
  reverted_of-consumed opened on off = elim (Bool-cases (null c.active_ids)) [
    | inl e ↦ rw e (nullified_of-on opened on)
    | inr e ↦ rw e (
        updated_out (nullified_of d c) c.active_ids i (with_status onchain_nullified row)
          (nullified_of-on opened on) own active off)
  ]

  pub reverted_of-active :
      contains i c.consumed ≡ false
      → contains i c.active_ids ≡ true
      → get i (reverted_of d c).orders ≡ some (with_status active row)
  reverted_of-active off on =
      rw
        (skipped_in (nullified_of d c)
          (update_orders_status (nullified_of d c) c.active_ids active).0 i c.active_ids on)
        (updated_in (nullified_of d c) c.active_ids i row (nullified_of-off off) own active on)
