-- ===== src/Db.antt =====
-- crates/solver/src/db/db.rs, models.rs and schema.rs: the tables, each a map by its primary key,
-- and the queries on them as functions of the tables. The bytes of an id stand for the id, and the
-- text of a status for the status (`Status.from_str-as_str`); an amount goes into an `i64` column
-- and out of it by casts that keep its 64 bits. Connections, pragmas and migrations are diesel's;
-- a call that fails changes nothing, since each is one statement or one transaction.
pub mod Statuses
pub mod Inserts
pub mod Registry
use Prim.Native.String.{String}
use solver.Prelude.{
  ℕ, suc, ◌+◌, Bool, true, false, ◌&&◌, ◌||◌, Option, none, some, List, [], ◌∷◌, ◌++◌, ◌==◌, nat_eq,
  if◌then◌else◌, contains, add, is_some, filter, ◌>>=◌,
}
use solver.Prelude.Maps.{Map, get, insert, remove, contains_key, values}
use solver.Order.{OrderId, TokenId, Amount}
use solver.Matcher.{Bytes, IngestOrder}
use solver.Status.{OrderStatus, active, settling, executed, onchain_nullified, same_status}

-- An account's id is a number, too.
abbrev pub AccountId : Type 0
AccountId = ℕ

pub record NoteRow : Type 0 where
  pub note_id : OrderId
  pub account_id : AccountId
  pub raw_data : Bytes

pub record OrderRow : Type 0 where
  pub note_id : OrderId
  pub account_id : AccountId
  pub requested_asset : TokenId
  pub requested_amount : Amount
  pub offered_asset : TokenId
  pub offered_amount : Amount
  pub timestamp : ℕ
  pub status : OrderStatus

pub record GeneratedNoteRow : Type 0 where
  pub note_id : OrderId
  pub account_id : AccountId
  pub source_note_a : OrderId
  pub source_note_b : OrderId
  pub raw_data : Bytes
  pub created_at : ℕ

pub record RegisteredTokenRow : Type 0 where
  pub token_id : TokenId
  pub created_at : ℕ
  pub external_symbol : Option String
  pub decimals : Option ℕ
  pub ticker : Option String

pub record Db : Type 0 where
  pub last_fetched_block : ℕ
  pub notes : Map OrderId NoteRow
  pub orders : Map OrderId OrderRow
  pub generated_notes : Map OrderId GeneratedNoteRow
  pub registered_tokens : Map TokenId RegisteredTokenRow

unfoldable pub get_last_fetched_block : Db → ℕ
get_last_fetched_block d = d.last_fetched_block

-- `insert_or_ignore_into(notes)`
unfoldable pub insert_notes : List NoteRow → Map OrderId NoteRow → Map OrderId NoteRow
insert_notes [] table = table
insert_notes (n ∷ ns) table =
    insert_notes ns (if contains_key n.note_id table then table else insert n.note_id n table)

-- `insert_or_ignore_into(orders)`, with the ids of the rows that went in.
unfoldable pub insert_orders :
    List OrderRow → Map OrderId OrderRow → List OrderId → Map OrderId OrderRow × List OrderId
insert_orders [] table inserted = (table, inserted)
insert_orders (o ∷ os) table inserted =
    let known = contains_key o.note_id table in
    insert_orders os (if known then table else insert o.note_id o table)
      (if known then inserted else add o.note_id inserted)

unfoldable pub insert_notes_batch : Db → List NoteRow → List OrderRow → ℕ → Db × List OrderId
insert_notes_batch d new_notes new_orders block_number =
    let (table, inserted) = insert_orders new_orders d.orders [] in
    (
      record d {
        notes = insert_notes new_notes d.notes;
        orders = table;
        last_fetched_block = block_number;
      },
      inserted,
    )

-- `UPDATE orders SET status = s WHERE chosen`, and the number of rows that it touches.
unfoldable pub set_where :
    (OrderRow → Bool) → OrderStatus → Map OrderId OrderRow → Map OrderId OrderRow × ℕ
set_where chosen s [] = ([], 0)
set_where chosen s ((id, row) ∷ rows) =
    let (rest, count) = set_where chosen s rows in
    if chosen row
    then ((id, record row { status = s }) ∷ rest, suc count)
    else ((id, row) ∷ rest, count)

unfoldable pub get_active_orders : Db → List OrderRow
get_active_orders d = filter (λ row. same_status row.status active) (values d.orders)

unfoldable pub update_order_status : Db → OrderId → OrderStatus → Db
update_order_status d note_id s = record d {
  orders = (set_where (λ row. row.note_id == note_id) s d.orders).0;
}

unfoldable pub reset_orders_to_active : Db → List OrderId → Db
reset_orders_to_active d [] = d
reset_orders_to_active d (id ∷ ids) = reset_orders_to_active (update_order_status d id active) ids

unfoldable pub update_orders_status : Db → List OrderId → OrderStatus → Db × ℕ
update_orders_status d note_ids new_status =
    let (rows, count) = set_where (λ row. contains row.note_id note_ids) new_status d.orders in
    (record d { orders = rows }, count)

-- The guard `status IN ('active', 'settling')`.
unfoldable pub is_open : OrderStatus → Bool
is_open s = same_status s active || same_status s settling

unfoldable pub mark_orders_onchain_nullified : Db → List OrderId → Db × ℕ
mark_orders_onchain_nullified d note_ids =
    let (rows, count) =
      set_where (λ row. contains row.note_id note_ids && is_open row.status) onchain_nullified
        d.orders in
    (record d { orders = rows }, count)

unfoldable pub reset_all_settling_to_active : Db → Db × ℕ
reset_all_settling_to_active d =
    let (rows, count) = set_where (λ row. same_status row.status settling) active d.orders in
    (record d { orders = rows }, count)

unfoldable pub ingest_order : OrderRow → Bytes → IngestOrder
ingest_order row raw_data = record {
  note_id = row.note_id;
  offered_token = row.offered_asset;
  requested_token = row.requested_asset;
  offered_amount = row.offered_amount;
  requested_amount = row.requested_amount;
  raw_note_data = raw_data;
}

-- The inner join of the active orders with the notes.
unfoldable pub join_notes : List OrderRow → Map OrderId NoteRow → List IngestOrder
join_notes [] notes = []
join_notes (row ∷ rows) notes =
    let rest = join_notes rows notes in
    elim (get row.note_id notes) [ none ↦ rest | some n ↦ ingest_order row n.raw_data ∷ rest ]

unfoldable pub load_active_orders_with_notes : Db → List IngestOrder
load_active_orders_with_notes d = join_notes (get_active_orders d) d.notes

-- `insert_into` fails on a key that is there, and the transaction with it.
unfoldable pub execute_trade_atomic : Db → GeneratedNoteRow → OrderId → OrderId → Option Db
execute_trade_atomic d generated_note source_note_a source_note_b =
    if contains_key generated_note.note_id d.generated_notes
    then none
    else some (
        update_order_status
          (update_order_status
            (record d {
              generated_notes = insert generated_note.note_id generated_note d.generated_notes;
            })
            source_note_a executed)
          source_note_b executed)
