-- ===== src/Inventory/Rows.antt =====
-- Statements on inventory_batches and inventory_movements that several operations share.
use topology_supply_chain.Common.{ℕ, str_eq, Bool, true, false, ◌&&◌, ◌∷◌, any, ◌==◌, if◌then◌else◌}
use topology_supply_chain.Platform.Failure.{database, operation_failed}
use topology_supply_chain.Platform.Tx.{Tx, ok, fail}
use topology_supply_chain.Sql.{insert, taken}
use topology_supply_chain.Ops.Store.{
  Db, Batch, Movement, SourceKey, transfer_key, consumption_key, release_key, receipt_key,
}

bool_eq : Bool → Bool → Bool
bool_eq true b = b
bool_eq false true = false
bool_eq false false = true

same_key : SourceKey → SourceKey → Bool
unfolding bool_eq
same_key (transfer_key i o) (transfer_key j p) = i == j && bool_eq o p
same_key (consumption_key s) (consumption_key t) = str_eq s t
same_key (release_key s) (release_key t) = str_eq s t
same_key (receipt_key i) (receipt_key j) = i == j
same_key _ _ = false

-- INSERT INTO inventory_movements: the source key is unique.
unfoldable pub insert_movement : Movement → Tx Db (Unit {0})
unfolding same_key
insert_movement m db =
    if any (λ (n : Movement). same_key n.source_key m.source_key) db.movements
    then fail (database operation_failed)
    else ok (tt, record db { movements = m ∷ db.movements })

-- INSERT INTO inventory_batches: the batch number is unique. The result is the new id.
unfoldable pub insert_batch : Batch → Tx Db ℕ
insert_batch b db =
    if taken (λ (a : Batch). str_eq a.batch_no b.batch_no) db.batches.rows
    then fail (database operation_failed)
    else (let (batches, id) = insert b db.batches in ok (id, record db { batches = batches }))
