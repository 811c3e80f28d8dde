-- ===== src/Inventory/Freeze.antt =====
-- Stocktakes freeze the stock that they count (apps/api/src/modules/stocktakes/support.ts).
use topology_supply_chain.Common.{
  ℕ, String, str_eq, Bool, true, false, ◌&&◌, ◌||◌, Option, none, some, List, any, ◌==◌,
}
use topology_supply_chain.Platform.Tx.{Tx, gets, ◌>>◌}
use topology_supply_chain.Ops.Store.{
  Db, Stocktake, StocktakeCount, StocktakeStatus, StocktakeScope, first_count, recount,
  pending_approval, full_warehouse,
}
use topology_supply_chain.Ops.Versions.{lock_version}

-- s.status IN ('first_count', 'recount', 'pending_approval')
is_counting : StocktakeStatus → Bool
is_counting first_count = true
is_counting recount = true
is_counting pending_approval = true
is_counting _ = false

is_full : StocktakeScope → Bool
is_full full_warehouse = true
is_full _ = false

-- EXISTS (SELECT 1 FROM stocktake_counts c WHERE … c.count_round = 0 AND c.sku = ?)
snapshot_has : ℕ → String → List StocktakeCount → Bool
snapshot_has stocktake_id sku = any (λ (c : StocktakeCount).
    c.stocktake_id == stocktake_id && (c.count_round == 0 && str_eq c.sku sku))

covers : List StocktakeCount → ℕ → Stocktake → Option String → Bool
unfolding is_full snapshot_has
covers counts id s none = true
covers counts id s (some sku) = is_full s.scope || snapshot_has id sku counts

-- The rows that the query of `freezeExists` returns are not empty.
unfoldable pub is_frozen : ℕ → Option String → Db → Bool
unfolding is_counting covers
is_frozen warehouse_id sku db =
    any
      (λ (e : ℕ × Stocktake).
        e.1.warehouse_id == warehouse_id
        && (is_counting e.1.status && covers db.stocktake_counts e.0 e.1 sku))
      db.stocktakes.rows

-- lockWarehouseFreeze
unfoldable pub lock_warehouse_freeze : ℕ → Tx Db ℕ
unfolding lock_version
lock_warehouse_freeze warehouse_id = lock_version "warehouse_inventory_freeze" warehouse_id

-- freezeExists
unfoldable pub freeze_exists : ℕ → Option String → Tx Db Bool
unfolding lock_warehouse_freeze is_frozen
freeze_exists warehouse_id sku = do
  lock_warehouse_freeze warehouse_id
  gets (is_frozen warehouse_id sku)
