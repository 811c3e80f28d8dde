-- ===== src/Ops/Samples.antt =====
-- The empty database, for the tests.
use topology_supply_chain.Common.{[]}
use topology_supply_chain.Sql.{Table}
use topology_supply_chain.Ops.Store.{Db}

abbrev pub no_rows : {R : Type 0} → Table R
no_rows = record { rows = []; next_id = 1 }

abbrev pub empty : Db
empty = record {
  batches = no_rows;
  reservations = no_rows;
  transfers = no_rows;
  movements = [];
  warehouses = no_rows;
  stocktakes = no_rows;
  stocktake_counts = [];
  execution_orders = no_rows;
  delivery_batches = no_rows;
  order_items = no_rows;
  purchase_orders = [];
  approvals = no_rows;
  versions = [];
  audits = [];
  outbox = [];
  uuids_drawn = 0;
}
