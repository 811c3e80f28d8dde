-- ===== src/Lib.antt =====
-- The supply chain system: a Fastify API over MySQL, a web application and a worker. The business
-- operations run as idempotent commands. A request carries an idempotency key; the command's body runs
-- inside one database transaction that checks the writer's fence, records the key, runs the operation
-- and records the answer. The operations read and write tables of stock, reservations and transfers.
--
-- Platform models how a command runs:
--   Platform/Failure: the errors (apps/api/src/errors.ts, packages/contracts/src/errors.ts).
--   Platform/Tx: the body of a transaction, a function from the state to a result and a state, or an
--     error. Platform/Keeps and Platform/Leads reason about bodies.
--   Platform/Transaction: `transaction` of apps/api/src/infrastructure/database.ts. A `Network` says how
--     each race against the deadline ends; a lost commit may or may not have been applied.
--   Platform/Statement: one statement inside a transaction (connectionExecutor of the same file).
--   Platform/Header, Platform/Canonical, Platform/Journal, Platform/Idempotency: the headers, the
--     canonical JSON and its digest, the tables, and executeIdempotentCommand of
--     apps/api/src/platform/commands.ts. JSON texts and SHA-256 are the parameter `Codec`; the theorems
--     on replays assume that `parse` reads back what `stringify` wrote.
--   Platform/Commands: executeCommand and executeOperationsCommand
--     (apps/api/src/platform/operations-command.ts); the outcomes of the origin and CSRF checks and of
--     authentication are arguments. Platform/PublicError: what an error shows to the client.
-- Sql models tables with an auto-increment key and the statements on them.
-- Ops models what the operations share (apps/api/src/platform/operations-support.ts): the tables
--   (database/runtime/schema.ts) in Ops/Store, the checks of input and roles in Ops/Values and
--   Ops/Access, resource versions in Ops/Versions, the audit log and the outbox in Ops/Events.
-- Inventory models apps/api/src/modules/inventory/writes.ts and what it calls:
--   Inventory/Freeze: stocktake freezes (apps/api/src/modules/stocktakes/support.ts).
--   Inventory/Scope: requireWarehouseScope (apps/api/src/modules/warehouses/support.ts) and
--     requireReservationEntityScope.
--   Inventory/Reserve: reserveInventory. Inventory/Transfer/Request: requestTransfer.
--   Inventory/Transfer/Move and Inventory/Transfer/Transition: transitionTransfer.
--   Inventory/Routes: the HTTP routes of these commands
--     (apps/api/src/composition/operations-writes-manifest.ts).
--   Inventory/Stock states the invariant of the stock, Inventory/Transfer/Conservation the account of
--   what is available and what is on its way.
-- Production/Reserved models how a production order consumes and releases what it has reserved
--   (apps/api/src/modules/production-orders/writes.ts); the rows that it has locked are an argument.
-- Finance/PaymentGuard models apps/web/app/lib/payment-guard.ts.
-- Web/BusinessRules models calculateReservation and calculateExpiryStatus of apps/web/app/lib/business-rules.ts.
-- Worker models apps/worker/src/server.ts and apps/worker/src/providers.ts:
--   Worker/Job: its functions, which may throw, and its transactions. A connection says whether the
--     transaction begins and what becomes of its commit. Worker/Job/Ensures reasons about them.
--   Worker/Rows: the tables. Worker/Lease: the statements that claim, complete, pause and fail outbox
--     messages. Worker/Fence: requireFence. Worker/Payload: parsePayload and requireDomainEvent.
--     Worker/Providers: the calls of the e-mail, text message and scan services.
--   Worker/Dispatch: dispatchDomainEvent, dispatchNotification and the transaction of a file scan.
--   Worker/Reminder: sweepReminder.
--   Worker/Process: the loop, cut at its transactions. `act` takes a worker from one phase (idle,
--     holding a message, delivered, …) to the next.
--   Worker/System: several workers and the API (enqueueOutbox of apps/api/src/platform/outbox.ts) on one
--     database, as a step relation; `Reach` is any sequence of steps.
--   Worker/Life: what statements, transactions and acts do to one message and to the outbox.
--   A provider may be asked again for the same message, with the same key, as its service is no part of the
--   database.
--   Clocks, the answers of providers and the fate of each transaction are arguments of an act. A process
--   is a number of its own, since each draws its workerId at random; a restart is another worker. The
--   payload of a message is given by what JSON.parse makes of it; a text comes with what Number makes of
--   it. The comparison of `available_at` is that of its texts, ISO times or the DATETIME that pause
--   writes.
--
-- Numbers are natural or signed integers without a bound; where the source tests for a safe
-- integer, so does the model; a sum that JavaScript would round, past the safe range, is exact. All
-- loops are structural recursion over lists, so no fuel is needed. A text is a list of codes where
-- the source looks into it, and a string where it only compares it; texts are compared exactly,
-- while MySQL goes by the collation of the column.
--
-- Left out: connection pools, HTTP routing, sessions and authentication, file storage, JSON payloads of
-- the audit log and of the API's events, which no modelled code of the API reads, the other business
-- modules of the API, the worker's health server and its configuration, the
-- pages of the web application, and database tooling. Transactions that run at the same time are not
-- interleaved: the rows that a transaction reads for update are locked until it ends. The transactions
-- of different workers follow each other in any order.
pub mod Common
pub mod Platform
pub mod Sql
pub mod Ops
pub mod Inventory
pub mod Finance
pub mod Production
pub mod Worker
pub mod Web
