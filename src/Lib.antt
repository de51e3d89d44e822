-- ===== src/Lib.antt =====
-- The checkout of the shop: orders, the saga that settles them, the stock and payment services that
-- take part in it, and the ids they share. A checkout reserves stock (inventory-service), opens a
-- payment session and holds the money on a card (payment-service), then commits the stock, captures
-- the money and marks the order paid, or compensates what it did; the saga in order-service decides
-- each next step, and the participants are fenced per order by a header row.
--
-- Where each part is:
-- - Kernel: guard.ts, money.vo.ts and domain-error.ts of packages/kernel/src. A function that may
--   throw returns a result; a JavaScript number is an integer of either sign, with the test of
--   `Number.isSafeInteger` written out.
-- - Order: order-status.ts, order-state-machine.ts, order-item.entity.ts, order.entity.ts and
--   checkout-invariants.ts of apps/order-service/src/modules/order/domain. A method `m` of the class
--   is a function `m` of the record; Entity/Lifespan chains its moves. Repository is
--   infrastructure/drizzle-order.repository.ts over its rows, the outbox and the idempotency keys it
--   completes.
-- - Saga: checkout-saga.ts of the same folder, one function per transition; Saga/Run feeds the
--   transitions the events of checkout-saga.workflow.ts, any number of them in any order.
-- - Inventory: apps/inventory-service/src/modules/inventory. Fence is the decision table, Tx the rows
--   and the transaction (a state with errors that rolls back), Rows and Stock the statements of
--   stock.repository.ts, Participant the commands of inventory-participant.service.ts.
-- - IdCodec: packages/id-codec/src/snowflake.codec.ts.
-- - IdGenerator: Snowflake is snowflake.generator.ts and NodeLease node-lease.ts of
--   packages/id-generator/src, over a clock given as the sequence of its readings; EtcdStore is the
--   store of apps/id-service/src/lease, the owner key and the floor key of one node, and
--   EtcdStore/Tenures the events of all processes that want that node: a call reads at one event and
--   writes at a later one, and a holder has one call under way at a time, which writes nothing once
--   the next has begun. The wait for the next millisecond has the 40,000 turns of the source.
-- - Payment: apps/payment-service/src/modules/payment. Status, Fence, Entity and Authorization are
--   its domain; Store is the two repositories over the rows; Gateway is what the provider answers;
--   Open, Record, Capture and Cancel are the use cases, and Ledger puts their transactions in any
--   order.
-- - Session: drizzle-refresh-token.repository.ts of apps/user-service/src/modules/user/infrastructure.
--   Tokens has the rows and all transactions but `rotate`, which is in Rotation; Calls is any
--   sequence of them, Change what one of them does to the rows.
-- - Cart: cart.service.ts and drizzle-cart.repository.ts of apps/api/src/modules/cart, the requests
--   that write, each run to its end before the next.
-- - Outbox: outbox-relay.ts of packages/messaging/src/outbox, a tick over the rows in the order in
--   which it takes them, and ticks in sequence with crashes before the commit.
--
-- Choices: ids that are only compared and instants are natural numbers. A text whose content matters
-- is a list of UTF-16 code units, and letter case is that of ASCII. A table with a unique key is a
-- function, another a list. Transactions are serial: each sees what those before it committed, which
-- the row locks of the source are for. Where other transactions can commit in between, they are a
-- parameter (`others` of a Setting, `meanwhile` of a payment command), and so are clock readings,
-- minted ids, the order that `localeCompare` gives and every answer of the payment provider. The
-- compare-and-swap loop of the stock takes as many rounds as the source retries, and one more.
-- Logging and metrics are left out.
--
-- Not modelled: the catalog and media services, the priced view of a cart and requests of one user
-- that overlap, the user service less its refresh tokens, the gateway, the consumers of messages
-- and deployment, the paged reads of orders, the HTTP side of the order service, the timers and
-- activities of the workflow, webhooks and reconciliation of payments, the lapsed-hold sweep,
-- stock administration, the choice among free nodes and the keeper of the id service.
pub mod Base
pub mod Kernel
pub mod Order
pub mod IdCodec
pub mod IdGenerator
pub mod Session
pub mod Cart
pub mod Outbox
pub mod Saga
pub mod Inventory
pub mod Payment
