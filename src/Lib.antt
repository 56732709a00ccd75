-- ===== src/Lib.antt =====
-- Verification of the Restiq backend: what happens to money, orders and kitchen tickets.
--
-- The backend is a set of services over one database. A service's handler runs in a transaction of
-- Prisma, which a thrown exception rolls back. The development models the database as a record of
-- tables (Store.Rows) and a transaction body as a function from a database to an error or to a
-- value and a new database (Store.Transaction); a handler is the do block of its steps in the
-- order of the source. Concurrent handlers take a row lock on the bill first, so they run one after
-- another; where the source meets another transaction in between (raising a bill), what that one
-- commits is an argument.
--
-- File       Source, from the repository's root
-- Tax        src/pos/bills/tax.ts: computeTax is compute_tax, with its two rounding rules
-- Pricing    src/admin/menu/pricing.ts: pickCurrentPrice, resolveCurrentPrice, assertItemAvailable
-- Menu       src/admin/menu/combo-menu.ts: resolveComboSelection; with the checks of an item and its
--            modifiers that src/pos/orders/order-lines.service.ts and
--            src/guest/cart/cart.service.ts share
-- Kitchen    src/kitchen/tickets.service.ts: fireOnSend, bump, recall, refire
-- Bills      src/pos/bills/bill-core.ts: subtotal, refreshOpenBillTotals, createOrGetBillRecord,
--            createTenderRecord, cashRoundOffMinor
-- Settle     src/pos/bills/bill-core.ts: commitFinalize, as validate and commit_writes; with
--            src/platform/payments-simulator.ts and src/platform/tenant-mode.ts
-- Devices    src/pos/device-routing.ts
-- Intents    src/pos/payments/intent-core.ts and src/pos/payments/intents.service.ts
-- Shares     src/guest/bills/bills.service.ts: syncShares, payShare, payAll and the rest
-- Permissions src/platform/permissions.ts
-- Manager    src/platform/manager-auth.service.ts and src/platform/attempt-limiter.ts
-- Refund     src/pos/bills/bills.service.ts: refund
-- Till       src/pos/bills/bills.service.ts: createBill, getBill, finalize
-- Orders     src/pos/orders/orders.service.ts, src/platform/token-number.ts and
--            src/platform/live-window.ts; Orders.Lines and Orders.Adding are
--            src/pos/orders/order-lines.service.ts
-- Shifts     src/pos/shifts/shifts.service.ts: openShift, logCashMovement, closeShift and the reads
-- Guests     Guests.Sessions is src/guest/sessions/sessions.service.ts, Guests.Cart
--            src/guest/cart/cart.service.ts, Guests.Placing src/guest/orders/orders.service.ts
--
-- Where a property is about every course of events, a request is a value (Intents.Serving,
-- Shifts.Drawer, Guests.Serving) and the requests of a list are served one after another by
-- serve_all of Store.Transaction, a request that throws leaving the database as it was.
--
-- Orders feed Kitchen (an order that is sent fires its tickets) and Bills (a bill's subtotal is its
-- order's lines); Settle closes the order and fires what is left; Intents, Shares and Till write
-- tenders and end in Settle; Refund reads what Settle has stored. Manager stands between Till,
-- Refund and Orders.Lines and the staff. A guest's session holds a cart, which Guests.Placing turns
-- into an order with the rules of Menu and Pricing and sends through Kitchen. Shifts reads the
-- tenders and the credit notes of the bills that Settle has finalised.
--
-- Amounts are bigint in the source and integers here, with its division towards zero; Number() of
-- an amount is taken as the same integer. Ids and times are natural numbers, in milliseconds. Every
-- loop is structural, so no fuel is used. The clock and the server's switch for simulated payments
-- are the record Env; argon2.verify is an argument.
--
-- Not modelled: the HTTP layer with its validation of shapes, the views that only format a row,
-- notes on a line, the invoice, the print spool, the boards of the kitchen, sign-in, and the
-- consoles for administration and operations.
pub mod Base
pub mod Tax
pub mod Pricing
pub mod Store
pub mod Menu
pub mod Kitchen
pub mod Bills
pub mod Settle
pub mod Devices
pub mod Intents
pub mod Shares
pub mod Permissions
pub mod Manager
pub mod Refund
pub mod Orders
pub mod Till
pub mod Shifts
pub mod Guests
