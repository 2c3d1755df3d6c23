-- ===== src/Lib.antt =====
-- MyOriShop (viktorplus/myorishop): a shop's stock ledger and cash ledger behind web forms.
--
-- Every change of stock is a row of the append-only table `operations`, written by one function,
-- `record_operation` of app/services/ledger.py, which also moves two caches: `Product.quantity` and
-- `Batch.quantity`. Money is a row of `cash_movements`, written by `record_cash_movement` of
-- app/services/finance.py. The services validate a form, then write in one transaction: a sale, a
-- return and a transfer stage several rows and commit once; a write-off, a correction and a manual
-- cash movement commit one row.
--
-- Which file models which part:
--   Prelude (Tests, Lists, Int): the shared names, Boolean tests, and the integers over the native
--     naturals. Text: Python's `str` as a list of code points, `strip`, the reading of quantities.
--   Models, Db: the tables of app/models.py, each with its newest row first, and what an INSERT is
--     refused for: its primary key, UNIQUE(device_id, seq), its foreign keys to sales, customers,
--     products and warehouses (app/db.py switches foreign keys on).
--   Session: the SQLAlchemy session. An action is a function from the committed tables, the tables
--     that the transaction sees and the number of ids drawn to a value or an exception, and the
--     session after it. `attempt` is `try: ... except: rollback`. Its children hold one rule for
--     each way to build an action: Keeps (an invariant), Atomic (one commit at the end), Closes
--     (the same where it may raise), Measure (by how much a number moves), Relates (tables before
--     and after), Ensures (what a return establishes), Yields (of its value), Idle (that nothing
--     changes). `Env` has what a request runs under: the device id, the user and the user's
--     warehouses (app/services/security.py), the clock and the supply of `uuid4`.
--   IsoDate: `date.isoformat` and `date.fromisoformat`, with the ISO week dates that it also reads.
--   Sort, Extends: `sorted` by a key, and tables to which rows were only added.
--   Money (Decimals, Rounding, Digits, RoundTrip): app/core.py, `to_cents` through `Decimal`,
--     `format_cents`, the card prices of a currency, `rub_suggestion`. `format_ru_date` is in
--     IsoDate.
--   Ledger: app/services/ledger.py. Dates has `parse_op_date`, Checks the guards of
--     `record_operation`; Projection states that every cached quantity is the ledger's sum; Append
--     and Record keep it; Staging, Posts and Effect say what a call commits and does; Moves by how
--     much it moves a stock; Lots and Rebuild are about `recompute_derived`.
--   Finance: app/services/finance.py. Record and Moves are about `record_cash_movement`, Manual
--     about the manual form.
--   Catalog, Batches: what the forms share of app/services/catalog.py and app/services/batches.py,
--     the INSERT of a batch (Add) and `update_batch` (Edit, EditStock).
--   Cards: `create_product` and `update_product` of app/services/catalog.py. Filled says what a form
--     makes of a card, Rows what its audit rows tell, Stored what the UPDATE leaves in the table,
--     Agrees joins these; Edited, Rewrite and Audited are about an edit, Created about a new card,
--     Closing about the transaction of both, Deletion about the deletion and restoration of a card.
--     Ledger.Trail lists what the ledger says of a card.
--   Sales (Basket), Writeoffs, Corrections, Transfers, Returns: the services of those names under
--     app/services/, each `register_*` whole, its helper functions named for the guard they stand
--     for, in the source's order. Register has the rollback and the invariant; Posted, Taken,
--     Corrected, Moved and Capped what a success has done. Of a return Refund, Staged and Refunded
--     have the goods and the money.
--   Receipts (Form): app/services/receipts.py, `register_receipt` with the card of a new code, the
--     changed prices, and the new or chosen batch. Closing has what is committed, Audit that the
--     audit rows move nothing, Received what a receipt has done, Stock and Register the invariant.
--   Merge: app/services/merge.py, `apply_merge`. Tables has `_partition_new` and `_insert_new` for
--     any table, Codes `_suffix_code` and `_resolve_code_collisions`; Partition, Suffix are about
--     these. Appended and OnlyAdds say what a merge leaves alone, Present, Lasting and Replay what
--     it leaves behind, Replayed what a second one does. A record's data is the row of its columns;
--     the ids of the table `users`, to which an author refers, are in `Env`.
--   Warehouses (Reachable): app/services/warehouses.py, the four requests and the sequences of them.
--   Pagination (Pages, Window, Shown): app/services/pagination.py.
--   Tests: a small shop, and the theorems at it.
--
-- Bounds. A request sees one instant: the clock is read once. `Decimal` and the quantities are read
-- over ASCII digits, `upper` acts on ASCII letters and `lower` on ASCII and Cyrillic ones.
-- Quantities and amounts are not bounded: Python's `int` refuses a text of more than 4300 digits and
-- SQLite a number of more than 64 bits, where the model goes on. `rub_suggestion` rounds by a closed
-- formula, exact where `Decimal` is, below its 28 digits. The foreign keys are those that
-- app/models.py declares; a database made by the migrations has some of them, as that of
-- `operations.sale_id`, as bare columns, and refuses less. A cash category is one of the keys or any
-- other text. `nth_day` of IsoDate runs on twelve months' fuel, which is a year; `digits_of` of
-- Money.Decimals on one more than the number, which has fewer digits than that. `existing_ids` of
-- Merge.Tables runs on as many chunks as there are ids, `suffix_from` of Merge.Codes on the widths
-- that are left. The rows of a merge have distinct ids within a kind, which `parse_exchange` sees
-- to. The year of a shown date has four digits. The row of a receipt is flushed by the commit, every
-- other INSERT where it is made. The `saved` of an edit names the card before it.
--
-- Not modelled: the HTTP routes and templates, which pass a form to a service and render its
-- answer; the page reads (lists, lookups, reports); backup, update, the launcher and the
-- migrations; the rate limit, a token bucket over the floats of a clock. The exchange format that a
-- merge is read from and the network around it, the editing of customers, and
-- accounts and login are separate components that this library does not reach yet.
pub mod Prelude
pub mod Text
pub mod Models
pub mod IsoDate
pub mod Money
pub mod Sort
pub mod Extends
pub mod Db
pub mod Session
pub mod Ledger
pub mod Finance
pub mod Sales
pub mod Catalog
pub mod Cards
pub mod Batches
pub mod Writeoffs
pub mod Corrections
pub mod Transfers
pub mod Returns
pub mod Merge
pub mod Receipts
pub mod Pagination
pub mod Warehouses
pub mod Tests
