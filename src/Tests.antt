-- ===== src/Tests.antt =====
-- A small shop, and the theorems at inputs that meet their hypotheses.
pub mod Shop
mod LedgerTests
mod SalesTests
mod StockTests
mod ReturnTests
mod MoneyTests
mod MergeTests
mod ReceiptTests
mod PaginationTests
mod CardTests
mod WarehouseTests
