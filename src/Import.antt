-- ===== src/Import.antt =====
-- service/product/: the import of products from CSV, and of stock from JSON.
pub mod Std
pub mod Row
mod Fixture
pub mod Stock
pub mod Price
pub mod Gallery
pub mod Jobs
pub mod Entity
pub mod Schema
pub mod Eav
pub mod Run
