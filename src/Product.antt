-- ===== src/Product.antt =====
-- model/repository/product/ and what reads it: the products of a shop as flat maps.
pub mod Value
pub mod Flat
pub mod Repo
pub mod Fixture
mod Tests
