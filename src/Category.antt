-- ===== src/Category.antt =====
-- model/repository/category/: the categories of a shop.
pub mod Tree
pub mod Flat
pub mod Repo
pub mod Fixture
mod Tests
