-- ===== src/Resolver.antt =====
-- graphql/resolvers/: how products are shown to a client of GraphQL.
pub mod Mapper
pub mod Uid
pub mod Magento
pub mod Shared
pub mod Listing
pub mod Categories
pub mod Products
mod Tests
