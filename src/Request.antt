-- ===== src/Request.antt =====
-- graphql/, api/graphql/ and html/: what the handlers take from a request, which is the store and the
-- page.
pub mod Paging
pub mod Pagination
pub mod Store
mod Tests
