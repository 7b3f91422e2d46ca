-- ===== src/Core.antt =====
-- core/: the registry, the cache and the authentication that the other packages build on.
pub mod Registry
pub mod Cache
pub mod Auth
