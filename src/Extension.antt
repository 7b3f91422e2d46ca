-- ===== src/Extension.antt =====
-- The registries of extensions: api/registry.go, cmd/registry.go, cron/registry.go and
-- graphql/registry/registry.go, each over one key of `GlobalRegistry`.
pub mod Value
pub mod Modules
pub mod Cron
pub mod Graphql
mod Tests
