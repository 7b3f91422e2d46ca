-- ===== src/Extension/Graphql.antt =====
-- graphql/registry/registry.go: the resolvers of the GraphQL extensions by name, and the factory of
-- the main resolver.
pub mod Laws
use magento_go.Prelude.{
  String, ◌<>◌, Bool, true, false, Option, none, some, List, [], map, string_eq, if◌then◌else◌,
}
use magento_go.Prelude.Dict.{Dict, lookup, insert, erase, has}
use magento_go.Prelude.Panic.{Run, done, panic, ◌>>=◌}
use magento_go.Core.Registry.{
  Registry, is_locked, lock, get_global, set_global, unlock_for_testing, key_registry_graphql,
}
use magento_go.Extension.Value.{Value, nil, resolvers}
use magento_go.Extension.Modules.{bad_type}

-- `GlobalRegistry` with the package's own variables: `graphqlLocked` and `queryResolverFactory`.
pub record State {ℓ} (F : Type ℓ) : Type ℓ where
  pub registry : Registry (Value F)
  pub graphql_locked : Bool
  pub query_resolver_factory : Option F

module _ {ℓ} {F : Type ℓ} where
  unfoldable pub register_query_resolver_factory : F → State F → State F
  register_query_resolver_factory fn s = record s { query_resolver_factory = some fn }

  unfoldable pub get_query_resolver : State F → Run F
  get_query_resolver s = elim s.query_resolver_factory [
    | none ↦ panic "graphql/registry: QueryResolverFactory not registered"
    | some fn ↦ done fn
  ]

  unfoldable pub as_resolvers : Option (Value F) → Run (Dict String F)
  as_resolvers none = done []
  as_resolvers (some nil) = done []
  as_resolvers (some (resolvers m)) = done m
  as_resolvers (some v) = panic bad_type

  unfoldable pub get_entries : Registry (Value F) → Run (Dict String F)
  get_entries reg = as_resolvers (get_global key_registry_graphql reg)

  unfoldable pub register : String → F → State F → Run (State F)
  register name resolve s =
      if is_locked key_registry_graphql s.registry
      then panic "graphql/registry: locked (register only during init before first request)"
      else do
        entries ← get_entries s.registry
        if has name entries then panic ("graphql/registry: duplicate " <> name) else do
          reg ← set_global key_registry_graphql (resolvers (insert name resolve entries)) s.registry
          done (record s { registry = reg })

  unfoldable pub unregister : String → State F → Run (State F)
  unregister name s =
      let reg = unlock_for_testing key_registry_graphql s.registry in
      do
        entries ← get_entries reg
        reg' ← set_global key_registry_graphql (resolvers (erase name entries)) reg
        done (record s { registry = reg' })

  -- The atomic compare-and-swap at the head of `Resolve`: the first call locks.
  unfoldable pub lock_once : State F → State F
  lock_once s =
      if s.graphql_locked
      then s
      else record s { registry = lock key_registry_graphql s.registry; graphql_locked = true }

  -- Resolve: the function that is called with the arguments, or `none` for "unknown extension".
  unfoldable pub resolve : String → State F → Run (Option F × State F)
  resolve field s =
      let s' = lock_once s in do entries ← get_entries s'.registry; done (lookup field entries, s')

  unfoldable pub names : State F → Run (List String)
  names s = do entries ← get_entries s.registry; done (map (λ e. e.0) entries)
