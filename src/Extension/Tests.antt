-- ===== src/Extension/Tests.antt =====
-- The extension registries at small registries of numbered functions.
use magento_go.Prelude.{
  ℕ, String, ◌≡◌, refl, true, false, none, [], ◌∷◌, string_eq, ◌==◌, if◌then◌else◌,
}
use magento_go.Prelude.Dict.{Dict, lookup}
use magento_go.Prelude.Panic.{done}
use magento_go.Core.Registry.{get_global, key_registry_graphql}
use magento_go.Extension.Value.{resolvers}
use magento_go.Extension.Graphql.{
  State, as_resolvers, get_entries, resolve, register as register_resolver,
  unregister as unregister_resolver,
}
use magento_go.Extension.Graphql.Laws.{resolve-unregister}

abbrev entries : Dict String ℕ
entries = ("ping", 1) ∷ []

abbrev before : State ℕ
before = record {
  registry = record { global = (key_registry_graphql, resolvers entries) ∷ []; locked = none };
  graphql_locked = false;
  query_resolver_factory = none;
}

before_entries : get_entries before.registry ≡ done entries
unfolding get_entries as_resolvers get_global lookup
before_entries = refl

abbrev after : State ℕ
after = record before { graphql_locked = true }

resolve-unregister_example :
    (s' s'' : State ℕ) × (unregister_resolver "ping" after ≡ done s')
    × ((field : String)
        → resolve field s' ≡ done (if "ping" == field then none else lookup field entries, s'))
    × (register_resolver "ping" 2 s' ≡ done s'')
resolve-unregister_example = resolve-unregister "ping" 2 entries after refl before_entries
