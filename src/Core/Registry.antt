-- ===== src/Core/Registry.antt =====
-- core/registry/registry.go and keys.go: the shared key-value store with locks on single keys, and
-- the registry of one request. A method that writes returns the new registry. The values are
-- `interface{}` in the source: any type here.
pub mod Locking
mod Tests
use magento_go.Prelude.{[], String, Bool, false, Option, none, some, ◌<>◌, string_eq, if◌then◌else◌}
use magento_go.Prelude.Dict.{Dict, lookup, insert, erase, has}
use magento_go.Prelude.Panic.{Run, done, panic}

abbrev pub key_request_start : String
key_request_start = "request_start"

abbrev pub key_registry_cmd : String
key_registry_cmd = "registry:cmd"

abbrev pub key_registry_cron : String
key_registry_cron = "registry:cron"

abbrev pub key_registry_api : String
key_registry_api = "registry:api"

abbrev pub key_registry_routes : String
key_registry_routes = "registry:routes"

abbrev pub key_registry_graphql : String
key_registry_graphql = "registry:graphql"

-- `locked` is a nil map until the first `Lock`.
pub record Registry {ℓ} (V : Type ℓ) : Type ℓ where
  pub global : Dict String V
  pub locked : Option (Dict String (Unit {0}))

module _ {ℓ} {V : Type ℓ} where
  unfoldable pub lock : String → Registry V → Registry V
  lock key r = elim r.locked [
    | none ↦ record r { locked = some (insert key tt []) }
    | some l ↦ record r { locked = some (insert key tt l) }
  ]

  unfoldable pub is_locked : String → Registry V → Bool
  is_locked key r = elim r.locked [ none ↦ false | some l ↦ has key l ]

  unfoldable pub new_registry : Registry V
  new_registry = record { global = []; locked = none }

  unfoldable pub set_global : String → V → Registry V → Run (Registry V)
  set_global key value r =
      if is_locked key r
      then panic ("registry: " <> key <> " is locked (immutable)")
      else done (record r { global = insert key value r.global })

  unfoldable pub get_global : String → Registry V → Option V
  get_global key r = lookup key r.global

  unfoldable pub delete_global : String → Registry V → Registry V
  delete_global key r = record r { global = erase key r.global }

  -- `delete` of a nil map does nothing.
  unfoldable pub unlock_for_testing : String → Registry V → Registry V
  unlock_for_testing key r = elim r.locked [
    | none ↦ r
    | some l ↦ record r { locked = some (erase key l) }
  ]

pub record RequestRegistry {ℓ} (V : Type ℓ) : Type ℓ where
  pub local : Dict String V

module _ {ℓ} {V : Type ℓ} where
  unfoldable pub new_request_registry : RequestRegistry V
  new_request_registry = record { local = [] }

  unfoldable pub set_local : String → V → RequestRegistry V → RequestRegistry V
  set_local key value rr = record { local = insert key value rr.local }

  unfoldable pub get_local : String → RequestRegistry V → Option V
  get_local key rr = lookup key rr.local

  unfoldable pub delete_local : String → RequestRegistry V → RequestRegistry V
  delete_local key rr = record { local = erase key rr.local }
