-- ===== src/Extension/Modules.antt =====
-- api/registry.go and cmd/registry.go: lists of modules, routes and commands, which are registered
-- by `init` functions, applied once, and locked then.
pub mod Order
use magento_go.Prelude.{String, Option, none, some, List, [], ◌∷◌, ◌++◌, string_eq, if◌then◌else◌}
use magento_go.Prelude.Panic.{Run, done, panic, ◌>>=◌}
use magento_go.Core.Registry.{
  Registry, is_locked, lock, get_global, set_global, key_registry_api, key_registry_routes,
  key_registry_cmd,
}
use magento_go.Extension.Value.{Value, nil, modules, routes, commands, jobs, resolvers}

abbrev pub bad_type : String
bad_type = "interface conversion"

module _ {ℓ} {F : Type ℓ} where
  -- `v.([]ModuleFunc)`, `v.([]RouteFunc)` and `v.([]*cobra.Command)`
  unfoldable pub as_modules : Option (Value F) → Run (List F)
  as_modules none = done []
  as_modules (some nil) = done []
  as_modules (some (modules l)) = done l
  as_modules (some v) = panic bad_type

  unfoldable pub as_routes : Option (Value F) → Run (List F)
  as_routes none = done []
  as_routes (some nil) = done []
  as_routes (some (routes l)) = done l
  as_routes (some v) = panic bad_type

  unfoldable pub as_commands : Option (Value F) → Run (List F)
  as_commands none = done []
  as_commands (some nil) = done []
  as_commands (some (commands l)) = done l
  as_commands (some v) = panic bad_type

  unfoldable pub get_modules : Registry (Value F) → Run (List F)
  get_modules reg = as_modules (get_global key_registry_api reg)

  unfoldable pub register_module : F → Registry (Value F) → Run (Registry (Value F))
  register_module fn reg =
      if is_locked key_registry_api reg
      then panic "api/registry: API modules locked (register only during init)"
      else do list ← get_modules reg; set_global key_registry_api (modules (list ++ fn ∷ [])) reg

  -- The functions that are called, in order, and the registry after the lock.
  unfoldable pub apply_modules : Registry (Value F) → Run (List F × Registry (Value F))
  apply_modules reg = do list ← get_modules reg; done (list, lock key_registry_api reg)

  unfoldable pub get_routes : Registry (Value F) → Run (List F)
  get_routes reg = as_routes (get_global key_registry_routes reg)

  unfoldable pub register_route : F → Registry (Value F) → Run (Registry (Value F))
  register_route fn reg =
      if is_locked key_registry_routes reg
      then panic "api/registry: routes locked (register only during init)"
      else do list ← get_routes reg; set_global key_registry_routes (routes (list ++ fn ∷ [])) reg

  -- RegisterHTMLModule
  unfoldable pub register_html_module : F → Registry (Value F) → Run (Registry (Value F))
  register_html_module = register_route

  unfoldable pub apply_routes : Registry (Value F) → Run (List F × Registry (Value F))
  apply_routes reg = do list ← get_routes reg; done (list, lock key_registry_routes reg)

  -- cmd.Register
  unfoldable pub register_command : F → Registry (Value F) → Run (Registry (Value F))
  register_command c reg =
      if is_locked key_registry_cmd reg
      then panic "cmd/registry: locked (register only during init before Apply)"
      else do
        list ← as_commands (get_global key_registry_cmd reg)
        set_global key_registry_cmd (commands (list ++ c ∷ [])) reg

  -- cmd.Apply
  unfoldable pub apply_commands : Registry (Value F) → Run (List F × Registry (Value F))
  apply_commands reg = do
    list ← as_commands (get_global key_registry_cmd reg)
    done (list, lock key_registry_cmd reg)
