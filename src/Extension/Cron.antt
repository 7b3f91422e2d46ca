-- ===== src/Extension/Cron.antt =====
-- cron/registry.go: the jobs by name.
pub mod Laws
use magento_go.Prelude.{String, ◌<>◌, Option, none, some, [], string_eq, if◌then◌else◌}
use magento_go.Prelude.Dict.{Dict, insert, erase, has}
use magento_go.Prelude.Panic.{Run, done, panic, ◌>>=◌}
use magento_go.Core.Registry.{
  Registry, is_locked, lock, get_global, set_global, unlock_for_testing, key_registry_cron,
}
use magento_go.Extension.Value.{Job, Value, nil, jobs}
use magento_go.Extension.Modules.{bad_type}

module _ {ℓ} {F : Type ℓ} where
  unfoldable pub as_jobs : Option (Value F) → Run (Dict String (Job F))
  as_jobs none = done []
  as_jobs (some nil) = done []
  as_jobs (some (jobs m)) = done m
  as_jobs (some v) = panic bad_type

  unfoldable pub get_jobs : Registry (Value F) → Run (Dict String (Job F))
  get_jobs reg = as_jobs (get_global key_registry_cron reg)

  unfoldable pub register : String → String → F → Registry (Value F) → Run (Registry (Value F))
  register name schedule run reg =
      if is_locked key_registry_cron reg
      then panic "cron/registry: locked (register only during init before StartCron)"
      else do
        m ← get_jobs reg
        if has name m
            then panic ("cron/registry: duplicate job " <> name)
            else set_global key_registry_cron
                (jobs (insert name (record { schedule = schedule; run = run }) m)) reg

  unfoldable pub unregister : String → Registry (Value F) → Run (Registry (Value F))
  unregister name reg =
      let reg' = unlock_for_testing key_registry_cron reg in
      do m ← get_jobs reg'; set_global key_registry_cron (jobs (erase name m)) reg'

  -- Jobs: a copy of the jobs, and the registry, locked if it was not.
  unfoldable pub all_jobs : Registry (Value F) → Run (Dict String (Job F) × Registry (Value F))
  all_jobs reg = do
    m ← get_jobs reg
    done (m, if is_locked key_registry_cron reg then reg else lock key_registry_cron reg)
