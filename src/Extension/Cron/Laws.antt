-- ===== src/Extension/Cron/Laws.antt =====
-- What cron/registry.go promises: unique names, and jobs that are fixed once they are read.
use magento_go.Prelude.{
  String, ◌<>◌, ◌≡◌, ◌∙◌, inl, inr, Bool-cases, refl, true, false, none, some, string_eq, ◌==◌,
  if◌then◌else◌,
}
use magento_go.Prelude.Dict.{
  Dict, lookup, insert, erase, has, lookup-insert, lookup-erase, has-insert,
}
use magento_go.Prelude.Panic.{done, panic}
use magento_go.Core.Registry.{Registry, is_locked, lock, unlock_for_testing, key_registry_cron}
use magento_go.Core.Registry.Locking.{
  is_locked-lock, is_locked-unlock, written, set_global_lem, get_global-written, is_locked-written,
  get_global-lock, get_global-unlock,
}
use magento_go.Extension.Value.{Job, Value, jobs}
use magento_go.Extension.Cron.{as_jobs, get_jobs, register, unregister, all_jobs}

module _ {ℓ} {F : Type ℓ} where
  get_jobs-written :
      (m : Dict String (Job F)) (reg : Registry (Value F))
      → get_jobs (written key_registry_cron (jobs m) reg) ≡ done m
  unfolding get_jobs as_jobs
  get_jobs-written m reg = rw get_global-written

  get_jobs-lock : (reg : Registry (Value F)) → get_jobs (lock key_registry_cron reg) ≡ get_jobs reg
  unfolding get_jobs
  get_jobs-lock reg = rw get_global-lock

  get_jobs-unlock :
      (reg : Registry (Value F))
      → get_jobs (unlock_for_testing key_registry_cron reg) ≡ get_jobs reg
  unfolding get_jobs
  get_jobs-unlock reg = rw get_global-unlock

  register_duplicate :
      (name schedule : String) (run : F) (m : Dict String (Job F)) (reg : Registry (Value F))
      → is_locked key_registry_cron reg ≡ false
      → get_jobs reg ≡ done m
      → has name m ≡ true
      → register name schedule run reg ≡ panic ("cron/registry: duplicate job " <> name)
  unfolding register
  register_duplicate name schedule run m reg u g h = rw (u, g, h)

  register_locked :
      (name schedule : String) (run : F) (reg : Registry (Value F))
      → is_locked key_registry_cron reg ≡ true
      → register name schedule run reg
        ≡ panic "cron/registry: locked (register only during init before StartCron)"
  unfolding register
  register_locked name schedule run reg h = rw h

  -- After `Unregister`, whatever was locked.
  unregister_lem :
      (name : String) (m : Dict String (Job F)) (reg : Registry (Value F))
      → get_jobs reg ≡ done m
      → unregister name reg
        ≡ done (
            written key_registry_cron
              (jobs (erase name m))
              (unlock_for_testing key_registry_cron reg))
  unfolding unregister
  unregister_lem name m reg g = rw (get_jobs-unlock, g) (set_global_lem _ _ _ (rw is_locked-unlock))

  locked_if_not : Registry (Value F) → Registry (Value F)
  locked_if_not reg = if is_locked key_registry_cron reg then reg else lock key_registry_cron reg

  locked_if_not_lem :
      (reg : Registry (Value F))
      → (is_locked key_registry_cron (locked_if_not reg) ≡ true)
        × (get_jobs (locked_if_not reg) ≡ get_jobs reg)
  unfolding locked_if_not
  locked_if_not_lem reg = elim (Bool-cases (is_locked key_registry_cron reg)) [
    | inl e ↦ rw e (e, refl)
    | inr e ↦ rw e (rw is_locked-lock, get_jobs-lock reg)
  ]

  -- A new name on an unlocked registry is added, and every other job stays; the same name again
  -- panics as a duplicate.
  register-register :
      (name schedule schedule' : String) (run run' : F) (m : Dict String (Job F))
      (reg : Registry (Value F))
      → is_locked key_registry_cron reg ≡ false
      → get_jobs reg ≡ done m
      → has name m ≡ false
      → (reg' : Registry (Value F)) × (m' : Dict String (Job F)) × (register name schedule run reg
          ≡ done reg')
        × (get_jobs reg' ≡ done m')
        × ((k : String)
            → lookup k m' ≡ (
                if name == k then some (record { schedule = schedule; run = run }) else lookup k m))
        × (register name schedule' run' reg' ≡ panic ("cron/registry: duplicate job " <> name))
  unfolding register
  register-register name schedule schedule' run run' m reg u g h =
      let job : Job F = record { schedule = schedule; run = run } in
      let reg' = written key_registry_cron (jobs (insert name job m)) reg in
      (
        reg',
        insert name job m,
        rw (u, g, h) (set_global_lem key_registry_cron _ reg u),
        get_jobs-written _ reg,
        (λ k. lookup-insert name k job m),
        register_duplicate name schedule' run' _ reg' (rw is_locked-written u)
            (get_jobs-written _ reg) (has-insert name job m),
      )

  -- `Jobs` returns every job, and from then on registering panics, until `Unregister` removes a job:
  -- that opens the registry again, and keeps every other job.
  all_jobs-locks :
      (name schedule : String) (run : F) (m : Dict String (Job F)) (reg : Registry (Value F))
      → get_jobs reg ≡ done m
      → (reg' reg'' : Registry (Value F)) × (m'' : Dict String (Job F)) × (all_jobs reg
          ≡ done (m, reg'))
        × (register name schedule run reg'
            ≡ panic "cron/registry: locked (register only during init before StartCron)")
        × (unregister name reg' ≡ done reg'')
        × (is_locked key_registry_cron reg'' ≡ false)
        × (get_jobs reg'' ≡ done m'')
        × ((k : String) → lookup k m'' ≡ (if name == k then none else lookup k m))
  unfolding all_jobs
  all_jobs-locks name schedule run m reg g =
      let reg' = locked_if_not reg in
      let (l, j) = locked_if_not_lem reg in
      let reg'' =
        written key_registry_cron (jobs (erase name m))
          (unlock_for_testing key_registry_cron reg') in
      (
        reg',
        reg'',
        erase name m,
        unfold locked_if_not in rw g,
        register_locked name schedule run reg' l,
        unregister_lem name m reg' (j ∙ g),
        rw (is_locked-written, is_locked-unlock),
        get_jobs-written _ _,
        (λ k. lookup-erase name k m),
      )
