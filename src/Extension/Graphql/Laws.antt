-- ===== src/Extension/Graphql/Laws.antt =====
-- What graphql/registry/registry.go promises of `Register`, `Resolve` and `Unregister`.
use magento_go.Prelude.{
  String, ◌<>◌, ◌≡◌, true, false, none, some, arith, string_eq, ◌==◌, if◌then◌else◌,
}
use magento_go.Prelude.Dict.{Dict, lookup, insert, erase, has, lookup-insert, lookup-erase, ==_refl}
use magento_go.Prelude.Panic.{done, panic}
use magento_go.Core.Registry.{Registry, is_locked, lock, unlock_for_testing, key_registry_graphql}
use magento_go.Core.Registry.Locking.{
  is_locked-lock, is_locked-unlock, written, set_global_lem, get_global-written, is_locked-written,
  get_global-lock, get_global-unlock,
}
use magento_go.Extension.Value.{Value, resolvers}
use magento_go.Extension.Graphql.{
  State, as_resolvers, get_entries, register, unregister, lock_once, resolve,
}

module _ {ℓ} {F : Type ℓ} where
  get_entries-written :
      (m : Dict String F) (reg : Registry (Value F))
      → get_entries (written key_registry_graphql (resolvers m) reg) ≡ done m
  unfolding get_entries as_resolvers
  get_entries-written m reg = rw get_global-written

  get_entries-unlock :
      (reg : Registry (Value F))
      → get_entries (unlock_for_testing key_registry_graphql reg) ≡ get_entries reg
  unfolding get_entries
  get_entries-unlock reg = rw get_global-unlock

  -- The state with other entries.
  abbrev with_entries : Dict String F → State F → State F
  with_entries m s = record s { registry = written key_registry_graphql (resolvers m) s.registry }

  register_lem :
      (name : String) (fn : F) (m : Dict String F) (s : State F)
      → is_locked key_registry_graphql s.registry ≡ false
      → get_entries s.registry ≡ done m
      → has name m ≡ false
      → register name fn s ≡ done (with_entries (insert name fn m) s)
  unfolding register
  register_lem name fn m s u g h = rw (u, g, h, set_global_lem _ _ s.registry u)

  register_duplicate :
      (name : String) (fn : F) (m : Dict String F) (s : State F)
      → is_locked key_registry_graphql s.registry ≡ false
      → get_entries s.registry ≡ done m
      → has name m ≡ true
      → register name fn s ≡ panic ("graphql/registry: duplicate " <> name)
  unfolding register
  register_duplicate name fn m s u g h = rw (u, g, h)

  register_locked :
      (name : String) (fn : F) (s : State F)
      → is_locked key_registry_graphql s.registry ≡ true
      → register name fn s
        ≡ panic "graphql/registry: locked (register only during init before first request)"
  unfolding register
  register_locked name fn s h = rw h

  lock_once-first :
      (s : State F)
      → s.graphql_locked ≡ false
      → lock_once s
        ≡ record s { registry = lock key_registry_graphql s.registry; graphql_locked = true }
  unfolding lock_once
  lock_once-first s h = rw h

  lock_once-later : (s : State F) → s.graphql_locked ≡ true → lock_once s ≡ s
  unfolding lock_once
  lock_once-later s h = rw h

  get_entries-lock_once :
      (s : State F) → get_entries (lock_once s).registry ≡ get_entries s.registry
  unfolding get_entries lock_once
  get_entries-lock_once s =
      ground (arith, get_global-lock key_registry_graphql key_registry_graphql s.registry)

  resolve_lem :
      (field : String) (m : Dict String F) (s : State F)
      → get_entries s.registry ≡ done m
      → resolve field s ≡ done (lookup field m, lock_once s)
  unfolding resolve
  resolve_lem field m s g = rw (get_entries-lock_once, g)

  -- Before the first request a resolver can be registered under a new name. The first `Resolve`
  -- finds it, and any other name as before, and from then on registering panics.
  resolve-register :
      (name name' : String) (fn fn' : F) (m : Dict String F) (s : State F)
      → s.graphql_locked ≡ false
      → is_locked key_registry_graphql s.registry ≡ false
      → get_entries s.registry ≡ done m
      → has name m ≡ false
      → (s' s'' : State F) × (register name fn s ≡ done s')
        × ((field : String)
            → resolve field s' ≡ done (if name == field then some fn else lookup field m, s''))
        × (register name' fn' s''
            ≡ panic "graphql/registry: locked (register only during init before first request)")
  resolve-register name name' fn fn' m s f u g h =
      let s' = with_entries (insert name fn m) s in
      (
        s',
        lock_once s',
        register_lem name fn m s u g h,
        (λ field. rw (resolve_lem field _ s' (get_entries-written _ s.registry), lookup-insert)),
        register_locked name' fn' (lock_once s') (rw (lock_once-first s' f, is_locked-lock)),
      )

  -- Once `Resolve` has locked, `Unregister` opens the registry for good: later calls of `Resolve` do
  -- not lock it again, and a registration between requests succeeds.
  pub resolve-unregister :
      (name : String) (fn : F) (m : Dict String F) (s : State F)
      → s.graphql_locked ≡ true
      → get_entries s.registry ≡ done m
      → (s' s'' : State F) × (unregister name s ≡ done s')
        × ((field : String)
            → resolve field s' ≡ done (if name == field then none else lookup field m, s'))
        × (register name fn s' ≡ done s'')
  resolve-unregister name fn m s f g =
      let reg = unlock_for_testing key_registry_graphql s.registry in
      let s' = record s {
        registry = written key_registry_graphql (resolvers (erase name m)) reg;
      } in
      let g' = get_entries-written (erase name m) reg in
      let u : is_locked key_registry_graphql reg ≡ false = rw is_locked-unlock in
      (
        s',
        with_entries (insert name fn (erase name m)) s',
        (unfold unregister in rw (get_entries-unlock, g, set_global_lem _ _ reg u)),
        (λ field. rw (resolve_lem field _ s' g', lookup-erase, lock_once-later s' f)),
        register_lem name fn (erase name m) s' (rw is_locked-written u) g'
            (rw (has, lookup-erase, ==_refl name)),
      )
