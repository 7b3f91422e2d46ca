-- ===== src/Extension/Modules/Order.antt =====
-- What api/registry.go and cmd/registry.go promise to the packages that register in `init`.
use magento_go.Prelude.{◌≡◌, ◌∙◌, refl, false, List, [], ◌∷◌, ◌++◌, string_eq}
use mathlib.Core.List.{append_assoc, append-nil}
use magento_go.Prelude.Panic.{Run, done, panic, ◌>>=◌}
use magento_go.Core.Registry.{Registry, is_locked, lock, key_registry_api}
use magento_go.Core.Registry.Locking.{
  is_locked-lock, written, set_global_lem, get_global-written, is_locked-written,
}
use magento_go.Extension.Value.{Value, modules}
use magento_go.Extension.Modules.{
  as_modules, get_modules, register_module, apply_modules, get_routes,
}

module _ {ℓ} {F : Type ℓ} where
  -- The `init` functions of the packages, one after the other.
  unfoldable pub register_modules : List F → Registry (Value F) → Run (Registry (Value F))
  register_modules [] reg = done reg
  register_modules (fn ∷ fns) reg = do reg' ← register_module fn reg; register_modules fns reg'

  -- One registration on an unlocked registry appends.
  register_module_lem :
      (fn : F) (l : List F) (reg : Registry (Value F))
      → is_locked key_registry_api reg ≡ false
      → get_modules reg ≡ done l
      → register_module fn reg ≡ done (written key_registry_api (modules (l ++ fn ∷ [])) reg)
  unfolding register_module
  register_module_lem fn l reg u g = rw (u, g) (set_global_lem key_registry_api _ reg u)

  get_modules-written :
      (l : List F) (reg : Registry (Value F))
      → get_modules (written key_registry_api (modules l) reg) ≡ done l
  unfolding get_modules as_modules
  get_modules-written l reg = rw get_global-written

  get_routes-written :
      (l : List F) (reg : Registry (Value F))
      → get_routes (written key_registry_api (modules l) reg) ≡ get_routes reg
  unfolding get_routes
  get_routes-written l reg = rw get_global-written

  apply_modules_lem :
      (l : List F) (reg : Registry (Value F))
      → get_modules reg ≡ done l
      → apply_modules reg ≡ done (l, lock key_registry_api reg)
  unfolding apply_modules
  apply_modules_lem l reg g = rw g

  -- Registering any modules on an unlocked registry succeeds. `ApplyModules` then calls what was
  -- there and the new ones in the order of their registration, the routes are as they were, and
  -- every later registration panics.
  apply_modules-register_modules :
      (fns l : List F) (reg : Registry (Value F))
      → is_locked key_registry_api reg ≡ false
      → get_modules reg ≡ done l
      → (reg' : Registry (Value F)) × (register_modules fns reg ≡ done reg')
        × (apply_modules reg' ≡ done (l ++ fns, lock key_registry_api reg'))
        × (get_routes reg' ≡ get_routes reg)
        × ((fn : F)
            → register_module fn (lock key_registry_api reg')
              ≡ panic "api/registry: API modules locked (register only during init)")
  unfolding register_modules
  apply_modules-register_modules [] l reg u g = (
    reg,
    refl,
    rw append-nil (apply_modules_lem l reg g),
    refl,
    λ fn. unfold register_module in rw is_locked-lock,
  )
  apply_modules-register_modules (fn ∷ fns) l reg u g =
      let next = written key_registry_api (modules (l ++ fn ∷ [])) reg in
      let (reg', e, a, r, p) =
        apply_modules-register_modules fns (l ++ fn ∷ []) next (rw is_locked-written u)
          (get_modules-written (l ++ fn ∷ []) reg) in
      (
        reg',
        rw (register_module_lem fn l reg u g) e,
        rw append_assoc at a,
        r ∙ get_routes-written (l ++ fn ∷ []) reg,
        p,
      )
