-- ===== src/Core/Registry/Tests.antt =====
-- Runs of core/registry/registry.go.
use magento_go.Prelude.{ℕ, String, ◌≡◌, ◌≢◌, refl, true, [], ◌∷◌, arith, string_eq}
use text.Mathlib.TextEquality.{eq_iff}
use magento_go.Prelude.Dict.{lookup, insert, erase}
use magento_go.Prelude.Panic.{panic}
use magento_go.Core.Registry.{
  Registry, lock, is_locked, new_registry, set_global, get_global, delete_global,
}
use magento_go.Core.Registry.Locking.{set, lock_key, delete, call, calls, calls-locked}

program : Unit {0}
unfolding lookup insert erase lock is_locked new_registry set_global get_global delete_global call
    calls
program = tt

abbrev booted : Registry ℕ
booted = calls new_registry (set "a" 1 ∷ lock_key "a" ∷ [])

booted-is_locked : is_locked "a" booted ≡ true
unfolding program
booted-is_locked = refl

a-ne-b : ◌≢◌ {A = String} "b" "a"
a-ne-b = ground (arith, eq_iff "b" "a")

calls-locked_example :
    (is_locked "a" (calls booted (set "a" 2 ∷ delete "b" ∷ [])) ≡ true)
    × (get_global "a" (calls booted (set "a" 2 ∷ delete "b" ∷ [])) ≡ get_global "a" booted)
    × (set_global "a" 3 (calls booted (set "a" 2 ∷ delete "b" ∷ []))
        ≡ panic "registry: a is locked (immutable)")
calls-locked_example =
    calls-locked "a" 3 (set "a" 2 ∷ delete "b" ∷ []) booted (tt, (a-ne-b, tt)) booted-is_locked
