-- ===== src/Core/Registry/Locking.antt =====
-- What a lock of core/registry/registry.go guards, over any sequence of calls.
use magento_go.Prelude.{
  String, ◌≡◌, refl, ◌≢◌, ◌∙◌, true, false, Option, none, some, ◌<>◌, List, [], ◌∷◌, ◌==◌, arith,
  string_eq, if◌then◌else◌, All,
}
use text.Mathlib.TextEquality.{eq_iff}
use magento_go.Prelude.Dict.{Dict, lookup, insert, lookup-insert, lookup-erase, ==_refl}
use magento_go.Prelude.Panic.{done, panic, recover_to}
use magento_go.Core.Registry.{
  Registry, lock, is_locked, set_global, get_global, delete_global, unlock_for_testing,
}

-- A call of an exported method that writes.
pub data Call {ℓ} (V : Type ℓ) : Type ℓ where
  set : String → V → Call V
  lock_key : String → Call V
  delete : String → Call V
  unlock : String → Call V

abbrev lock_entries : Option (Dict String (Unit {0})) → Dict String (Unit {0})
lock_entries none = []
lock_entries (some l) = l

module _ {ℓ} {V : Type ℓ} where
  -- One call, its panic recovered.
  unfoldable pub call : Registry V → Call V → Registry V
  call r (set k v) = recover_to r (set_global k v r)
  call r (lock_key k) = lock k r
  call r (delete k) = delete_global k r
  call r (unlock k) = unlock_for_testing k r

  unfoldable pub calls : Registry V → List (Call V) → Registry V
  calls r [] = r
  calls r (c ∷ cs) = calls (call r c) cs

  -- The call neither deletes nor unlocks `k`.
  abbrev pub Spares : String → Call V → Type 0
  Spares k (set j v) = Unit
  Spares k (lock_key j) = Unit
  Spares k (delete j) = j ≢ k
  Spares k (unlock j) = j ≢ k

  pub is_locked-lock :
      (k j : String) (r : Registry V)
      → is_locked j (lock k r) ≡ (if k == j then true else is_locked j r)
  unfolding is_locked lock lookup insert
  is_locked-lock k j r = ground (arith, lookup-insert k j tt (lock_entries r.locked))

  pub is_locked-unlock :
      (k j : String) (r : Registry V)
      → is_locked j (unlock_for_testing k r) ≡ (if k == j then false else is_locked j r)
  unfolding is_locked unlock_for_testing
  is_locked-unlock k j r = ground (arith, lookup-erase k j (lock_entries r.locked))

  -- One call keeps the lock and the value of a locked key.
  call-locked :
      (k : String) (r : Registry V) (c : Call V)
      → Spares k c
      → is_locked k r ≡ true
      → (is_locked k (call r c) ≡ true) × (get_global k (call r c) ≡ get_global k r)
  unfolding call set_global get_global delete_global
  call-locked k r (set j v) s l =
      unfold is_locked in ground (arith, lookup-insert j k v r.global, eq_iff j k)
  call-locked k r (lock_key j) s l = (rw is_locked-lock (ground arith), unfold lock in ground arith)
  call-locked k r (delete j) s l =
      (unfold is_locked in l, ground (arith, lookup-erase j k r.global, eq_iff j k))
  call-locked k r (unlock j) s l =
      (rw is_locked-unlock (ground (arith, eq_iff j k)), unfold unlock_for_testing in ground arith)

  -- Once a key is locked, its value stays and it stays locked, through any calls that neither delete
  -- nor unlock that key, where a panic of a call is recovered; a write to it panics after them.
  pub calls-locked :
      (k : String) (value : V) (cs : List (Call V)) (r : Registry V)
      → All (Spares k) cs
      → is_locked k r ≡ true
      → (is_locked k (calls r cs) ≡ true)
        × (get_global k (calls r cs) ≡ get_global k r)
        × (set_global k value (calls r cs) ≡ panic ("registry: " <> k <> " is locked (immutable)"))
  unfolding calls set_global
  calls-locked k value [] r s l = (l, refl, rw l)
  calls-locked k value (c ∷ cs) r s l =
      let (l', v) = call-locked k r c s.0 l in
      let (l'', v', p) = calls-locked k value cs (call r c) s.1 l' in (l'', v' ∙ v, p)

  is_locked-delete :
      (k j : String) (r : Registry V) → is_locked j (delete_global k r) ≡ is_locked j r
  unfolding is_locked delete_global
  is_locked-delete k j r = refl

  -- `DeleteGlobal` does not look at the lock: a locked key can be deleted, and can then not be set.
  delete_global-locked :
      (k : String) (v : V) (r : Registry V)
      → is_locked k r ≡ true
      → (get_global k (delete_global k r) ≡ none)
        × (set_global k v (delete_global k r)
            ≡ panic ("registry: " <> k <> " is locked (immutable)"))
  unfolding get_global set_global delete_global
  delete_global-locked k v r l = (rw (lookup-erase, ==_refl k), rw (is_locked-delete, l))

  -- A write to a key that is not locked.
  abbrev pub written : String → V → Registry V → Registry V
  written k v r = record r { global = insert k v r.global }

  pub set_global_lem :
      (k : String) (v : V) (r : Registry V)
      → is_locked k r ≡ false
      → set_global k v r ≡ done (written k v r)
  unfolding set_global
  set_global_lem k v r u = rw u

  pub get_global-written :
      (k j : String) (v : V) (r : Registry V)
      → get_global j (written k v r) ≡ (if k == j then some v else get_global j r)
  unfolding get_global
  get_global-written k j v r = lookup-insert k j v r.global

  pub is_locked-written :
      (k j : String) (v : V) (r : Registry V) → is_locked j (written k v r) ≡ is_locked j r
  unfolding is_locked
  is_locked-written k j v r = refl

  pub get_global-lock : (k j : String) (r : Registry V) → get_global j (lock k r) ≡ get_global j r
  unfolding get_global lock
  get_global-lock k j r = ground arith

  pub get_global-unlock :
      (k j : String) (r : Registry V) → get_global j (unlock_for_testing k r) ≡ get_global j r
  unfolding get_global unlock_for_testing
  get_global-unlock k j r = ground arith
