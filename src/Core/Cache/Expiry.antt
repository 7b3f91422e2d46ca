-- ===== src/Core/Cache/Expiry.antt =====
-- What core/cache/cache.go returns for a key: the last value set, until it expires.
use magento_go.Prelude.{
  ℕ, zero, suc, ◌+◌, ◌*◌, ◌<◌, ◌≤◌, ◌≡◌, ◌∙◌, refl, ap, String, ◌<>◌, Bool, false, ◌&&◌, Option,
  none, some, List, [], ◌∷◌, ◌==◌, Eq, string_eq, ltb, arith, if◌then◌else◌,
}
use magento_go.Prelude.Dict.{lookup, lookup-insert, ==_refl}
use magento_go.Prelude.Int.{ℤ, pos, negsuc, to_int64, two_63, two_64, to_int64_small}
use magento_go.Core.Cache.{
  Cache, Entry, second, expires_at, is_expired, tag_key, set, live, get, make_composite_key, set_n,
  get_n,
}

module _ {ℓ} {V : Type ℓ} where
  -- The live value of an optional entry.
  abbrev pub live_of : ℕ → Option (Entry V) → Option V
  live_of now none = none
  live_of now (some entry) = live now entry

module _ {ℓ κ} {K : Type ℓ} {V : Type κ} ⦃e : Eq K⦄ where
  -- What `Get` returns, by the map alone.
  pub get-live :
      (now : ℕ) (key : K) (c : Cache K V) → (get now key c).1 ≡ live_of now (lookup key c.m)
  unfolding get
  get-live now key c = ground arith

  pub m-tag_key : (key : K) (tags : List String) (c : Cache K V) → (tag_key key tags c).m ≡ c.m
  unfolding tag_key
  m-tag_key key [] c = refl
  m-tag_key key (tag ∷ tags) c = m-tag_key key tags _

  -- The expiry that is stored decides.
  get-set_stored :
      (now later : ℕ) (key j : K) (value : V) (ttl : ℤ) (tags : List String) (c : Cache K V)
      → (get later j (set now key value ttl tags c)).1 ≡ (
          if key == j
          then if is_expired later (expires_at now ttl) then none else some value
          else (get later j c).1)
  unfolding set live
  get-set_stored now later key j value ttl tags c =
      get-live later j _
      ∙ ap (λ m. live_of later (lookup j m)) (m-tag_key key tags _)
      ∙ ground (
        arith,
        lookup-insert key j (Entry.item value (expires_at now ttl)) c.m,
        get-live later j c,
      )

-- The seconds that a time to live gives, none where it is not positive.
abbrev pub seconds : ℤ → ℕ
seconds (pos n) = n
seconds (negsuc n) = 0

-- A time to live is over: it is positive, and so many seconds have passed.
abbrev pub is_over : ℕ → ℤ → ℕ → Bool
is_over now ttl later = ltb 0 (seconds ttl) && ltb (now + seconds ttl * 1000000000) later

is_expired-expires_at :
    (now later : ℕ) (ttl : ℤ)
    → now + seconds ttl * 1000000000 < two_63
    → is_expired later (expires_at now ttl) ≡ is_over now ttl later
unfolding expires_at is_expired
is_expired-expires_at now later (pos zero) h = refl
is_expired-expires_at now later (pos (suc n)) h =
    rw (to_int64_small (now + suc n * second) h) (ground arith)
is_expired-expires_at now later (negsuc n) h = refl

module _ {ℓ κ} {K : Type ℓ} {V : Type κ} ⦃e : Eq K⦄ where
  -- Set, then Get at any time, where the expiry stays below 2^63 nanoseconds: with a positive number of
  -- seconds the value is returned until they have passed and not after that, with any other it is always
  -- returned; every other key returns what it returned before.
  pub get-set :
      (now later : ℕ) (key j : K) (value : V) (ttl : ℤ) (tags : List String) (c : Cache K V)
      → now + seconds ttl * 1000000000 < two_63
      → (get later j (set now key value ttl tags c)).1 ≡ (
          if key == j
          then if is_over now ttl later then none else some value
          else (get later j c).1)
  get-set now later key j value ttl tags c h =
      get-set_stored now later key j value ttl tags c
      ∙ rw (is_expired-expires_at now later ttl h) refl

  -- With so many seconds that the sum passes 2^63 nanoseconds, but not 2^64, the value never expires.
  pub get-set_overflow :
      (now later ttl : ℕ) (key : K) (value : V) (tags : List String) (c : Cache K V)
      → 0 < ttl
      → two_63 ≤ now + ttl * second
      → now + ttl * second < two_64
      → (get later key (set now key value (pos ttl) tags c)).1 ≡ some value
  get-set_overflow now later ttl key value tags c p h k =
      get-set_stored now later key key value (pos ttl) tags c
      ∙ rw (==_refl key, wrapped now later ttl p h k) refl
    where
      wrapped :
          (now later ttl : ℕ)
          → 0 < ttl
          → two_63 ≤ now + ttl * second
          → now + ttl * second < two_64
          → is_expired later (expires_at now (pos ttl)) ≡ false
      wrapped now later zero p h k = absurd (omega arith)
      wrapped now later (suc n) p h k = unfold expires_at is_expired to_int64 in ground arith

-- Composite keys are joined without an escape: a part that holds the separator gives the key of two
-- parts, so that an entry set under one is returned for the other.
get_n-set_n_clash {ℓ} :
    {V : Type ℓ} (now later : ℕ) (p q : String) (value : V) (tags : List String)
    (c : Cache String V)
    → (get_n later (p ∷ q ∷ []) (set_n now ((p <> "|" <> q) ∷ []) value (pos 0) tags c)).1
      ≡ some value
unfolding get_n set_n make_composite_key
get_n-set_n_clash now later p q value tags c =
    get-set_stored now later (p <> "|" <> q) (p <> "|" <> q) value (pos 0) tags c
    ∙ rw (==_refl (p <> "|" <> q)) (unfold expires_at is_expired in refl)
