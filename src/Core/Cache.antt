-- ===== src/Core/Cache.antt =====
-- core/cache/cache.go: the key-value store with expiry and tags. A method returns the new cache with
-- its result; `now` is time.Now().UnixNano(). A nil receiver, for which most methods take the shared
-- instance, and the dump to a file are not modelled.
pub mod Expiry
pub mod Tags
mod Tests
use magento_go.Prelude.{
  ℕ, zero, suc, ◌+◌, ◌*◌, String, ◌<>◌, Bool, true, false, Option, none, some, List, [], ◌∷◌, ◌&&◌,
  ltb, map, filter_map, string_eq, Eq, if◌then◌else◌,
}
use magento_go.Prelude.Dict.{Dict, lookup, insert, erase, has}
use magento_go.Prelude.Int.{ℤ, pos, negsuc, is_pos, to_int64}

abbrev pub second : ℕ
second = 1000000000

-- A stored value: a cacheItem, or a value without one, as a restored file may hold.
pub data Entry {ℓ} (V : Type ℓ) : Type ℓ where
  item : V → ℤ → Entry V
  legacy : V → Entry V

pub record Cache {ℓ κ} (K : Type ℓ) (V : Type κ) : Type (ℓ ⊔ κ) where
  pub m : Dict K (Entry V)
  pub tag_index : Dict String (Dict K (Unit {0}))

-- `if ttl > 0 { expiresAt = time.Now().Add(time.Duration(ttl) * time.Second).UnixNano() }`, in 64 bits
unfoldable pub expires_at : ℕ → ℤ → ℤ
expires_at now (pos zero) = pos 0
expires_at now (pos (suc n)) = to_int64 (now + suc n * second)
expires_at now (negsuc n) = pos 0

-- `item.ExpiresAt > 0 && time.Now().UnixNano() > item.ExpiresAt`
unfoldable pub is_expired : ℕ → ℤ → Bool
is_expired now (pos n) = ltb 0 n && ltb n now
is_expired now (negsuc n) = false

abbrev pub keys_of {ℓ} : {K : Type ℓ} → Option (Dict K (Unit {0})) → Dict K (Unit {0})
keys_of none = []
keys_of (some keys) = keys

module _ {ℓ} {K : Type ℓ} ⦃e : Eq K⦄ where
  -- The loop of removeKeyFromTagIndex.
  unfoldable pub erase_in_all :
      K → Dict String (Dict K (Unit {0})) → Dict String (Dict K (Unit {0}))
  erase_in_all key [] = []
  erase_in_all key ((tag, keys) ∷ rest) = (tag, erase key keys) ∷ erase_in_all key rest

module _ {ℓ} {V : Type ℓ} where
  -- What a stored entry is worth at a time.
  unfoldable pub live : ℕ → Entry V → Option V
  live now (item v exp) = if is_expired now exp then none else some v
  live now (legacy v) = some v

module _ {ℓ κ} {K : Type ℓ} {V : Type κ} ⦃e : Eq K⦄ where
  unfoldable pub new_cache : Cache K V
  new_cache = record { m = []; tag_index = [] }

  unfoldable pub remove_key_from_tag_index : K → Cache K V → Cache K V
  remove_key_from_tag_index key c = record c { tag_index = erase_in_all key c.tag_index }

  -- The keys of a tag.
  unfoldable pub tag_set : String → Cache K V → Dict K (Unit {0})
  tag_set tag c = keys_of (lookup tag c.tag_index)

  -- LoadOrStore, then Store.
  unfoldable pub tag_key : K → List String → Cache K V → Cache K V
  tag_key key [] c = c
  tag_key key (tag ∷ tags) c =
      tag_key key tags
        (record c { tag_index = insert tag (insert key tt (tag_set tag c)) c.tag_index })

  unfoldable pub untag_key : K → List String → Cache K V → Cache K V
  untag_key key [] c = c
  untag_key key (tag ∷ tags) c = elim (lookup tag c.tag_index) [
    | none ↦ untag_key key tags c
    | some keys ↦
        untag_key key tags (record c { tag_index = insert tag (erase key keys) c.tag_index })
  ]

  unfoldable pub set : ℕ → K → V → ℤ → List String → Cache K V → Cache K V
  set now key value ttl tags c =
      tag_key key tags (record c { m = insert key (item value (expires_at now ttl)) c.m })

  unfoldable pub delete : K → Cache K V → Cache K V
  delete key c = remove_key_from_tag_index key (record c { m = erase key c.m })

  unfoldable pub delete_many : List K → Cache K V → Cache K V
  delete_many [] c = c
  delete_many (key ∷ keys) c = delete_many keys (delete key c)

  -- Get: an expired entry is deleted.
  unfoldable pub get : ℕ → K → Cache K V → Cache K V × Option V
  get now key c = elim (lookup key c.m) [
    | none ↦ (c, none)
    | some entry ↦ elim (live now entry) [ none ↦ (delete key c, none) | some v ↦ (c, some v) ]
  ]

  unfoldable pub get_or_default : ℕ → K → V → Cache K V → Cache K V × V
  get_or_default now key default c =
      let (c', o) = get now key c in (c', elim o [ none ↦ default | some v ↦ v ])

  -- GetMany: nil for a key that is missing or expired.
  unfoldable pub get_many : ℕ → List K → Cache K V → Cache K V × List (Option V)
  get_many now [] c = (c, [])
  get_many now (key ∷ keys) c =
      let (c1, v) = get now key c in let (c2, vs) = get_many now keys c1 in (c2, v ∷ vs)

  -- IterateFilter, over the entries that the cache has when it starts.
  unfoldable pub iterate_from :
      ℕ → (K → V → Bool) → Dict K (Entry V) → Cache K V → Cache K V × List V
  iterate_from now filter [] c = (c, [])
  iterate_from now filter ((key, entry) ∷ entries) c = elim (live now entry) [
    | none ↦ iterate_from now filter entries (delete key c)
    | some v ↦
        let (c', vs) = iterate_from now filter entries c in
        (c', if filter key v then v ∷ vs else vs)
  ]

  unfoldable pub iterate_filter : ℕ → (K → V → Bool) → Cache K V → Cache K V × List V
  iterate_filter now filter c = iterate_from now filter c.m c

  unfoldable pub get_keys_by_tag : String → Cache K V → List K
  get_keys_by_tag tag c = map (λ k. k.0) (tag_set tag c)

  -- The keys of the tag are deleted one by one, then the tag.
  abbrev pub drop_tag : String → Option (Dict K (Unit {0})) → Cache K V → Cache K V
  drop_tag tag none c = c
  drop_tag tag (some keys) c =
      let c' = delete_many (map (λ k. k.0) keys) c in
      record c' { tag_index = erase tag c'.tag_index }

  unfoldable pub delete_by_tag : String → Cache K V → Cache K V
  delete_by_tag tag c = drop_tag tag (lookup tag c.tag_index) c

-- `strings.Join(parts, "|")`; the parts are the keys as `fmt.Sprintf("%v", k)` prints them.
unfoldable pub make_composite_key : List String → String
make_composite_key [] = ""
make_composite_key (p ∷ []) = p
make_composite_key (p ∷ q ∷ ps) = p <> "|" <> make_composite_key (q ∷ ps)

module _ {ℓ} {V : Type ℓ} where
  unfoldable pub set_n : ℕ → List String → V → ℤ → List String → Cache String V → Cache String V
  set_n now keys value ttl tags c = set now (make_composite_key keys) value ttl tags c

  unfoldable pub get_n : ℕ → List String → Cache String V → Cache String V × Option V
  get_n now keys c = get now (make_composite_key keys) c

  unfoldable pub delete_n : List String → Cache String V → Cache String V
  delete_n keys c = delete (make_composite_key keys) c
