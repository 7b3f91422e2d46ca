-- ===== src/Core/Cache/Tags.antt =====
-- The tags of core/cache/cache.go: which keys a tag holds, and what DeleteByTag deletes.
use magento_go.Prelude.{
  ℕ, ◌≡◌, ◌∙◌, sym, refl, ap, String, true, Option, none, some, List, [], ◌∷◌, ◌&&◌, ◌||◌, not,
  ◌==◌, Eq, string_eq, inl, inr, Bool-cases, any, map, arith, if◌then◌else◌,
}
use text.Mathlib.TextEquality.{eq_iff}
use magento_go.Prelude.Dict.{Dict, lookup, insert, erase, has, lookup-insert, lookup-erase, ==_refl}
use magento_go.Prelude.Int.{ℤ}
use magento_go.Core.Cache.{
  Cache, keys_of, drop_tag, erase_in_all, tag_set, tag_key, set, remove_key_from_tag_index, delete,
  delete_many, get, delete_by_tag,
}
use magento_go.Core.Cache.Expiry.{live_of, get-live}

module _ {ℓ} {K : Type ℓ} ⦃e : Eq K⦄ where
  abbrev erased : K → Option (Dict K (Unit {0})) → Option (Dict K (Unit {0}))
  erased key none = none
  erased key (some keys) = some (erase key keys)

  lookup-erase_in_all :
      (key : K) (tag : String) (index : Dict String (Dict K (Unit {0})))
      → lookup tag (erase_in_all key index) ≡ erased key (lookup tag index)
  unfolding erase_in_all lookup
  lookup-erase_in_all key tag [] = refl
  lookup-erase_in_all key tag ((t, keys) ∷ rest) =
      ground (arith, eq_iff t tag, lookup-erase_in_all key tag rest)

  any-keys :
      (j : K) (keys : Dict K (Unit {0})) → any (λ k. k == j) (map (λ k. k.0) keys) ≡ has j keys
  unfolding lookup
  any-keys j [] = refl
  any-keys j ((k, u) ∷ keys) = ground (arith, any-keys j keys)

module _ {ℓ κ} {K : Type ℓ} {V : Type κ} ⦃e : Eq K⦄ where
  has-tag_set-delete :
      (key j : K) (tag : String) (c : Cache K V)
      → has j (tag_set tag (delete key c)) ≡ (not (key == j) && has j (tag_set tag c))
  unfolding delete remove_key_from_tag_index tag_set
  has-tag_set-delete key j tag c =
      rw (lookup-erase_in_all key tag c.tag_index) (lem (lookup tag c.tag_index))
    where
      lem :
          (o : Option (Dict K (Unit {0})))
          → has j (keys_of (erased key o)) ≡ (not (key == j) && has j (keys_of o))
      lem none = unfold lookup in ground arith
      lem (some keys) = ground (arith, lookup-erase key j keys)

  lookup-delete_many :
      (keys : List K) (j : K) (c : Cache K V)
      → lookup j (delete_many keys c).m ≡ (if any (λ k. k == j) keys then none else lookup j c.m)
  unfolding delete_many delete remove_key_from_tag_index
  lookup-delete_many [] j c = refl
  lookup-delete_many (k ∷ keys) j c =
      ground (arith, lookup-delete_many keys j (delete k c), lookup-erase k j c.m)

  has-tag_set-delete_many :
      (keys : List K) (j : K) (tag : String) (c : Cache K V)
      → has j (tag_set tag (delete_many keys c))
        ≡ (not (any (λ k. k == j) keys) && has j (tag_set tag c))
  unfolding delete_many
  has-tag_set-delete_many [] j tag c = refl
  has-tag_set-delete_many (k ∷ keys) j tag c =
      has-tag_set-delete_many keys j tag (delete k c)
      ∙ ap (λ b. not (any (λ k. k == j) keys) && b) (has-tag_set-delete k j tag c)
      ∙ ground arith

  -- TagKey adds the key to each of the tags and to no other.
  has-tag_set-tag_key :
      (key j : K) (tag : String) (tags : List String) (c : Cache K V)
      → has j (tag_set tag (tag_key key tags c))
        ≡ ((key == j && any (λ t. t == tag) tags) || has j (tag_set tag c))
  unfolding tag_key
  has-tag_set-tag_key key j tag [] c = ground arith
  has-tag_set-tag_key key j tag (t ∷ tags) c =
      has-tag_set-tag_key key j tag tags _
      ∙ ap (λ b. (key == j && any (λ t. t == tag) tags) || b) (one key j tag t c)
      ∙ ground arith
    where
      one :
          (key j : K) (tag t : String) (c : Cache K V)
          → has j (
              tag_set tag
                (record c { tag_index = insert t (insert key tt (tag_set t c)) c.tag_index }))
            ≡ ((key == j && t == tag) || has j (tag_set tag c))
      one key j tag t c =
          unfold tag_set in
          ground (
            arith,
            eq_iff t tag,
            lookup-insert t tag (insert key tt (tag_set t c)) c.tag_index,
            lookup-insert key j tt (tag_set t c),
          )

  m-drop_tag :
      (tag : String) (o : Option (Dict K (Unit {0}))) (j : K) (c : Cache K V)
      → lookup j (drop_tag tag o c).m ≡ (if has j (keys_of o) then none else lookup j c.m)
  m-drop_tag tag none j c = unfold lookup in refl
  m-drop_tag tag (some keys) j c =
      ground (arith, lookup-delete_many (map (λ k. k.0) keys) j c, any-keys j keys)

  tags-drop_tag :
      (tag t : String) (o : Option (Dict K (Unit {0}))) (j : K) (c : Cache K V)
      → lookup tag c.tag_index ≡ o
      → has j (tag_set t (drop_tag tag o c))
        ≡ (not (tag == t) && (not (has j (keys_of o)) && has j (tag_set t c)))
  tags-drop_tag tag t none j c h = elim (Bool-cases (tag == t)) [
    | inl b ↦
        let same : lookup t c.tag_index ≡ none =
          ap (λ k. lookup k c.tag_index) (sym ((eq_iff tag t).0 b)) ∙ h in
        unfold tag_set lookup in rw (b, same) refl
    | inr b ↦ unfold lookup in rw b refl
  ]
  tags-drop_tag tag t (some keys) j c h =
      let c' = delete_many (map (λ k. k.0) keys) c in
      let gone =
        has-tag_set-delete_many (map (λ k. k.0) keys) j t c
        ∙ ap (λ b. not b && has j (tag_set t c)) (any-keys j keys) in
      elim (Bool-cases (tag == t)) [
        | inl b ↦ unfold tag_set in rw (lookup-erase tag t c'.tag_index, b) (unfold lookup in refl)
        | inr b ↦ (unfold tag_set in rw (lookup-erase tag t c'.tag_index, b) gone)
      ]

  -- DeleteByTag deletes the entries of the tag's keys and no other, whatever the time: each of these
  -- keys is gone from every tag, and the tag has no key any more.
  pub delete_by_tag-exact :
      (tag t : String) (now : ℕ) (j : K) (c : Cache K V)
      → let c' = delete_by_tag tag c in
        ((get now j c').1 ≡ (if has j (tag_set tag c) then none else (get now j c).1))
        × (has j (tag_set t c')
            ≡ (not (tag == t) && (not (has j (tag_set tag c)) && has j (tag_set t c))))
  unfolding delete_by_tag tag_set
  delete_by_tag-exact tag t now j c = (
    get-live now j _
        ∙ ap (λ o. live_of now o) (m-drop_tag tag (lookup tag c.tag_index) j c)
        ∙ ground (arith, get-live now j c),
    tags-drop_tag tag t _ j c refl,
  )

  -- An entry that was set with a tag is gone after DeleteByTag of that tag.
  delete_by_tag-set :
      (now later : ℕ) (key : K) (value : V) (ttl : ℤ) (tag : String) (tags : List String)
      (c : Cache K V)
      → any (λ t. t == tag) tags ≡ true
      → (get later key (delete_by_tag tag (set now key value ttl tags c))).1 ≡ none
  delete_by_tag-set now later key value ttl tag tags c h =
      (delete_by_tag-exact tag tag later key (set now key value ttl tags c)).0
      ∙ rw (tagged now key value ttl tag tags c h) refl
    where
      tagged :
          (now : ℕ) (key : K) (value : V) (ttl : ℤ) (tag : String) (tags : List String)
          (c : Cache K V)
          → any (λ t. t == tag) tags ≡ true
          → has key (tag_set tag (set now key value ttl tags c)) ≡ true
      tagged now key value ttl tag tags c h =
          unfold set in (has-tag_set-tag_key key key tag tags _ ∙ ground (arith, ==_refl key))
