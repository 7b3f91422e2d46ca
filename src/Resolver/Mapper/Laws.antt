-- ===== src/Resolver/Mapper/Laws.antt =====
-- filterPriceForGuest of graphql/resolvers/product_mapper.go on the flat map of a product.
use magento_go.Prelude.{
  ℕ, ◌≡◌, ◌∙◌, refl, ap, sym, Bool-cases, inl, inr, String, Option, none, some, List, [], ◌∷◌, map,
  ◌==◌, string_eq, nat_eq, arith, if◌then◌else◌,
}
use magento_go.Prelude.Dict.{Dict, lookup, lookup-insert}
use magento_go.Product.Value.{float, Value, scalar, rows, Flat, to_uint}
use magento_go.Product.Flat.{Product, IndexPrice, price_map, flatten_product}
use magento_go.Product.Flat.Laws.{lookup-flatten_product}
use magento_go.Resolver.Mapper.{put_prices, price_from, filter_price_for_guest}

-- The first index price of a customer group.
abbrev pub group_price : {F : Type 0} → ℕ → List (IndexPrice F) → Option (IndexPrice F)
group_price group [] = none
group_price group (ip ∷ ips) =
    if ip.customer_group_id == group then some ip else group_price group ips

module _ {F T : Type 0} where
  abbrev pub priced : Option (IndexPrice F) → String → Option (Value F T) → Option (Value F T)
  priced none key old = old
  priced (some ip) key old =
      if "final_price" == key
      then some (scalar (float ip.final_price))
      else if "price" == key
      then some (scalar (float ip.price))
      else old

module _ {F T : Type 0} (truncate : F → ℕ) where
  lookup-put_prices :
      (ip : IndexPrice F) (p : Flat F T) (key : String)
      → lookup key (put_prices (price_map ip) p) ≡ priced (some ip) key (lookup key p)
  unfolding lookup
  lookup-put_prices ip p key = rw (lookup-insert, lookup-insert) refl

  lookup-price_from :
      (group : ℕ) (ips : List (IndexPrice F)) (p : Flat F T) (key : String)
      → lookup key (price_from truncate group (map price_map ips) p)
        ≡ priced (group_price group ips) key (lookup key p)
  unfolding price_from to_uint lookup
  lookup-price_from group [] p key = refl
  lookup-price_from group (ip ∷ ips) p key = elim (Bool-cases (ip.customer_group_id == group)) [
    | inl e ↦ rw e (lookup-put_prices ip p key)
    | inr e ↦ rw e (lookup-price_from group ips p key)
  ]

  lookup-filter_rows :
      (group : ℕ) (ips : List (IndexPrice F)) (p : Flat F T) (key : String)
      → lookup "index_prices" p ≡ some (rows (map price_map ips))
      → lookup key (filter_price_for_guest truncate p group)
        ≡ priced (group_price group ips) key (lookup key p)
  unfolding filter_price_for_guest
  lookup-filter_rows group ips p key h = rw h (lookup-price_from group ips p key)

  index_prices-flatten_product :
      (m : Dict ℕ String) (p : Product F T)
      → lookup "index_prices" (flatten_product m p) ≡ some (rows (map price_map p.index_prices))
  index_prices-flatten_product m p = lookup-flatten_product m p "index_prices"

  priced_relation :
      (o : Option (IndexPrice F)) (old : Option (Value F T)) → priced o "index_prices" old ≡ old
  priced_relation none old = refl
  priced_relation (some ip) old = refl

  priced_again :
      (o : Option (IndexPrice F)) (key : String) (old : Option (Value F T))
      → priced o key (priced o key old) ≡ priced o key old
  priced_again none key old = refl
  priced_again (some ip) key old = ground arith

  -- The price and the final price of a product are those of the group's first index price, if it has
  -- one, and nothing else is changed; a second call for the group changes nothing.
  pub lookup-filter_price_for_guest :
      (m : Dict ℕ String) (p : Product F T) (group : ℕ) (key : String)
      → (lookup key (filter_price_for_guest truncate (flatten_product m p) group)
          ≡ priced (group_price group p.index_prices) key (lookup key (flatten_product m p)))
        × (lookup key (
              filter_price_for_guest truncate
                (filter_price_for_guest truncate (flatten_product m p) group)
                group)
            ≡ lookup key (filter_price_for_guest truncate (flatten_product m p) group))
  lookup-filter_price_for_guest m p group key =
      let flat = flatten_product m p in
      let ips = p.index_prices in
      let o = group_price group ips in
      let once = filter_price_for_guest truncate flat group in
      let at : (k : String) → lookup k once ≡ priced o k (lookup k flat) =
        λ k. lookup-filter_rows group ips flat k (index_prices-flatten_product m p) in
      let kept : lookup "index_prices" once ≡ some (rows (map price_map ips)) =
        at "index_prices"
        ∙ priced_relation o (lookup "index_prices" flat)
        ∙ index_prices-flatten_product m p in
      (
        at key,
        lookup-filter_rows group ips once key kept
            ∙ ap (priced o key) (at key)
            ∙ priced_again o key (lookup key flat)
            ∙ sym (at key),
      )
