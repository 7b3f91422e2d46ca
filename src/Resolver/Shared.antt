-- ===== src/Resolver/Shared.antt =====
-- The maps that model/repository/product/product_repository.go hands out are those of its cache where
-- they come from there, so that what graphql/resolvers/product_mapper.go writes into a product's
-- map is seen by every later reader.
use magento_go.Prelude.{ℕ, Bool, Option, none, some, [], ◌∷◌, nat_eq, if◌then◌else◌}
use magento_go.Prelude.Dict.{lookup, insert, has}
use magento_go.Product.Value.{Flat}
use magento_go.Product.Repo.{State, Flats}

module _ {F T : Type 0} where
  abbrev pub write_in : ℕ → ℕ → Flat F T → Option (Flats F T) → State F T → State F T
  write_in store id p none s = s
  write_in store id p (some cached) s =
      if has id cached
      then record {
        code_map = s.code_map;
        flat_cache = insert store (insert id p cached) s.flat_cache;
      }
      else s

  -- A map that was fetched because its id was not in the cache is not the cache's.
  abbrev pub write_flat : ℕ → ℕ → Flat F T → State F T → State F T
  write_flat store id p s = write_in store id p (lookup store s.flat_cache) s

  abbrev pub write_each : ℕ → Flats F T → State F T → State F T
  write_each store [] s = s
  write_each store ((id, p) ∷ flats) s = write_each store flats (write_flat store id p s)

  -- With the cache turned off every map is fetched.
  unfoldable pub write_flats : Bool → ℕ → Flats F T → State F T → State F T
  write_flats disabled store flats s = if disabled then s else write_each store flats s
