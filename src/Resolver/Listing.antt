-- ===== src/Resolver/Listing.antt =====
-- graphql/resolvers/magento_resolver.go, MagentoProducts: the products of a category page by page.
-- `to_upper` is strings.ToUpper.
pub mod Pages
use magento_go.Prelude.{
  ℕ, not, Bool, true, String, Option, none, some, List, [], ◌∷◌, map, length, ltb, ◌==◌, string_eq,
  nat_eq, if◌then◌else◌,
}
use magento_go.Prelude.Dict.{Dict, lookup}
use magento_go.Prelude.Fallible.{Result, err, ok, map_ok}
use magento_go.Prelude.Int.{ℤ, to_int32}
use magento_go.Product.Value.{Flat}
use magento_go.Product.Repo.{
  Db, State, Flats, fetch_with_all_attributes_flat, fetch_with_all_attributes_flat_by_ids,
}
use magento_go.Request.Paging.{positive_or, paginate, total_pages}
use magento_go.Resolver.Mapper.{filter_price_for_guest}
use magento_go.Resolver.Shared.{write_flats}
use magento_go.Resolver.Uid.{Base64, uid_decode}
use magento_go.Resolver.Magento.{Floats, MagentoProduct, flat_to_magento_product}

-- `category_uid: { eq: …, in: […] }`
pub record UidFilter : Type 0 where
  pub eq : Option String
  pub one_of : Option (List (Option String))

-- graphql.MagentoProductsArgs; a filter or a sort order that is missing, at any depth, is `none`.
pub record MagentoProductsArgs : Type 0 where
  pub category_uid : Option UidFilter
  pub sort_position : Option String
  pub page_size : ℤ
  pub current_page : ℤ

-- gqlmodels.Products
pub record Products (F : Type 0) : Type 0 where
  pub items : List (MagentoProduct F)
  pub total_pages : ℤ
  pub total_count : ℤ

abbrev pub or_default : Option ℕ → ℕ → ℕ
or_default none n = n
or_default (some id) n = id

abbrev pub empty_result : {F : Type 0} → Products F
empty_result = record { items = []; total_pages = ℤ.pos 1; total_count = ℤ.pos 0 }

module _ (b : Base64) where
  abbrev pub from_eq : Option String → ℕ
  from_eq none = 0
  from_eq (some uid) = or_default (uid_decode b uid) 0

  -- The first of the list alone.
  abbrev pub from_list : Option (List (Option String)) → ℕ → ℕ
  from_list none id = id
  from_list (some []) id = id
  from_list (some (none ∷ uids)) id = id
  from_list (some (some uid ∷ uids)) id = if uid == "" then id else or_default (uid_decode b uid) id

  unfoldable pub category_of : Option UidFilter → ℕ
  category_of none = 0
  category_of (some f) = from_list f.one_of (from_eq f.eq)

-- `asc = strings.ToUpper(*args.Sort.Position) != "DESC"`
abbrev pub ascending : (String → String) → Option String → Bool
ascending to_upper none = true
ascending to_upper (some position) = not (to_upper position == "DESC")

abbrev pub guest_group_id : ℕ
guest_group_id = 0

module _ {F T : Type 0} where
  abbrev pub keys : Flats F T → List ℕ
  keys [] = []
  keys ((id, p) ∷ flats) = id ∷ keys flats

  abbrev pub shown : (F → ℕ) → Option (Flat F T) → List (Flat F T) → List (Flat F T)
  shown truncate none rest = rest
  shown truncate (some p) rest = filter_price_for_guest truncate p guest_group_id ∷ rest

  -- The maps that filterPriceForGuest has written into, under their ids.
  abbrev pub written : (F → ℕ) → ℕ → Option (Flat F T) → Flats F T → Flats F T
  written truncate id none rest = rest
  written truncate id (some p) rest = (id, filter_price_for_guest truncate p guest_group_id) ∷ rest

  abbrev pub all_written : (F → ℕ) → (ℕ → Option (Flat F T)) → List ℕ → Flats F T
  all_written truncate find [] = []
  all_written truncate find (id ∷ ids) =
      written truncate id (find id) (all_written truncate find ids)

  -- `if p, ok := flat[id]; ok { allItems = append(…) }` over the ids
  abbrev pub all_items : (F → ℕ) → (ℕ → Option (Flat F T)) → List ℕ → List (Flat F T)
  all_items truncate find [] = []
  all_items truncate find (id ∷ ids) = shown truncate (find id) (all_items truncate find ids)

module _ (b : Base64) (floats : Floats) {T : Type 0} where
  open floats use {Float, truncate}

  abbrev pub page_of : List (Flat Float T) → MagentoProductsArgs → Products Float
  page_of items args =
      let ps = positive_or 12 args.page_size in
      let cp = positive_or 1 args.current_page in
      record {
        items = map (λ p. flat_to_magento_product b floats p "") (paginate items cp ps);
        total_pages = to_int32 (total_pages (length items) ps);
        total_count = to_int32 (length items);
      }

module _ (b : Base64) (floats : Floats) {E T : Type 0} where
  open floats use {Float, truncate}

  abbrev pub show_found :
      Bool
      → MagentoProductsArgs
      → ℕ
      → List ℕ
      → State Float T × Result E (Flats Float T)
      → State Float T × Products Float
  show_found disabled args store ids (s, err e) = (s, empty_result)
  show_found disabled args store ids (s, ok flat) = (
    write_flats disabled store (all_written truncate (λ id. lookup id flat) ids) s,
    page_of b floats (all_items truncate (λ id. lookup id flat) ids) args,
  )

  abbrev pub show_ids :
      Db E Float T
      → Bool
      → MagentoProductsArgs
      → ℕ
      → State Float T × Result E (List ℕ)
      → State Float T × Products Float
  show_ids db disabled args store (s, err e) = (s, empty_result)
  show_ids db disabled args store (s, ok ids) =
      show_found disabled args store ids
        (fetch_with_all_attributes_flat_by_ids db disabled ids store s)

  -- Without a category the ids are those of all products.
  abbrev pub all_ids : State Float T × Result E (Flats Float T) → State Float T × Result E (List ℕ)
  all_ids (s, r) = (s, map_ok keys r)

  unfoldable pub magento_products :
      (String → String)
      → Db E Float T
      → Bool
      → MagentoProductsArgs
      → ℕ
      → State Float T
      → State Float T × Products Float
  magento_products to_upper db disabled args store s =
      let category_id = category_of b args.category_uid in
      let asc = ascending to_upper args.sort_position in
      show_ids db disabled args store (
        if ltb 0 category_id
        then (s, db.category_products category_id asc)
        else all_ids (fetch_with_all_attributes_flat db disabled store s))
