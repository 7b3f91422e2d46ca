-- ===== src/Lib.antt =====
-- magento.GO: a web service in Go over the database of a Magento shop, modelled and verified.
--
-- The program's parts and their files:
--   Core/Registry     core/registry/registry.go and keys.go: values by key, with locks (Registry.Lock,
--                     SetGlobal, DeleteGlobal), and the registry of one request
--   Core/Cache        core/cache/cache.go: values with an expiry and tags
--   Core/Auth         core/auth/auth.go, model/repository/auth/auth_repository.go: the validators that
--                     let a request in, and the resources that its token grants
--   Extension         api/registry.go, cmd/registry.go, cron/registry.go, graphql/registry/registry.go:
--                     modules, routes, commands, jobs and resolvers, kept in the shared registry under
--                     one key each, and locked once they are in use
--   Batch             the loop that cuts a list into batches, as the importer has it in several places
--   Import            service/product/: the import of products. Import/Run is ImportProducts: it reads
--                     the header (prepare), looks up the SKUs and creates the missing products
--                     (Import/Entity), collects what the rows hold for EAV attributes, stock, gallery and
--                     prices (Import/Eav, Import/Stock, Import/Gallery, Import/Price), flushes the
--                     four side by side (flush_all, Import/Jobs), and counts. Import/Stock/Json is the
--                     import of stock from JSON, Import/Schema the detection of the schema
--   Category          model/repository/category/category_repository.go: Category/Flat flattens attributes,
--                     Category/Tree builds the tree and looks for a part of it, Category/Repo holds the
--                     queries with their caches
--   Product           model/repository/product/product_repository.go: Product/Flat flattens a product into
--                     a map of the values of Product/Value, Product/Repo fetches products in batches and
--                     caches them by store
--   Request           graphql/context.go, api/graphql/graphql_api.go, graphql/resolvers and html/category.go:
--                     the store and the page of a request
--   Resolver          graphql/resolvers/: Resolver/Products and Resolver/Listing are the queries for
--                     products, which fetch from Product/Repo and cut pages by Request/Paging;
--                     Resolver/Categories are those for categories over Category/Repo; Resolver/Mapper,
--                     Resolver/Magento and Resolver/Uid turn maps and ids into GraphQL types
--   Realtime          api/realtime/realtime_api.go with model/repository/price and model/repository/inventory
--   Html              html/product.go: the page of some products, over Product/Repo and Category/Repo
--                     (Html/Product) with their breadcrumbs (Html/Crumbs)
--   Command           cmd/product_json.go: the command that writes products as JSON
--   Prelude           lists, maps, texts and numbers of Go; no code of the program
--
-- A function keeps its Go name in snake case. State is passed: a method that changes its receiver
-- returns the new one, a function that writes to the database takes and returns the database's state `S`.
-- A map is an association list, and its order stands for an order of iteration that Go leaves open.
-- A call that may panic returns `Run`. An `interface{}` is a type parameter. Numbers are natural numbers
-- with the wrap-around of Go's integers written out where a value can reach it; `int` results that may be
-- negative are `ℤ`.
--
-- Parameters: the database's statements (records Db, Gorm and AuthDb, and the queries `find`), base64,
-- HMAC-SHA256, hexadecimal, json.Marshal, mapstructure and the templates, the
-- orders in which the importer's goroutines finish and its maps are ranged over (Schedule), `float64` with its parser and `time.Time` with its parser
-- (Std), the CSV reader (its header and rows, or its error), and the clock.
--
-- Loops are structural recursion on the list that they range over. The loop over batches advances an
-- index: it has as many rounds of fuel as the list has elements, which is enough for a positive size
-- of batch, since each round takes at least one. The recursion that builds the tree of categories
-- has no bound in the source: it runs on fuel, and ends where parents are ranked before their children,
-- as they are by their level in the shop.
--
-- Not modelled: the orders of model/repository/sales and the methods of repositories that are one call of
-- GORM; the search by Elasticsearch; images and the other HTML pages; the REST handlers of products,
-- categories, orders and stock; the dump and restore of the cache; the configuration, logging, other
-- commands and start-up, which are input and output. The maps that the repository hands out
-- of its cache are written into by the resolvers, which Resolver/Shared writes back; what the page of
-- products adds for its template (the breadcrumbs, the description as HTML) is not written back. Mutexes
-- are left out: each method is one step.
pub mod Prelude
pub mod Core
pub mod Extension
pub mod Batch
pub mod Import
pub mod Category
pub mod Product
pub mod Request
pub mod Resolver
pub mod Realtime
pub mod Html
pub mod Command
