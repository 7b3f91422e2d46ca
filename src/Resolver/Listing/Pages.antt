-- ===== src/Resolver/Listing/Pages.antt =====
-- MagentoProducts of graphql/resolvers/magento_resolver.go shows the page of what the database holds.
use magento_go.Prelude.{nat_eq}
use magento_go.Product.Value.{Flat}
use magento_go.Product.Flat.{Product}
