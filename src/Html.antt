-- ===== src/Html.antt =====
-- html/: the pages that are rendered for a browser.
pub mod Crumbs
pub mod Product
