-- ===== src/Catalog.antt =====
-- services/catalog/internal/app: products and their SKUs.
pub mod Model
pub mod Repository
pub mod Server
pub mod Orders
pub mod Pages
mod Tests
