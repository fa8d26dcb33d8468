-- ===== src/Cart.antt =====
-- services/cart/internal/app: the carts of the users.
pub mod Model
pub mod Repository
pub mod Service
pub mod Amounts
pub mod Keeping
pub mod Previews
pub mod Writes
pub mod Server
mod Tests
