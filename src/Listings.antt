-- ===== src/Listings.antt =====
-- core/listings.go: what a listing has to be before a node publishes it, shows it or sells it.
pub mod Defs
pub mod Limits
pub mod Loops
pub mod Options
pub mod Skus
pub mod Metadata
pub mod Items
pub mod Terms
pub mod Shipping
pub mod Validate
pub mod Inventory
pub mod Stocked
pub mod Posted
pub mod Priced
pub mod Typed
pub mod Publishable
