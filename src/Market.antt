-- ===== src/Market.antt =====
-- The market data path: internal/market.
pub mod Registry
pub mod Validator
pub mod Cache
pub mod Gateway
pub mod Subscription
pub mod Samples
pub mod EventBus
