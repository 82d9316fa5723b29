-- ===== src/Trade.antt =====
-- Orders of the Trading API: the package trade. The parts are in the modules below.
pub mod Enums
pub mod Decimal
pub mod Occ
pub mod Lookups
pub mod Accounts
pub mod Profiles
pub mod Futures
pub mod FuturesUnits
pub mod EventContracts
pub mod Order
pub mod Assets
pub mod Prepare
pub mod Messages
pub mod Client
pub mod Combo
pub mod Samples
