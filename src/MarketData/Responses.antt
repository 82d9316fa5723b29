-- ===== src/MarketData/Responses.antt =====
-- Responses of market data as they are decoded: the package marketdata.
pub mod Shapes
pub mod Stocks
pub mod Options
pub mod Futures
pub mod Crypto
pub mod EventContracts
pub mod Screeners
pub mod Fundamentals
pub mod Funds
