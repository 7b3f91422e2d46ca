-- ===== src/Realtime.antt =====
-- api/realtime/ with model/repository/price and model/repository/inventory: the price and the stock of a
-- product in real time.
pub mod Prices
pub mod Handlers
mod Tests
