-- ===== src/Subnets.antt =====
-- network/subnets: IPv4 networks, the selectors, and the pool of subnets.
pub mod Address
pub mod Errors
pub mod Selectors
pub mod Pool
mod Tests
