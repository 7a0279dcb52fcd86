-- ===== src/Utils.antt =====
-- stratum/server/utils: byte orders, number and string serialisation, the merkle branch and the
-- split of the coinbase transaction.
pub mod Reverse
pub mod Stoppable
pub mod Random
pub mod Pack
pub mod Merkle
pub mod Coinbase
mod Tests
