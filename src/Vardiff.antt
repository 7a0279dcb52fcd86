-- ===== src/Vardiff.antt =====
-- stratum/server/vardiff: the ring buffer of share intervals and the difficulty that is computed from it.
pub mod Float
pub mod Ring
pub mod Calc
mod Tests
