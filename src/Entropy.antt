-- ===== src/Entropy.antt =====
-- src/arch/common/entropy: the health tests of the entropy sources and their quorum.
pub mod Health
pub mod Quorum
mod Tests
