-- ===== src/Book.antt =====
-- src/infrastructure/gektor_l2: the L2 order book of one symbol.
pub mod Side
pub mod Sizing
pub mod Ring
pub mod State
pub mod Cross
mod Examples
