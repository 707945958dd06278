-- ===== src/Piece.antt =====
-- src/peer/state/piece.rs: which blocks of which pieces are requested, received or still to do.
pub mod Blocks
pub mod Expiry
pub mod Allocation
pub mod Tracker
