-- ===== src/Io.antt =====
-- src/peer/io/mod.rs, `TorrentIO`, and src/peer/error.rs: what a store of pieces offers.
use bentorrent.Prelude.{ℕ, Bool}
use bentorrent.Outcome.{Outcome}
use bentorrent.Torrent.{Bytes}

pub data PeerError : Type 0 where
  bad_bounds : (piece end : ℕ) → PeerError
  bad_piece_idx : ℕ → PeerError
  file_already_complete : ℕ → PeerError
  file_piece_not_finished : ℕ → PeerError
  piece_hash_mismatch : (piece : ℕ) (computed expected : Bytes) → PeerError
  network_timeout : PeerError
  other : Bytes → PeerError

-- The operations of a store with states `S`: the answer of a write is whether the piece is
-- complete. A panic ends the store.
pub record TorrentIo (S : Type 0) : Type 0 where
  pub write_piece : S → (index begin : ℕ) (block : Bytes) → S × Outcome PeerError Bool
  pub read_piece : S → (index begin len : ℕ) → Outcome PeerError Bytes
