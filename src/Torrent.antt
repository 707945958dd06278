-- ===== src/Torrent.antt =====
-- src/model/mod.rs, src/model/torrent.rs (the data types) and the allocation of src/peer/mod.rs:
-- how a torrent's length divides into pieces.
pub mod Layout
use bentorrent.Prelude.{ℕ, ◌-◌, ◌==◌, List, ℤ, length, if◌then◌else◌}
use bentorrent.Prelude.{to_usize, sub_usize, mul_usize}

-- Bytes are numbers below 256.
abbrev pub Bytes : Type 0
Bytes = List ℕ

abbrev pub PeerId : Type 0
PeerId = Bytes

pub record V1Piece : Type 0 where
  pub hash : Bytes

pub record V1TorrentInfo : Type 0 where
  pub length : ℤ
  pub piece_length : ℤ
  pub pieces : List V1Piece
  pub name : Bytes
  pub info_hash : Bytes

pub record V1Torrent : Type 0 where
  pub info : V1TorrentInfo
  pub announce : Bytes
  pub announce_list : List Bytes

pub record PeerRequestedPiece : Type 0 where
  pub peer_id : PeerId
  pub index : ℕ
  pub begin : ℕ
  pub length : ℕ

abbrev pub piece_block_size : ℕ
piece_block_size = 16_384

pub record TorrentAllocation : Type 0 where
  pub total_pieces : ℕ
  pub max_piece_size : ℕ
  pub last_piece_size : ℕ

-- `usize` arithmetic wraps as in a release build.
unfoldable pub allocate_torrent : V1Torrent → TorrentAllocation
allocate_torrent t = record {
  total_pieces = length t.info.pieces;
  max_piece_size = to_usize t.info.piece_length;
  last_piece_size =
      sub_usize (to_usize t.info.length)
        (mul_usize (sub_usize (length t.info.pieces) 1) (to_usize t.info.piece_length));
}

unfoldable pub piece_len : TorrentAllocation → ℕ → ℕ
piece_len a idx = if idx == sub_usize a.total_pieces 1 then a.last_piece_size else a.max_piece_size
