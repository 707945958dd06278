-- ===== src/FileStore.antt =====
-- src/peer/io/file.rs, `FileTorrentIO::new`: where the pieces lie in the file.
pub mod Offsets
pub mod FileApi
pub mod Store
pub mod Hashes
pub mod Contents
pub mod Stuck
use bentorrent.Prelude.{ℕ, zero, suc, List, [], ◌∷◌, none, some, get_elem?, mul_usize}
use bentorrent.Torrent.{Bytes, V1Piece, V1Torrent, TorrentAllocation, allocate_torrent, piece_len}
use bentorrent.Slices
use bentorrent.Slices.{Slices}

pub record FilePieceState : Type 0 where
  pub hash : Bytes
  pub slices : Slices
  pub start_idx : ℕ
  pub size : ℕ

unfoldable pub new : ℕ → ℕ → Bytes → FilePieceState
new expected_size start_idx hash = record {
  hash = hash;
  slices = Slices.new expected_size;
  start_idx = start_idx;
  size = expected_size;
}

-- The body of the loop over the pieces.
unfoldable pub file_piece : TorrentAllocation → ℕ → V1Piece → FilePieceState
unfolding new
file_piece allocation idx piece =
    let piece_len = piece_len allocation idx in new piece_len (mul_usize piece_len idx) piece.hash

-- The pieces from `idx` on.
unfoldable pub pieces_from : TorrentAllocation → ℕ → List V1Piece → List FilePieceState
unfolding file_piece
pieces_from allocation idx [] = []
pieces_from allocation idx (piece ∷ pieces) =
    file_piece allocation idx piece ∷ pieces_from allocation (suc idx) pieces

unfoldable pub piece_to_file : V1Torrent → List FilePieceState
unfolding pieces_from
piece_to_file torrent = pieces_from (allocate_torrent torrent) 0 torrent.info.pieces
