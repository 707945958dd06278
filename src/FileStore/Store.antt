-- ===== src/FileStore/Store.antt =====
-- src/peer/io/file.rs, `FileTorrentIO`: writes to the file, the check of a piece that is complete,
-- and reads. The file, SHA-1 and the hexadecimal text of a hash are parameters.
use bentorrent.Prelude.{
  ℕ, ltb, if◌then◌else◌, Bool, true, false, List, none, some, length, get_elem?, set, add_usize,
  to_u32, not,
}
use bentorrent.Prelude.Eq.{list_eq}
use bentorrent.Outcome.{Outcome, ok, err, panic}
use bentorrent.Torrent.{Bytes, V1Torrent, TorrentAllocation, allocate_torrent, piece_len}
use bentorrent.Slices
use bentorrent.Slices.{Slices}
use bentorrent.Io.{
  PeerError, bad_bounds, bad_piece_idx, file_already_complete, file_piece_not_finished,
  piece_hash_mismatch, other,
}
use bentorrent.FileStore.{FilePieceState, piece_to_file}
use bentorrent.FileStore.FileApi.{FileApi}

pub record FileTorrentIo (F : Type 0) : Type 0 where
  pub file : F
  pub piece_to_file : List FilePieceState
  pub allocation : TorrentAllocation

-- `FileTorrentIO::new`, once the file is there with the length of the torrent.
unfoldable pub new_io : {F : Type 0} → F → V1Torrent → FileTorrentIo F
unfolding piece_to_file
new_io file torrent = record {
  file = file;
  piece_to_file = piece_to_file torrent;
  allocation = allocate_torrent torrent;
}

abbrev pub with_file : {F : Type 0} → FileTorrentIo F → F → FileTorrentIo F
with_file io file = record io { file = file }

module _ {F : Type 0} (api : FileApi F) (sha1 hex : Bytes → Bytes) where
  unfoldable pub seek_offset : FilePieceState → F → ℕ → F × Outcome Bytes (Unit {0})
  seek_offset piece file offset = api.seek file (add_usize piece.start_idx offset)

  unfoldable pub compute_file_sha1_hash : FilePieceState → F → F × Outcome Bytes Bytes
  compute_file_sha1_hash piece file =
      let s = api.seek file piece.start_idx in
      elim s.1 [
        | err e ↦ (s.0, err e)
        | panic ↦ (s.0, panic)
        | ok u ↦
            let r = api.read_exact s.0 piece.size in
            elim r.1 [ err e ↦ (r.0, err e) | panic ↦ (r.0, panic) | ok buf ↦ (r.0, ok (sha1 buf)) ]
      ]

  -- The branch of a piece that the block has completed.
  unfoldable pub check_hash :
      FileTorrentIo F → ℕ → FilePieceState → FileTorrentIo F × Outcome PeerError Bool
  unfolding compute_file_sha1_hash
  check_hash io index piece =
      let c = compute_file_sha1_hash piece io.file in
      elim c.1 [
        | err e ↦ (with_file io c.0, err (other e))
        | panic ↦ (with_file io c.0, panic)
        | ok computed_hash ↦
            if list_eq.beq computed_hash piece.hash then (with_file io c.0, ok true) else (
              with_file io c.0,
              err (piece_hash_mismatch index (hex computed_hash) (hex piece.hash)),
            )
      ]

  -- The branch of a block that is written.
  unfoldable pub write_block :
      FileTorrentIo F
      → ℕ
      → FilePieceState
      → (begin : ℕ) (block : Bytes) → FileTorrentIo F × Outcome PeerError Bool
  unfolding seek_offset check_hash
  write_block io index piece begin block =
      let s = seek_offset piece io.file begin in
      elim s.1 [
        | err e ↦ (with_file io s.0, err (other e))
        | panic ↦ (with_file io s.0, panic)
        | ok u ↦
            let w = api.write_all s.0 block in
            let inserted = Slices.insert piece.slices begin (to_u32 (length block)) in
            let piece' : FilePieceState = record piece { slices = inserted.0 } in
            let io' : FileTorrentIo F = record io {
              file = w.0;
              piece_to_file = set io.piece_to_file index piece';
            } in
            let checked = check_hash io' index piece' in
            elim w.1 [
              | err e ↦ (with_file io w.0, err (other e))
              | panic ↦ (with_file io w.0, panic)
              | ok v ↦ if inserted.1 then checked else (io', ok false)
            ]
      ]

  unfoldable pub write_piece :
      FileTorrentIo F → (index begin : ℕ) (block : Bytes) → FileTorrentIo F × Outcome PeerError Bool
  unfolding write_block
  write_piece io index begin block = elim (get_elem? io.piece_to_file index) [
    | none ↦ (io, err (bad_piece_idx index))
    | some piece ↦
        let end_pos = add_usize begin (length block) in
        if Slices.is_complete piece.slices
        then (io, err (file_already_complete index))
        else if ltb (piece_len io.allocation index) end_pos
        then (io, err (bad_bounds index end_pos))
        else write_block io index piece begin block
  ]

  -- The file after the read, and the block.
  unfoldable pub read_block :
      FileTorrentIo F → FilePieceState → (begin len : ℕ) → FileTorrentIo F × Outcome PeerError Bytes
  unfolding seek_offset
  read_block io piece begin len =
      let s = seek_offset piece io.file begin in
      elim s.1 [
        | err e ↦ (with_file io s.0, err (other e))
        | panic ↦ (with_file io s.0, panic)
        | ok u ↦
            let r = api.read_exact s.0 len in
            elim r.1 [
              | err e ↦ (with_file io r.0, err (other e))
              | panic ↦ (with_file io r.0, panic)
              | ok block ↦ (with_file io r.0, ok block)
            ]
      ]

  unfoldable pub read_piece :
      FileTorrentIo F → (index begin len : ℕ) → FileTorrentIo F × Outcome PeerError Bytes
  unfolding read_block
  read_piece io index begin len = elim (get_elem? io.piece_to_file index) [
    | none ↦ (io, err (bad_piece_idx index))
    | some piece ↦
        let end_pos = add_usize begin len in
        if ltb (piece_len io.allocation index) end_pos
        then (io, err (bad_bounds index end_pos))
        else if not (Slices.is_complete piece.slices)
        then (io, err (file_piece_not_finished index))
        else read_block io piece begin len
  ]
