-- ===== src/Memory.antt =====
-- src/peer/io/mod.rs, `MemoryTorrentIO`: the store that keeps the pieces in memory.
pub mod Copying
pub mod Bytewise
use bentorrent.Prelude.{
  ℕ, zero, suc, ◌+◌, ◌-◌, ltb, ◌||◌, if◌then◌else◌, Bool, none, some, List, [], ◌∷◌, ◌++◌, length,
  get_elem?, set, take, drop, replicate, add_u32, add_usize, to_u32,
}
use bentorrent.Outcome.{Outcome, ok, err, panic}
use bentorrent.Torrent.{Bytes, V1Torrent, allocate_torrent}
use bentorrent.Slices
use bentorrent.Slices.{Slices}
use bentorrent.Io.{PeerError, bad_bounds, bad_piece_idx, TorrentIo}

pub record Memory : Type 0 where
  pub memory : Bytes
  pub slices : Slices

abbrev pub of_bytes : Bytes → Memory
of_bytes memory = record { memory = memory; slices = Slices.new (length memory) }

pub record MemoryTorrentIo : Type 0 where
  pub memory : List Memory

unfoldable pub new : V1Torrent → MemoryTorrentIo
new torrent =
    let allocation = allocate_torrent torrent in
    record {
      memory =
          replicate (allocation.total_pieces - 1) (of_bytes (replicate allocation.max_piece_size 0))
          ++ of_bytes (replicate allocation.last_piece_size 0) ∷ [];
    }

-- The loop that copies the block; the bounds are checked before it.
unfoldable pub copy_block : Bytes → ℕ → Bytes → Bytes
copy_block memory begin [] = memory
copy_block memory begin (x ∷ block) = copy_block (set memory begin x) (suc begin) block

unfoldable pub write_piece :
    MemoryTorrentIo → (index begin : ℕ) (block : Bytes) → MemoryTorrentIo × Outcome PeerError Bool
unfolding copy_block
write_piece io index begin block = elim (get_elem? io.memory index) [
  | none ↦ (io, err (bad_piece_idx index))
  | some piece ↦
      let end_pos = add_usize begin (length block) in
      let inserted = Slices.insert piece.slices begin (to_u32 (length block)) in
      let written : Memory = record {
        memory = copy_block piece.memory begin block;
        slices = inserted.0;
      } in
      if ltb (length piece.memory) end_pos
      then (io, err (bad_bounds index end_pos))
      else (record { memory = set io.memory index written }, ok inserted.1)
]

-- The slice `memory[begin..end]`, which panics out of bounds.
unfoldable pub slice_of : Bytes → ℕ → ℕ → Outcome PeerError Bytes
slice_of memory begin end =
    if ltb end begin || ltb (length memory) end
    then panic
    else ok (take (end - begin) (drop begin memory))

unfoldable pub read_piece : MemoryTorrentIo → (index begin len : ℕ) → Outcome PeerError Bytes
unfolding slice_of
read_piece io index begin len = elim (get_elem? io.memory index) [
  | none ↦ err (bad_piece_idx index)
  | some piece ↦ slice_of piece.memory begin (add_u32 begin len)
]

abbrev pub memory_io : TorrentIo MemoryTorrentIo
memory_io = record { write_piece = write_piece; read_piece = read_piece }
