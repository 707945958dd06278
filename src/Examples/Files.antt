-- ===== src/Examples/Files.antt =====
-- The file store on a file of one piece.
use bentorrent.Prelude.{
  List, ◌≡◌, refl, arith, true, [], ◌∷◌, ◌++◌, some, get_elem?, take, drop, replicate,
}
use bentorrent.Outcome.{ok, err}
use bentorrent.Torrent.{Bytes, piece_len}
use bentorrent.Slices
use bentorrent.Io.{piece_hash_mismatch, file_already_complete}
use bentorrent.Memory.{copy_block}
use bentorrent.FileStore.{FilePieceState}
use bentorrent.FileStore.FileApi.Concrete.{MemoryFile, memory_file, memory_file-IsReliable}
use bentorrent.FileStore.Store.{FileTorrentIo, write_piece, read_piece}
use bentorrent.FileStore.Stuck.{Operation, writes, reads, run_store, write_piece_mismatch}
use bentorrent.FileStore.Contents.{write_piece_verified, read_piece-write_piece}

abbrev sha1 : Bytes → Bytes
sha1 bytes = take 20 (bytes ++ replicate 20 0)

abbrev hex : Bytes → Bytes
hex bytes = bytes

abbrev block : Bytes
block = 1 ∷ 2 ∷ 3 ∷ 4 ∷ []

abbrev piece : FilePieceState
piece = record { hash = sha1 block; slices = Slices.new 4; start_idx = 0; size = 4 }

abbrev io : FileTorrentIo MemoryFile
io = record {
  file = record { bytes = replicate 4 0; cursor = 0 };
  piece_to_file = piece ∷ [];
  allocation = record { total_pieces = 1; max_piece_size = 4; last_piece_size = 4 };
}

accepts : (write_piece memory_file sha1 hex io 0 0 block).1 ≡ ok true
unfolding write_piece Slices.insert Slices.new Slices.is_complete Slices.search Slices.place
    piece_len copy_block
accepts = refl

write_piece_verified_example :
    let after = (write_piece memory_file sha1 hex io 0 0 block).0 in
    (piece : FilePieceState) × ((get_elem? after.piece_to_file 0 ≡ some piece)
      × ((Slices.is_complete piece.slices ≡ true)
          × (sha1 (take piece.size (drop piece.start_idx after.file.bytes)) ≡ piece.hash)))
write_piece_verified_example = write_piece_verified memory_file sha1 hex io 0 0 block accepts

read_piece-write_piece_example :
    (read_piece memory_file sha1 hex (write_piece memory_file sha1 hex io 0 0 block).0 0 0 4).1
    ≡ ok block
unfolding piece_len
read_piece-write_piece_example =
    read_piece-write_piece memory_file sha1 hex io 0 0 block piece memory_file-IsReliable refl
      (omega arith) (omega arith) (omega arith) accepts

abbrev bad_block : Bytes
bad_block = 1 ∷ 2 ∷ 3 ∷ 5 ∷ []

rejects :
    (write_piece memory_file sha1 hex io 0 0 bad_block).1
    ≡ err (piece_hash_mismatch 0 (sha1 bad_block) (sha1 block))
unfolding write_piece Slices.insert Slices.new Slices.is_complete Slices.search Slices.place
    piece_len copy_block
rejects = refl

-- A read and another write come between.
abbrev between : List Operation
between = reads 0 0 4 ∷ writes 0 0 block ∷ []

write_piece_mismatch_example :
    let later =
      run_store memory_file sha1 hex
        (write_piece memory_file sha1 hex io 0 0 bad_block).0
        between in
    write_piece memory_file sha1 hex later 0 0 block ≡ (later, err (file_already_complete 0))
write_piece_mismatch_example =
    write_piece_mismatch memory_file sha1 hex io 0 0 0 bad_block (sha1 bad_block) (sha1 block)
      between 0 block rejects
