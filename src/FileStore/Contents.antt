-- ===== src/FileStore/Contents.antt =====
-- src/peer/io/file.rs: the answers of the file store and the bytes of the file.
use bentorrent.Prelude.{
  subst, Bool, if◌then◌else◌, ℕ, ◌+◌, ◌≤◌, ◌<◌, ltb, true, false, List, none, some, length,
  get_elem?, set, add_usize, usize_mod, ◌≡◌, refl, sym, ap, ◌∙◌, arith, take, drop, Bool-cases, inl,
  inr, get_elem?-set_self,
}
use bentorrent.Prelude.Eq.{list_eq}
use bentorrent.Outcome.{Outcome, ok, err}
use bentorrent.Torrent.{Bytes, piece_len}
use bentorrent.Slices
use bentorrent.Io.{PeerError, bad_bounds, bad_piece_idx, file_piece_not_finished}
use bentorrent.Memory.{copy_block}
use bentorrent.Memory.Copying.{take-copy_block, length-copy_block}
use bentorrent.FileStore.{FilePieceState}
use bentorrent.FileStore.FileApi.{FileApi, IsReliable}
use bentorrent.FileStore.Store.{FileTorrentIo, seek_offset, read_block, write_piece, read_piece}
use bentorrent.FileStore.Hashes.{
  Accepted, get_elem?-lt, verdict, recorded, Written, accepted, write_piece-Accepted,
}

module _ {F : Type 0} (api : FileApi F) (sha1 hex : Bytes → Bytes) where
  -- The piece that a write leaves in the list of pieces.
  pub piece_after :
      (io : FileTorrentIo F) (index : ℕ) (piece piece' : FilePieceState)
      (pieces : List FilePieceState)
      → get_elem? io.piece_to_file index ≡ some piece
      → pieces ≡ set io.piece_to_file index piece'
      → get_elem? pieces index ≡ some piece'
  piece_after io index piece piece' pieces e same = rw same (
      get_elem?-set_self io.piece_to_file index piece'
        (get_elem?-lt io.piece_to_file index piece e))

  verdict-ok :
      (index : ℕ) (computed expected : Bytes)
      → verdict api sha1 hex index computed expected ≡ ok true
      → computed ≡ expected
  verdict-ok index computed expected h = elim (Bool-cases (list_eq.beq computed expected)) [
    | inl same ↦ (list_eq.beq_iff computed expected).0 same
    | inr differs ↦ absurd (let mismatch = rw differs at h in cc)
  ]

  -- When a write answers that the piece is complete, every range of the piece is recorded as written,
  -- and the SHA-1 of its bytes, as they are in the file then, is the hash that the torrent has for it.
  pub write_piece_verified :
      (io : FileTorrentIo F) (index begin : ℕ) (block : Bytes)
      → (write_piece api sha1 hex io index begin block).1 ≡ ok true
      → let after = (write_piece api sha1 hex io index begin block).0 in
        (piece : FilePieceState) × ((get_elem? after.piece_to_file index ≡ some piece)
          × ((Slices.is_complete piece.slices ≡ true)
              × (sha1 (take piece.size (drop piece.start_idx (api.bytes after.file)))
                  ≡ piece.hash)))
  write_piece_verified io index begin block h =
      elim (write_piece-Accepted api sha1 hex io index begin block (rw h refl)) [
        | accepted piece e open' fits w ↦
            let piece' = recorded api sha1 hex piece begin block in
            let answer = sym w.1.1.1 ∙ h in
            elim (Bool-cases (Slices.is_complete piece'.slices)) [
              | inr not_full ↦ absurd (let no_true = rw not_full at answer in cc)
              | inl full ↦ (
                piece',
                (
                  piece_after io index piece piece' _ e w.0,
                  (full, verdict-ok index _ piece.hash (rw full at answer)),
                ),
              )
            ]
      ]

  -- A read that fits a piece is refused while the piece is not complete, and one that does not fit a
  -- piece or whose piece is not there is refused with the bounds or the index; none of them touches
  -- the store, for ends below 2^64.
  pub read_piece_refuses :
      (io : FileTorrentIo F) (index begin len : ℕ)
      → begin + len < usize_mod
      → let r = read_piece api sha1 hex io index begin len in
        (get_elem? io.piece_to_file index ≡ none → r ≡ (io, err (bad_piece_idx index)))
        × ((piece : FilePieceState)
            → get_elem? io.piece_to_file index ≡ some piece
            → (piece_len io.allocation index < begin + len
                → r ≡ (io, err (bad_bounds index (begin + len))))
              × (begin + len ≤ piece_len io.allocation index
                  → Slices.is_complete piece.slices ≡ false
                  → r ≡ (io, err (file_piece_not_finished index))))
  unfolding read_piece
  read_piece_refuses io index begin len small =
      let end : add_usize begin len ≡ begin + len = omega arith in
      (
        λ e. rw (e, read_piece) refl,
        λ piece e. (
          λ beyond.
              let out : ltb (piece_len io.allocation index) (begin + len) ≡ true = ground arith in
              rw (e, end, out, read_piece) refl,
          λ fits open'.
              let within : ltb (piece_len io.allocation index) (begin + len) ≡ false =
                ground arith in
              rw (e, end, within, open', read_piece) refl,
        ),
      )

  read_block-bytes :
      (io : FileTorrentIo F) (piece : FilePieceState) (begin len : ℕ)
      → IsReliable api
      → piece.start_idx + begin + len ≤ length (api.bytes io.file)
      → length (api.bytes io.file) < usize_mod
      → let r = read_block api sha1 hex io piece begin len in
        (r.1 ≡ ok (take len (drop (piece.start_idx + begin) (api.bytes io.file))))
        × (api.bytes r.0.file ≡ api.bytes io.file)
  unfolding read_block seek_offset
  read_block-bytes io piece begin len reliable inside small =
      let at' : add_usize piece.start_idx begin ≡ piece.start_idx + begin = omega arith in
      let start = add_usize piece.start_idx begin in
      let seeks = reliable.seek_succeeds io.file start in
      let moved = api.seek_moves io.file start seeks in
      let s = (api.seek io.file start).0 in
      let (xs, reads) =
        reliable.read_exact_succeeds s len (rw (moved.0, moved.1) (omega (arith, at', inside))) in
      let read = api.read_exact_reads s len xs reads in
      let xs_is : xs ≡ take len (drop (piece.start_idx + begin) (api.bytes io.file)) =
        read.1.0
        ∙ (λ i. take len (drop (moved.1 i) (moved.0 i)))
        ∙ (λ i. take len (drop (at' i) (api.bytes io.file))) in
      rw (seeks, reads, read_block) (ap ok xs_is, read.0 ∙ moved.0)

  -- If the file's operations do not fail, a read that fits a complete piece, which lies in a file of
  -- fewer than 2^64 bytes, gives the bytes of the file from the piece's start and the offset on, and
  -- leaves them as they are.
  pub read_piece-bytes :
      (io : FileTorrentIo F) (index begin len : ℕ) (piece : FilePieceState)
      → IsReliable api
      → get_elem? io.piece_to_file index ≡ some piece
      → Slices.is_complete piece.slices ≡ true
      → begin + len ≤ piece_len io.allocation index
      → piece.start_idx + piece_len io.allocation index ≤ length (api.bytes io.file)
      → length (api.bytes io.file) < usize_mod
      → let r = read_piece api sha1 hex io index begin len in
        (r.1 ≡ ok (take len (drop (piece.start_idx + begin) (api.bytes io.file))))
        × (api.bytes r.0.file ≡ api.bytes io.file)
  unfolding read_piece
  read_piece-bytes io index begin len piece reliable e full fits inside small =
      let end : add_usize begin len ≡ begin + len = omega arith in
      let within : ltb (piece_len io.allocation index) (begin + len) ≡ false = ground arith in
      let reads : read_piece api sha1 hex io index begin len
          ≡ read_block api sha1 hex io piece begin len =
        rw (e, end, within, full, read_piece) refl in
      rw reads (read_block-bytes io piece begin len reliable (omega arith) small)

  Written-of_Accepted :
      (io : FileTorrentIo F) (index begin : ℕ) (block : Bytes) (piece : FilePieceState)
      (r : FileTorrentIo F × Outcome PeerError Bool)
      → get_elem? io.piece_to_file index ≡ some piece
      → Accepted api sha1 hex io index begin block r
      → Written api sha1 hex io index piece begin block r
  Written-of_Accepted io index begin block piece r e (accepted found e' open' room w) =
      let same : found ≡ piece = cc in
      subst (λ p. Written api sha1 hex io index p begin block r) same w

  completes :
      (index : ℕ) (piece : FilePieceState) (begin : ℕ) (block computed : Bytes)
      → (if Slices.is_complete (recorded api sha1 hex piece begin block).slices
          then verdict api sha1 hex index computed piece.hash
          else ok false)
        ≡ ok true
      → Slices.is_complete (recorded api sha1 hex piece begin block).slices ≡ true
  completes index piece begin block computed h =
      elim (Bool-cases (Slices.is_complete (recorded api sha1 hex piece begin block).slices)) [
        | inl full ↦ full
        | inr not_full ↦ absurd (let no_true = rw not_full at h in cc)
      ]

  -- If the file's operations do not fail, a block that completes its piece, and with it passes the
  -- check of the hash, is what a read of the same range gives afterwards, for a piece inside a file of
  -- fewer than 2^64 bytes.
  pub read_piece-write_piece :
      (io : FileTorrentIo F) (index begin : ℕ) (block : Bytes) (piece : FilePieceState)
      → IsReliable api
      → get_elem? io.piece_to_file index ≡ some piece
      → begin + length block ≤ piece_len io.allocation index
      → piece.start_idx + piece_len io.allocation index ≤ length (api.bytes io.file)
      → length (api.bytes io.file) < usize_mod
      → (write_piece api sha1 hex io index begin block).1 ≡ ok true
      → (read_piece api sha1 hex
          (write_piece api sha1 hex io index begin block).0
          index
          begin
          (length block)).1
        ≡ ok block
  read_piece-write_piece io index begin block piece reliable e fits inside small h =
      let after = (write_piece api sha1 hex io index begin block).0 in
      let piece' = recorded api sha1 hex piece begin block in
      let w =
        Written-of_Accepted io index begin block piece _ e
          (write_piece-Accepted api sha1 hex io index begin block (rw h refl)) in
      let start = piece.start_idx + begin in
      let at' : add_usize piece.start_idx begin ≡ start = omega arith in
      let copied : api.bytes after.file ≡ copy_block (api.bytes io.file) start block =
        w.1.1.0 (omega (arith, at')) ∙ (λ i. copy_block (api.bytes io.file) (at' i) block) in
      let same_length : length (api.bytes after.file) ≡ length (api.bytes io.file) =
        ap length copied ∙ length-copy_block (api.bytes io.file) start block in
      let same_room : piece_len after.allocation index ≡ piece_len io.allocation index =
        ap (λ a. piece_len a index) w.1.0 in
      let full = completes index piece begin block _ (sym w.1.1.1 ∙ h) in
      let there = piece_after io index piece piece' _ e w.0 in
      (read_piece-bytes after index begin (length block) piece' reliable there full
        (omega (arith, same_room)) (omega (arith, same_room, same_length))
        (omega (arith, same_length))).0
      ∙ ap (λ m. ok (take (length block) (drop start m))) copied
      ∙ ap ok (take-copy_block (api.bytes io.file) start block (omega arith))
