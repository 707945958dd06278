-- ===== src/Memory/Bytewise.antt =====
-- src/peer/io/mod.rs, `MemoryTorrentIO`: what a write changes, byte by byte.
use bentorrent.Prelude.{
  Bool-cases, ==_iff, ◌==◌, ◌≢◌, get_elem?-some, to_u32, add_usize, Option-cases, Option-cases,
  get_elem?-set_ne, get_elem?-set_self, inl, inr, sym, ap, ◌⊎◌, length-take, length-drop, Option,
  ap, ◌∙◌, ℕ, ◌+◌, ◌-◌, ◌<◌, ◌≤◌, ◌≡◌, refl, arith, ltb, leb, ◌&&◌, if◌then◌else◌, Bool, true,
  false, none, some, length, get_elem?, set, take, drop, add_u32, u32_mod, usize_mod,
}
use bentorrent.Outcome.{ok, err, panic}
use bentorrent.Torrent.{Bytes}
use bentorrent.Slices
use bentorrent.Io.{bad_piece_idx, bad_bounds}
use bentorrent.Memory.{slice_of, MemoryTorrentIo, Memory, copy_block, write_piece, read_piece}
use bentorrent.Memory.Copying.{copy_block-bytes, get_elem?-take, get_elem?-drop}

-- Byte `k` of piece `i`.
unfoldable pub byte_at : MemoryTorrentIo → ℕ → ℕ → Option ℕ
byte_at io i k = elim (get_elem? io.memory i) [
  | none ↦ none
  | some piece ↦ get_elem? piece.memory k
]

unfoldable pub piece_size : MemoryTorrentIo → ℕ → ℕ
piece_size io i = elim (get_elem? io.memory i) [ none ↦ 0 | some piece ↦ length piece.memory ]

piece_size-piece :
    (io : MemoryTorrentIo) (i : ℕ) (piece : Memory)
    → get_elem? io.memory i ≡ some piece
    → length piece.memory ≡ piece_size io i
unfolding piece_size
piece_size-piece io i piece e = rw (e, piece_size) refl

piece_of :
    (io : MemoryTorrentIo) (i : ℕ)
    → i < length io.memory
    → (piece : Memory) × (get_elem? io.memory i ≡ some piece)
      × (length piece.memory ≡ piece_size io i)
piece_of io i h =
    let (piece, e) = get_elem?-some io.memory i h in (piece, e, piece_size-piece io i piece e)

byte_at-piece :
    (io : MemoryTorrentIo) (i k : ℕ) (piece : Memory)
    → get_elem? io.memory i ≡ some piece
    → byte_at io i k ≡ get_elem? piece.memory k
unfolding byte_at
byte_at-piece io i k piece e = rw (e, byte_at) refl

slice_of_inside :
    (m : Bytes) (b len : ℕ)
    → b + len ≤ length m
    → length m < u32_mod
    → slice_of m b (add_u32 b len) ≡ ok (take len (drop b m))
unfolding slice_of
slice_of_inside m b len h small =
    let end : add_u32 b len ≡ b + len = omega arith in
    let ordered : ltb (b + len) b ≡ false = ground arith in
    let within : ltb (length m) (b + len) ≡ false = ground arith in
    let size : b + len - b ≡ len = omega arith in rw (end, ordered, within, size) refl

read_piece-piece :
    (io : MemoryTorrentIo) (i b len : ℕ) (piece : Memory)
    → get_elem? io.memory i ≡ some piece
    → read_piece io i b len ≡ slice_of piece.memory b (add_u32 b len)
unfolding read_piece
read_piece-piece io i b len piece e = rw (e, read_piece) refl

-- A read inside a piece of fewer than 2^32 bytes of the memory store returns as many bytes as
-- asked for, and they are the bytes of the piece from the offset on.
pub read_piece-byte_at :
    (io : MemoryTorrentIo) (i b len : ℕ)
    → i < length io.memory
    → b + len ≤ piece_size io i
    → piece_size io i < u32_mod
    → (bytes : Bytes) × (read_piece io i b len ≡ ok bytes)
      × (length bytes ≡ len)
      × ((k : ℕ) → k < len → get_elem? bytes k ≡ byte_at io i (b + k))
read_piece-byte_at io i b len exists h small =
    let (piece, e, size) = piece_of io i exists in
    (
      take len (drop b piece.memory),
      read_piece-piece io i b len piece e
          ∙ slice_of_inside piece.memory b len (omega arith) (omega arith),
      omega (arith, length-take len (drop b piece.memory), length-drop b piece.memory),
      λ k l.
          get_elem?-take len (drop b piece.memory) k l
          ∙ get_elem?-drop b piece.memory k
          ∙ sym (byte_at-piece io i (b + k) piece e),
    )

-- The piece that a write leaves.
abbrev written : Memory → ℕ → Bytes → Memory
written piece b block = record {
  memory = copy_block piece.memory b block;
  slices = (Slices.insert piece.slices b (to_u32 (length block))).0;
}

write_piece-piece :
    (io : MemoryTorrentIo) (i b : ℕ) (block : Bytes) (piece : Memory)
    → get_elem? io.memory i ≡ some piece
    → b + length block ≤ length piece.memory
    → length piece.memory < usize_mod
    → write_piece io i b block ≡ (
      record { memory = set io.memory i (written piece b block) },
      ok (Slices.insert piece.slices b (to_u32 (length block))).1,
    )
unfolding write_piece
write_piece-piece io i b block piece e h small =
    let within : ltb (length piece.memory) (add_usize b (length block)) ≡ false =
      ground (arith, h, small) in
    rw (e, write_piece, within) refl

byte_at-set :
    (io : MemoryTorrentIo) (i j k : ℕ) (piece : Memory)
    → i < length io.memory
    → byte_at (record { memory = set io.memory i piece }) j k
      ≡ (if i == j then get_elem? piece.memory k else byte_at io j k)
unfolding byte_at
byte_at-set io i j k piece h = elim (Bool-cases (i == j)) [
  | inl same ↦
      let eq = (==_iff i j).0 same in
      rw same (
        byte_at-piece (record { memory = set io.memory i piece }) j k piece
          (ap (get_elem? (set io.memory i piece)) (sym eq)
            ∙ get_elem?-set_self io.memory i piece h))
  | inr other ↦
      let ne : i ≢ j = λ q. ground arith in
      rw (other, get_elem?-set_ne io.memory i j piece ne, byte_at) refl
]

-- A block written inside a piece of the memory store is accepted and found there, and no other
-- byte of the store changes.
pub byte_at-write_piece :
    (io : MemoryTorrentIo) (i b : ℕ) (block : Bytes)
    → i < length io.memory
    → b + length block ≤ piece_size io i
    → piece_size io i < usize_mod
    → ((done : Bool) × ((write_piece io i b block).1 ≡ ok done))
      × ((j k : ℕ)
          → byte_at (write_piece io i b block).0 j k ≡ (
              if (i == j) && (leb b k && ltb k (b + length block))
              then get_elem? block (k - b)
              else byte_at io j k))
byte_at-write_piece io i b block exists h small =
    let (piece, e, size) = piece_of io i exists in
    let w = write_piece-piece io i b block piece e (omega arith) (omega arith) in
    rw w (
      ((Slices.insert piece.slices b (to_u32 (length block))).1, refl),
      λ j k. ground (
        arith,
        byte_at-set io i j k (written piece b block) exists,
        copy_block-bytes piece.memory b block k (omega arith),
        byte_at-piece io i k piece e,
      ),
    )

-- A write to the memory store that does not fit its piece, or whose piece is not there, leaves the
-- store as it is and reports the error, for ends below 2^64.
pub write_piece_rejects :
    (io : MemoryTorrentIo) (i b : ℕ) (block : Bytes)
    → piece_size io i < b + length block
    → b + length block < usize_mod
    → ((write_piece io i b block).0 ≡ io)
      × (((write_piece io i b block).1 ≡ err (bad_piece_idx i))
          ⊎ ((write_piece io i b block).1 ≡ err (bad_bounds i (b + length block))))
unfolding write_piece piece_size
write_piece_rejects io i b block h small = elim (Option-cases (get_elem? io.memory i)) [
  | inl e ↦ rw (e, write_piece) (refl, inl refl)
  | inr (piece, e) ↦
      let end : add_usize b (length block) ≡ b + length block = omega arith in
      let size : length piece.memory ≡ piece_size io i = rw (e, piece_size) refl in
      let beyond : ltb (length piece.memory) (b + length block) ≡ true = ground (arith, size, h) in
      rw (e, write_piece, end, beyond) (refl, inr refl)
]

-- A read of a piece of the memory store that does not fit the piece, with an end below 2^32,
-- panics.
pub read_piece_panics :
    (io : MemoryTorrentIo) (i b len : ℕ)
    → i < length io.memory
    → piece_size io i < b + len
    → b + len < u32_mod
    → read_piece io i b len ≡ panic
unfolding slice_of
read_piece_panics io i b len exists h small =
    let (piece, e, size) = piece_of io i exists in
    let end : add_u32 b len ≡ b + len = omega arith in
    let beyond : ltb (length piece.memory) (b + len) ≡ true = ground (arith, size, h) in
    let ordered : ltb (b + len) b ≡ false = ground arith in
    read_piece-piece io i b len piece e ∙ rw (end, ordered, beyond) refl
