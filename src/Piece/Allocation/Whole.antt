-- ===== src/Piece/Allocation/Whole.antt =====
-- src/peer/state/piece.rs.
-- An allocation for a piece of a well formed torrent.
use bentorrent.Prelude.{
  ℕ, zero, suc, ◌+◌, ◌-◌, ◌*◌, ◌%◌, ◌≤◌, ◌<◌, ◌≡◌, refl, arith, true, ◌||◌, some, List, ◌∷◌, length,
  All, u32_mod,
}
use bentorrent.Prelude.Maps.{is_some}
use bentorrent.Prelude.Eq.{nat_eq}
use bentorrent.Prelude.Sets.{contains}
use bentorrent.Torrent.{
  V1Torrent, PeerId, PeerRequestedPiece, allocate_torrent, piece_len, piece_block_size,
}
use bentorrent.Torrent.Layout.{IsWellFormed, allocate_torrent_fields}
use bentorrent.Piece.Blocks.{PieceToBlockMap, contains_inprogress}
use bentorrent.Piece.Allocation.{steps_from, block_begins, allocate_blocks, allocation_size, new}
use bentorrent.Piece.Allocation.Bounds.{
  IsMissingBlock, block_begins-IsBegin, allocate_blocks-All, allocate_blocks-capacity,
  requests_begin, allocate_blocks_complete,
}

-- The allocator's size of a piece is the torrent's.
allocation_size-eq-piece_len :
    (t : V1Torrent) (n size total p : ℕ)
    → IsWellFormed t n size total
    → allocation_size t p ≡ piece_len (allocate_torrent t) p
unfolding allocation_size piece_len
allocation_size-eq-piece_len t n size total p w =
    ground (arith, allocate_torrent_fields t n size total w)

piece_len-le :
    (t : V1Torrent) (n size total p : ℕ)
    → IsWellFormed t n size total
    → piece_len (allocate_torrent t) p ≤ size
unfolding piece_len
piece_len-le t n size total p w = ground (arith, allocate_torrent_fields t n size total w)

-- The block that holds byte `i`.
abbrev pub block_of : ℕ → ℕ
block_of i = i - i % piece_block_size

steps_from-contains :
    (count first i : ℕ)
    → first % piece_block_size ≡ 0
    → first ≤ i
    → i < first + count * piece_block_size
    → contains (block_of i) (steps_from count first) ≡ true
unfolding steps_from contains
steps_from-contains zero first i h k l = absurd (omega arith)
steps_from-contains (suc count) first i h k l =
    ground (arith, steps_from-contains count (first + piece_block_size) i)

block_begins-contains : (size i : ℕ) → i < size → contains (block_of i) (block_begins size) ≡ true
unfolding block_begins
block_begins-contains size i h = steps_from-contains _ 0 i (omega arith) (omega arith) (omega arith)

-- For a piece of a well formed torrent (piece size < 2^32) with a peer to ask, the requests are
-- for blocks of the piece that are missing, go to that peer and lie inside the piece, each is a
-- full block or ends the piece, and their number is what the capacity fell by. If capacity is
-- left, every byte of the piece lies in a block that was in progress or is requested now.
pub new_requests :
    (t : V1Torrent) (n size total p : ℕ) (peer : PeerId) (peers : List PeerId) (m : PieceToBlockMap)
    (capacity : ℕ)
    → IsWellFormed t n size total
    → size < u32_mod
    → let r = new p t (peer ∷ peers) m capacity in
      let len = piece_len (allocate_torrent t) p in
      (rs : List PeerRequestedPiece) × (r.0 ≡ some rs)
      × All (IsMissingBlock peer p len m) rs
      × (length rs + r.1 ≡ capacity)
      × (0 < r.1
          → (i : ℕ) → i < len
          → (is_some (contains_inprogress m p (block_of i)) || requests_begin (block_of i) rs)
            ≡ true)
unfolding new
new_requests t n size total p peer peers m capacity w h =
    let len = allocation_size t p in
    let made = allocate_blocks peer p len m (block_begins len) capacity in
    let fits : len < u32_mod =
      ground
        (arith, allocation_size-eq-piece_len t n size total p w, piece_len-le t n size total p w) in
    rw (← allocation_size-eq-piece_len t n size total p w) (
      made.0,
      refl,
      allocate_blocks-All peer p len m (block_begins len) capacity fits (block_begins-IsBegin len),
      allocate_blocks-capacity peer p len m (block_begins len) capacity,
      λ left i k.
          allocate_blocks_complete peer p len m (block_begins len) capacity (block_of i) fits
            (block_begins-IsBegin len) left (block_begins-contains len i k),
    )
