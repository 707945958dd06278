-- ===== src/Piece/Allocation.antt =====
-- src/peer/state/piece.rs, `PieceBlockAllocation::new`: the requests for the missing blocks of a piece.
pub mod Bounds
pub mod Whole
use bentorrent.Prelude.{
  ℕ, zero, suc, ◌+◌, ◌-◌, ◌/◌, ◌==◌, ltb, if◌then◌else◌, Bool, Option, none, some, List, [], ◌∷◌,
  length, to_u32, sub_u32,
}
use bentorrent.Prelude.Maps.{is_some}
use bentorrent.Torrent.{
  V1Torrent, PeerId, PeerRequestedPiece, TorrentAllocation, allocate_torrent, piece_block_size,
}
use bentorrent.Piece.Blocks.{PieceToBlockMap, contains_inprogress}

-- `(0..size).step_by(PIECE_BLOCK_SIZE)`: `count` values from `begin` on.
unfoldable pub steps_from : ℕ → ℕ → List ℕ
steps_from zero begin = []
steps_from (suc count) begin = begin ∷ steps_from count (begin + piece_block_size)

unfoldable pub block_begins : ℕ → List ℕ
unfolding steps_from
block_begins size = steps_from ((size + (piece_block_size - 1)) / piece_block_size) 0

-- A block is cut off at the end of the piece.
unfoldable pub block_length : ℕ → ℕ → ℕ
block_length piece_size begin =
    if ltb piece_size (begin + piece_block_size) then piece_size - begin else piece_block_size

unfoldable pub block_request : PeerId → ℕ → ℕ → ℕ → PeerRequestedPiece
unfolding block_length
block_request peer_id piece_id piece_size begin = record {
  peer_id = peer_id;
  index = piece_id;
  begin = to_u32 begin;
  length = to_u32 (block_length piece_size begin);
}

-- The loop over the begins, with the capacity that is left.
unfoldable pub allocate_blocks :
    PeerId → ℕ → ℕ → PieceToBlockMap → List ℕ → ℕ → List PeerRequestedPiece × ℕ
unfolding block_request
allocate_blocks peer_id piece_id piece_size requested [] capacity = ([], capacity)
allocate_blocks peer_id piece_id piece_size requested (begin ∷ begins) capacity =
    let skipped = allocate_blocks peer_id piece_id piece_size requested begins capacity in
    let more = allocate_blocks peer_id piece_id piece_size requested begins (capacity - 1) in
    if capacity == 0
    then ([], capacity)
    else if is_some (contains_inprogress requested piece_id (to_u32 begin))
    then skipped
    else (block_request peer_id piece_id piece_size begin ∷ more.0, more.1)

unfoldable pub allocation_size : V1Torrent → ℕ → ℕ
allocation_size torrent piece_id =
    let allocation = allocate_torrent torrent in
    if piece_id == sub_u32 (to_u32 (length torrent.info.pieces)) 1
    then allocation.last_piece_size
    else allocation.max_piece_size

-- The first peer of the set serves the whole piece; with no peer there is no allocation.
unfoldable pub new :
    ℕ → V1Torrent → List PeerId → PieceToBlockMap → ℕ → Option (List PeerRequestedPiece) × ℕ
unfolding allocate_blocks block_begins allocation_size
new piece_id torrent [] requested capacity = (none, capacity)
new piece_id torrent (peer_id ∷ peers) requested capacity =
    let size = allocation_size torrent piece_id in
    let made = allocate_blocks peer_id piece_id size requested (block_begins size) capacity in
    (some made.0, made.1)
