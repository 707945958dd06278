-- ===== src/Examples/Requests.antt =====
-- src/peer/state/piece.rs at concrete inputs.
use bentorrent.Prelude.{ℕ, ◌≡◌, arith, true, some, List, [], ◌∷◌, ◌+◌, ◌<◌, ◌||◌, All, length}
use bentorrent.Torrent.{PeerRequestedPiece, allocate_torrent, piece_len}
use bentorrent.Piece.Blocks.{PieceToBlockMap, contains_inprogress, empty_blocks}
use bentorrent.Piece.Expiry.{remove_expired}
use bentorrent.Piece.Expiry.Removal.{Expires, remove_expired-Expires}
use bentorrent.Piece.Allocation.{new}
use bentorrent.Piece.Allocation.Bounds.{IsMissingBlock, requests_begin}
use bentorrent.Piece.Allocation.Whole.{new_requests, block_of}
use bentorrent.Piece.Tracker
use bentorrent.Piece.Tracker.Invariant.{Inv}
use bentorrent.Piece.Tracker.Steps.{
  Op, run, run-new-Inv, assigns, finishes_request, finishes_piece, drops, expires,
}
use bentorrent.Prelude.Maps.{is_some}
use bentorrent.Examples.Storage.{short_last, short_last-IsWellFormed, a_piece}

abbrev request : PeerRequestedPiece
request = record { peer_id = 1 ∷ []; index = 1; begin = 0; length = 16_384 }

abbrev one_block : PieceToBlockMap
one_block = record {
  downloading = (1, ((0, record { piece_request = request }) ∷ [])) ∷ [];
  done = [];
}

-- A request of time 3 in the queue, ten units later.
remove_expired-Expires_example :
    Expires 13 10 one_block ((3, record { piece_id = 1; block_begin = 0 }) ∷ []) (
      remove_expired
        (record {
          piece_to_blocks_started = one_block;
          expirations = (3, record { piece_id = 1; block_begin = 0 }) ∷ [];
        })
        13
        10)
remove_expired-Expires_example =
    remove_expired-Expires
      (record {
        piece_to_blocks_started = one_block;
        expirations = (3, record { piece_id = 1; block_begin = 0 }) ∷ [];
      })
      13 10

new_requests_example :
    let r = new 1 short_last ((1 ∷ []) ∷ []) empty_blocks 8 in
    let len = piece_len (allocate_torrent short_last) 1 in
    (rs : List PeerRequestedPiece) × (r.0 ≡ some rs)
    × All (IsMissingBlock (1 ∷ []) 1 len empty_blocks) rs
    × (length rs + r.1 ≡ 8)
    × (0 < r.1
        → (i : ℕ) → i < len
        → (is_some (contains_inprogress empty_blocks 1 (block_of i))
            || requests_begin (block_of i) rs)
          ≡ true)
new_requests_example =
    new_requests short_last 2 20_000 30_000 1 (1 ∷ []) [] empty_blocks 8 short_last-IsWellFormed
      (omega arith)

abbrev ops : List Op
ops =
    assigns short_last ((0, ((1 ∷ []) ∷ [])) ∷ (1, ((1 ∷ []) ∷ [])) ∷ []) (λ p. p)
    ∷ finishes_request 0 0
    ∷ drops request
    ∷ finishes_piece 0
    ∷ expires 20_000_000_000
    ∷ []

run-new-Inv_example : Inv 2 (run (Tracker.new 3 (a_piece ∷ a_piece ∷ [])) ops)
run-new-Inv_example = run-new-Inv 3 (a_piece ∷ a_piece ∷ []) ops (omega arith) (omega arith)
