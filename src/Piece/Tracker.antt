-- ===== src/Piece/Tracker.antt =====
-- src/peer/state/piece.rs, `PieceBlockTracker`: which pieces are not started, in progress or completed.
pub mod Invariant
pub mod Steps
use bentorrent.Prelude.{
  ℕ, zero, suc, ◌+◌, ◌*◌, ◌^◌, Bool, Option, none, some, List, [], ◌∷◌, ◌++◌, length, is_empty,
  if◌then◌else◌, to_u32, sub_usize, map,
}
use bentorrent.Prelude.Eq.{nat_eq}
use bentorrent.Prelude.Sets.{insert, remove, from_list}
use bentorrent.Prelude.Maps.{Map}
use bentorrent.Torrent.{V1Torrent, V1Piece, PeerId, PeerRequestedPiece}
use bentorrent.Piece.Blocks
use bentorrent.Piece.Blocks.{PieceToBlockMap}
use bentorrent.Piece.Expiry
use bentorrent.Piece.Expiry.{InprogressPieceToBlockMap, empty_inprogress, insert_started}
use bentorrent.Piece.Allocation

pub record PieceBlockTracker : Type 0 where
  pub max_outstanding_requests : ℕ
  pub request_timeout : ℕ
  pub pieces_not_started : List ℕ
  pub piece_to_blocks_outstanding : InprogressPieceToBlockMap
  pub pieces_completed : List ℕ

abbrev pub started : PieceBlockTracker → PieceToBlockMap
started t = t.piece_to_blocks_outstanding.piece_to_blocks_started

abbrev with_started : PieceBlockTracker → PieceToBlockMap → PieceBlockTracker
with_started t m = record t {
  piece_to_blocks_outstanding = record {
    piece_to_blocks_started = m;
    expirations = t.piece_to_blocks_outstanding.expirations;
  };
}

-- `(0..n).map(|piece| piece as u32)`, counted from `first`.
unfoldable pub piece_ids : ℕ → ℕ → List ℕ
piece_ids zero first = []
piece_ids (suc n) first = to_u32 first ∷ piece_ids n (suc first)

-- `Duration::from_secs(10)`
abbrev pub ten_seconds : ℕ
ten_seconds = 10_000_000_000

unfoldable pub new : ℕ → List V1Piece → PieceBlockTracker
unfolding piece_ids
new max_outstanding_requests pieces = record {
  max_outstanding_requests = max_outstanding_requests;
  request_timeout = ten_seconds;
  pieces_not_started = from_list (piece_ids (length pieces) 0);
  piece_to_blocks_outstanding = empty_inprogress;
  pieces_completed = [];
}

-- Started pieces come first.
unfoldable pub get_incomplete_pieces : PieceBlockTracker → List ℕ
get_incomplete_pieces t = Blocks.pieces (started t) ++ t.pieces_not_started

unfoldable pub pieces_completed_len : PieceBlockTracker → ℕ
pieces_completed_len t = length t.pieces_completed

unfoldable pub downloading_requests_len : PieceBlockTracker → ℕ
downloading_requests_len t = Blocks.downloading_requests_len (started t)

unfoldable pub outstanding_pieces_len : PieceBlockTracker → ℕ
outstanding_pieces_len t = length (Blocks.pieces (started t))

unfoldable pub remove_request : PieceBlockTracker → PeerRequestedPiece → PieceBlockTracker × Bool
remove_request t req =
    let r = Blocks.remove_downloading_request (started t) req.index req.begin in
    (with_started t r.0, r.1)

unfoldable pub set_request_finished :
    PieceBlockTracker → ℕ → ℕ → PieceBlockTracker × Option (Unit {0})
set_request_finished t piece_id begin =
    let r = Blocks.set_request_finished (started t) piece_id begin in (with_started t r.0, r.1)

unfoldable pub set_piece_finished : PieceBlockTracker → ℕ → PieceBlockTracker
set_piece_finished t piece_id = record (with_started t (Blocks.remove_piece (started t) piece_id)) {
  pieces_completed = insert piece_id t.pieces_completed;
}

-- `now` is what `Instant::now()` reads.
unfoldable pub remove_expired : PieceBlockTracker → ℕ → PieceBlockTracker × List PeerRequestedPiece
remove_expired t now =
    let r = Expiry.remove_expired t.piece_to_blocks_outstanding now t.request_timeout in
    (record t { piece_to_blocks_outstanding = r.0 }, r.1)

unfoldable pub insert_all :
    InprogressPieceToBlockMap → ℕ → List PeerRequestedPiece → InprogressPieceToBlockMap
insert_all m now [] = m
insert_all m now (req ∷ reqs) = insert_all (insert_started m now req) now reqs

unfoldable pub start_requests :
    PieceBlockTracker → ℕ → ℕ → List PeerRequestedPiece → PieceBlockTracker
unfolding insert_all
start_requests t piece_id now reqs = record t {
  pieces_not_started =
      if is_empty reqs then t.pieces_not_started else remove piece_id t.pieces_not_started;
  piece_to_blocks_outstanding = insert_all t.piece_to_blocks_outstanding now reqs;
}

unfoldable pub assign_piece :
    PieceBlockTracker
    → V1Torrent
    → ℕ
    → List PeerId
    → ℕ
    → PieceBlockTracker × List PeerRequestedPiece
unfolding start_requests
assign_piece t torrent piece_id peer_ids now =
    let capacity = sub_usize t.max_outstanding_requests (downloading_requests_len t) in
    elim (Allocation.new piece_id torrent peer_ids (started t) capacity).0 [
      | none ↦ (t, [])
      | some reqs ↦ (start_requests t piece_id now reqs, reqs)
    ]

-- The pieces in the map's order; `now p` is the time read when piece `p` is assigned.
unfoldable pub generate_assignments :
    PieceBlockTracker
    → V1Torrent
    → Map ℕ (List PeerId)
    → (ℕ → ℕ)
    → PieceBlockTracker × List PeerRequestedPiece
generate_assignments t torrent [] now = (t, [])
generate_assignments t torrent ((piece_id, peers) ∷ available) now =
    let assigned = assign_piece t torrent piece_id peers (now piece_id) in
    let rest = generate_assignments assigned.0 torrent available now in
    (rest.0, assigned.1 ++ rest.1)
