-- ===== src/Piece/Tracker/Steps.antt =====
-- src/peer/state/piece.rs.
-- The tracker as a state machine: its operations in any order, from a new tracker.
use bentorrent.Prelude.{ℕ, ◌≤◌, ◌<◌, List, [], ◌∷◌, length, usize_mod, u32_mod}
use bentorrent.Prelude.Eq.{nat_eq}
use bentorrent.Prelude.Maps.{Map}
use bentorrent.Torrent.{V1Torrent, V1Piece, PeerId, PeerRequestedPiece}
use bentorrent.Piece.Tracker.{
  PieceBlockTracker, new, remove_request, set_request_finished, set_piece_finished, remove_expired,
  generate_assignments,
}
use bentorrent.Piece.Tracker.Invariant.{
  Inv, new-Inv, set_request_finished-Inv, remove_request-Inv, set_piece_finished-Inv,
  remove_expired-Inv, generate_assignments-Inv,
}

-- What the processor does to its tracker.
pub data Op : Type 0 where
  assigns : V1Torrent → Map ℕ (List PeerId) → (ℕ → ℕ) → Op
  finishes_request : ℕ → ℕ → Op
  finishes_piece : ℕ → Op
  drops : PeerRequestedPiece → Op
  expires : ℕ → Op

unfoldable pub step : PieceBlockTracker → Op → PieceBlockTracker
step t (assigns torrent available now) = (generate_assignments t torrent available now).0
step t (finishes_request p b) = (set_request_finished t p b).0
step t (finishes_piece p) = set_piece_finished t p
step t (drops req) = (remove_request t req).0
step t (expires now) = (remove_expired t now).0

unfoldable pub run : PieceBlockTracker → List Op → PieceBlockTracker
unfolding step
run t [] = t
run t (op ∷ ops) = run (step t op) ops

-- Each operation of the tracker keeps its invariant: the blocks in flight stay within
-- max_outstanding_requests, none is in flight and done at once, and no piece is lost.
pub step-Inv : (n : ℕ) (t : PieceBlockTracker) (op : Op) → Inv n t → Inv n (step t op)
unfolding step
step-Inv n t (assigns torrent available now) v =
    generate_assignments-Inv n now torrent available t v
step-Inv n t (finishes_request p b) v = set_request_finished-Inv n t v p b
step-Inv n t (finishes_piece p) v = set_piece_finished-Inv n t v p
step-Inv n t (drops req) v = remove_request-Inv n t v req
step-Inv n t (expires now) v = remove_expired-Inv n t v now

run-Inv : (n : ℕ) (ops : List Op) (t : PieceBlockTracker) → Inv n t → Inv n (run t ops)
unfolding run
run-Inv n [] t v = v
run-Inv n (op ∷ ops) t v = run-Inv n ops (step t op) (step-Inv n t op v)

-- A new tracker of at most 2^32 pieces, after any sequence of assignments, finished requests and
-- pieces, dropped requests and expiries: at most max_outstanding_requests blocks are in flight,
-- none of them is done as well, and every piece is not started, in progress or completed.
pub run-new-Inv :
    (max : ℕ) (ps : List V1Piece) (ops : List Op)
    → max < usize_mod
    → length ps ≤ u32_mod
    → Inv (length ps) (run (new max ps) ops)
run-new-Inv max ps ops h k = run-Inv (length ps) ops (new max ps) (new-Inv max ps h k)
