-- ===== src/Processor/Valid.antt =====
-- src/peer/state/mod.rs: what holds of the shared state, and that the operations on it keep it.
use bentorrent.Prelude.{ℕ, List, [], ◌∷◌, Bool-cases, inl, inr}
use bentorrent.Prelude.Eq.{nat_eq, list_eq}
use bentorrent.Torrent.{PeerId, PeerRequestedPiece}
use bentorrent.Piece.Tracker.{PieceBlockTracker}
use bentorrent.Piece.Tracker.Invariant.{Inv}
use bentorrent.Piece.Tracker.Steps.{step-Inv, drops}
use bentorrent.Peers.Mirror.{IsMirrored}
use bentorrent.Protocol.{FlagMessages, choke, unchoke, interested, not_interested}
use bentorrent.State.Choking.{add_peer_id-rest}
use bentorrent.Piece.Tracker.{remove_request, generate_assignments}
use bentorrent.State.{get_internal_peer_state}
use bentorrent.Processor.Loop.{on_internal}
use bentorrent.Processor.{wakeup, wakeup}
use bentorrent.Piece.Tracker.Steps.{assigns}
use bentorrent.Processor.{
  is_some, peer_requested_piece, piece_complete, piece_id_to_peers, InternalStateMessage,
  InnerTorrentState, queue_requests, compute_requests_for_download, dispatch, can_send,
}
use bentorrent.Piece.Tracker.Steps.{step}
use bentorrent.State.{
  add_peer_id, TorrentState, set_peer_choked_us, set_peers_interested_in_us, add_pieces_for_peer,
}
use bentorrent.State.Interest.{add_pieces_for_peer-Announces}
use bentorrent.State.Leaving.{remove_peer-Forgets}
use bentorrent.State
use bentorrent.Processor.{PeerToSender}
use bentorrent.Processor.Handling.{set_flag}

-- The tracker keeps its invariant for `n` pieces, and the peer-piece map its two directions.
pub record IsValid (n : ℕ) (t : TorrentState) : Type 0 where
  pub tracker : Inv n t.piece_block_tracking
  pub mirrored : IsMirrored t.block_peer_map

pub IsValid-of_tracker :
    (n : ℕ) (t : TorrentState) (u : PieceBlockTracker)
    → Inv n u
    → IsValid n t
    → IsValid n (record t { piece_block_tracking = u })
IsValid-of_tracker n t u i v = record { tracker = i; mirrored = v.mirrored }

module _ (n : ℕ) (t : TorrentState) (v : IsValid n t) where
  add_peer_id-IsValid : (p : PeerId) → IsValid n (add_peer_id t p)
  add_peer_id-IsValid p =
      let rest = add_peer_id-rest t p in
      record { tracker = rw rest.3 v.tracker; mirrored = rw rest.2 v.mirrored }

  pub set_flag-IsValid : (p : PeerId) (f : FlagMessages) → IsValid n (set_flag t p f)
  unfolding set_flag set_peer_choked_us set_peers_interested_in_us
  set_flag-IsValid p choke = record {
    tracker = (add_peer_id-IsValid p).tracker;
    mirrored = (add_peer_id-IsValid p).mirrored;
  }
  set_flag-IsValid p unchoke = record {
    tracker = (add_peer_id-IsValid p).tracker;
    mirrored = (add_peer_id-IsValid p).mirrored;
  }
  set_flag-IsValid p interested = record {
    tracker = (add_peer_id-IsValid p).tracker;
    mirrored = (add_peer_id-IsValid p).mirrored;
  }
  set_flag-IsValid p not_interested = record {
    tracker = (add_peer_id-IsValid p).tracker;
    mirrored = (add_peer_id-IsValid p).mirrored;
  }

  pub add_pieces_for_peer-IsValid :
      (p : PeerId) (xs : List ℕ) → IsValid n (add_pieces_for_peer t p xs).0
  add_pieces_for_peer-IsValid p xs =
      let a = add_pieces_for_peer-Announces t p xs in
      record { tracker = rw a.same_tracking v.tracker; mirrored = a.mirrored v.mirrored }

  pub remove_peer-IsValid : (p : PeerId) → IsValid n (State.remove_peer t p)
  remove_peer-IsValid p =
      let f = remove_peer-Forgets t p v.mirrored in
      record { tracker = rw f.same_tracking v.tracker; mirrored = f.mirrored }

dispatch-IsValid :
    (n : ℕ) (peer_to_tx : PeerToSender) (requests : List PeerRequestedPiece) (t : TorrentState)
    → IsValid n t
    → IsValid n (dispatch t peer_to_tx requests).0
unfolding dispatch
dispatch-IsValid n peer_to_tx [] t v = v
dispatch-IsValid n peer_to_tx (r ∷ rs) t v =
    let u = (remove_request t.piece_block_tracking r).0 in
    let dropped : Inv n u = unfold step in step-Inv n t.piece_block_tracking (drops r) v.tracker in
    elim (Bool-cases (can_send peer_to_tx r.peer_id)) [
      | inl sent ↦ rw (sent, dispatch) (dispatch-IsValid n peer_to_tx rs t v)
      | inr unsent ↦
          rw (unsent, dispatch)
            (dispatch-IsValid n peer_to_tx rs (record t { piece_block_tracking = u })
              (IsValid-of_tracker n t u dropped v))
    ]

pub compute_requests_for_download-IsValid :
    (n : ℕ) (s : InnerTorrentState) (peer_to_tx : PeerToSender) (now : ℕ → ℕ)
    → IsValid n s.torrent_state
    → IsValid n (compute_requests_for_download s peer_to_tx now).0.torrent_state
unfolding compute_requests_for_download
compute_requests_for_download-IsValid n s peer_to_tx now v =
    let t = s.torrent_state in
    let available = piece_id_to_peers t in
    let assigned = generate_assignments t.piece_block_tracking s.torrent available now in
    let kept : Inv n assigned.0 =
      unfold step in
      step-Inv n t.piece_block_tracking (assigns s.torrent available now) v.tracker in
    dispatch-IsValid n peer_to_tx assigned.1 (record t { piece_block_tracking = assigned.0 })
      (IsValid-of_tracker n t assigned.0 kept v)

pub on_internal-IsValid :
    (n : ℕ) (s : InnerTorrentState) (peer_to_tx : PeerToSender) (msg : InternalStateMessage)
    → IsValid n s.torrent_state
    → IsValid n (on_internal s peer_to_tx msg).0.torrent_state
unfolding queue_requests
on_internal-IsValid n s peer_to_tx wakeup v = v
on_internal-IsValid n s peer_to_tx (piece_complete piece_id) v = v
on_internal-IsValid n s peer_to_tx (peer_requested_piece r) v =
    elim (Bool-cases (is_some (get_internal_peer_state s.torrent_state r.peer_id))) [
      | inl known ↦
          rw (known, queue_requests) (record { tracker = v.tracker; mirrored = v.mirrored })
      | inr unknown ↦ rw (unknown, queue_requests) v
    ]
