-- ===== src/Processor/Validity.antt =====
-- src/peer/state/mod.rs, `TorrentProcessor`: what holds of the shared state whatever the peers send
-- and in whatever order the tasks run.
use bentorrent.Prelude.{
  ◌≡◌, refl, true, false, Option-cases, inl, inr, ◌≤◌, length, some, ◌<◌, arith, ℕ, List, [], ◌∷◌,
  Bool-cases,
}
use bentorrent.Prelude.Eq.{nat_eq, list_eq}
use bentorrent.Torrent.{PeerId}
use bentorrent.Piece.Tracker.Invariant.{Inv, new-Inv}
use bentorrent.Piece.Tracker.Steps.{step-Inv}
use bentorrent.Protocol.{Messages}
use bentorrent.State.{get_internal_peer_state}
use bentorrent.Handler
use bentorrent.Outcome.{Outcome-cases}
use bentorrent.Processor.Loop.{
  accepts, on_accept, on_internal, Processor, Event, receives, closes, wakes, ticks, on_wakeup,
  on_tick, on_close,
}
use bentorrent.Protocol.{keep_alive, flag, have, bit_field, request, piece, cancel}
use bentorrent.Piece.Tracker.{set_piece_finished, set_request_finished, remove_expired}
use bentorrent.Processor.Unchoking.{compute_unchoke_idle}
use bentorrent.Processor.{init_connection, dequeue_requests, prune_closed_tx}
use bentorrent.Processor.Handling.{handle_msg, pieces_present}
use bentorrent.Torrent.{V1Torrent}
use bentorrent.Prelude.{usize_mod, u32_mod}
use bentorrent.Peers.Mirror.{empty-IsMirrored}
use bentorrent.Processor.Loop
use bentorrent.Piece.Tracker.Steps.{expires, finishes_piece, finishes_request}
use bentorrent.Processor.{
  Bytes, Sender, InternalStateMessage, IoHandler, InnerTorrentState, TorrentIo,
}
use bentorrent.Piece.Tracker.Steps.{step}
use bentorrent.State.{
  add_peer_id, TorrentState, set_peer_choked_us, set_peers_interested_in_us, add_pieces_for_peer,
}
use bentorrent.State
use bentorrent.Processor.Handling.{handle_piece, handle_pieces, handle_request}
use bentorrent.Processor.Valid.{
  IsValid, IsValid-of_tracker, set_flag-IsValid, add_pieces_for_peer-IsValid, remove_peer-IsValid,
  compute_requests_for_download-IsValid, on_internal-IsValid,
}

module _ {S : Type 0} (io : TorrentIo S) (n : ℕ) where
  handle_pieces-IsValid :
      (s : InnerTorrentState) (h : IoHandler S) (p : PeerId) (tx : Sender) (xs : List ℕ)
      → IsValid n s.torrent_state
      → IsValid n (handle_pieces io s h p tx xs).state.torrent_state
  unfolding handle_pieces
  handle_pieces-IsValid s h p tx xs v =
      let added = add_pieces_for_peer-IsValid n s.torrent_state v p xs in
      elim (Option-cases (add_pieces_for_peer s.torrent_state p xs).1) [
        | inl e ↦ rw (e, handle_pieces) added
        | inr (interest, e) ↦ elim (Bool-cases tx.is_closed) [
          | inl closed ↦ rw (e, handle_pieces, closed) added
          | inr open_ ↦ rw (e, handle_pieces, open_) added
        ]
      ]

  handle_request-IsValid :
      (s : InnerTorrentState) (h : IoHandler S) (p : PeerId) (i b len : ℕ)
      → (handle_request io s h p i b len).state ≡ s
  unfolding handle_request
  handle_request-IsValid s h p i b len = ground arith

  handle_piece-IsValid :
      (s : InnerTorrentState) (h : IoHandler S) (i b : ℕ) (block : Bytes)
      → IsValid n s.torrent_state
      → IsValid n (handle_piece io s h i b block).state.torrent_state
  unfolding handle_piece
  handle_piece-IsValid s h i b block v =
      let t = s.torrent_state in
      let u = t.piece_block_tracking in
      let piece_done : Inv n (set_piece_finished u i) =
        unfold step in step-Inv n u (finishes_piece i) v.tracker in
      let block_done : Inv n (set_request_finished u i b).0 =
        unfold step in step-Inv n u (finishes_request i b) v.tracker in
      elim (Outcome-cases (Handler.write io h i b block).1) [
        | inl (finished, e) ↦ elim (Bool-cases finished) [
          | inl f ↦
              rw (e, handle_piece, f) (IsValid-of_tracker n t (set_piece_finished u i) piece_done v)
          | inr f ↦
              rw (e, handle_piece, f)
                (IsValid-of_tracker n t (set_request_finished u i b).0 block_done v)
        ]
        | inr (inl (x, e)) ↦ rw (e, handle_piece) v
        | inr (inr e) ↦ rw (e, handle_piece) v
      ]

  -- Every message of a peer keeps the shared state valid.
  handle_msg-IsValid :
      (s : InnerTorrentState) (h : IoHandler S) (p : PeerId) (tx : Sender) (msg : Messages)
      → IsValid n s.torrent_state
      → IsValid n (handle_msg io s h p tx msg).state.torrent_state
  unfolding handle_msg
  handle_msg-IsValid s h p tx keep_alive v = v
  handle_msg-IsValid s h p tx (flag f) v = set_flag-IsValid n s.torrent_state v p f
  handle_msg-IsValid s h p tx (have x) v = handle_pieces-IsValid s h p tx (x ∷ []) v
  handle_msg-IsValid s h p tx (bit_field bitfield) v =
      handle_pieces-IsValid s h p tx (pieces_present bitfield) v
  handle_msg-IsValid s h p tx (request i b len) v = rw (handle_request-IsValid s h p i b len) v
  handle_msg-IsValid s h p tx (piece i b block) v = handle_piece-IsValid s h i b block v
  handle_msg-IsValid s h p tx (cancel i b len) v = v

  on_wakeup-IsValid :
      (p : Processor S) (msg : InternalStateMessage) (now : ℕ → ℕ)
      → IsValid n p.state.torrent_state
      → IsValid n (on_wakeup io p msg now).0.state.torrent_state
  unfolding on_wakeup dequeue_requests
  on_wakeup-IsValid p msg now v =
      let peer_to_tx = prune_closed_tx p.peer_to_tx in
      let internal = on_internal p.state peer_to_tx msg in
      let asked =
        compute_requests_for_download-IsValid n internal.0 peer_to_tx now
          (on_internal-IsValid n p.state peer_to_tx msg v) in
      record { tracker = asked.tracker; mirrored = asked.mirrored }

  on_tick-IsValid :
      (p : Processor S) (now : ℕ)
      → IsValid n p.state.torrent_state
      → IsValid n (on_tick io p now).0.state.torrent_state
  unfolding on_tick
  on_tick-IsValid p now v =
      let u = p.state.torrent_state.piece_block_tracking in
      let kept : Inv n (remove_expired u now).0 =
        unfold step in step-Inv n u (expires now) v.tracker in
      rw (compute_unchoke_idle p.state p.peer_to_tx, on_tick)
        (IsValid-of_tracker n p.state.torrent_state (remove_expired u now).0 kept v)

  on_accept-state :
      (p : Processor S) (peer_id : PeerId) (tx : Sender)
      → (on_accept io p peer_id tx).0.state ≡ p.state
  unfolding on_accept
  on_accept-state p peer_id tx = elim (Option-cases (init_connection p.state tx)) [
    | inl e ↦ rw (e, on_accept) refl
    | inr ((msgs, true), e) ↦ rw (e, on_accept) refl
    | inr ((msgs, false), e) ↦ rw (e, on_accept) refl
  ]

  -- Each event of the main loop keeps the shared state valid: the tracker's invariant and the two
  -- directions of the peer-piece map.
  pub step-IsValid :
      (p : Processor S) (e : Event)
      → IsValid n p.state.torrent_state
      → IsValid n (Loop.step io p e).state.torrent_state
  unfolding Loop.step on_close
  step-IsValid p (receives peer_id tx msg) v = handle_msg-IsValid p.state p.io peer_id tx msg v
  step-IsValid p (accepts peer_id tx) v = rw (on_accept-state p peer_id tx) v
  step-IsValid p (closes peer_id) v = remove_peer-IsValid n p.state.torrent_state v peer_id
  step-IsValid p (wakes msg now) v = on_wakeup-IsValid p msg now v
  step-IsValid p (ticks now) v = on_tick-IsValid p now v

  run-IsValid :
      (es : List Event) (p : Processor S)
      → IsValid n p.state.torrent_state
      → IsValid n (Loop.run io p es).state.torrent_state
  unfolding Loop.run
  run-IsValid [] p v = v
  run-IsValid (e ∷ es) p v = run-IsValid es (Loop.step io p e) (step-IsValid p e v)

-- The processor before its first peer.
abbrev pub start : {S : Type 0} → V1Torrent → ℕ → S → Processor S
start torrent max_outstanding_requests store = record {
  state = record {
    torrent = torrent;
    torrent_state = State.new torrent.info.pieces max_outstanding_requests;
  };
  io = record { store = some store };
  peer_to_tx = [];
}

-- From a new processor for a torrent of at most 2^32 pieces, whatever the peers send, whenever
-- their tasks end and the timer ticks, and whatever the store answers: at most
-- max_outstanding_requests blocks are in flight, none of them is done as well, every piece is not
-- started, in progress or completed, and the two directions of the peer-piece map agree.
pub run-start-IsValid :
    {S : Type 0} (io : TorrentIo S) (torrent : V1Torrent) (max : ℕ) (store : S) (es : List Event)
    → max < usize_mod
    → length torrent.info.pieces ≤ u32_mod
    → IsValid
        (length torrent.info.pieces)
        (Loop.run io (start torrent max store) es).state.torrent_state
unfolding State.new
run-start-IsValid io torrent max store es h k =
    run-IsValid io (length torrent.info.pieces) es (start torrent max store)
      (record { tracker = new-Inv max torrent.info.pieces h k; mirrored = empty-IsMirrored })
