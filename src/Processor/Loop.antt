-- ===== src/Processor/Loop.antt =====
-- src/peer/state/mod.rs, `start`: the branches of the main loop, as steps of the processor.
use bentorrent.Prelude.{none, some, map, is_empty, if◌then◌else◌, ℕ, List, [], ◌∷◌, ◌++◌}
use bentorrent.Prelude.Eq.{nat_eq, list_eq}
use bentorrent.Torrent.{PeerId}
use bentorrent.Io.{TorrentIo}
use bentorrent.Handler.{IoHandler}
use bentorrent.Piece.Tracker.{remove_expired}
use bentorrent.State
use bentorrent.Prelude.Maps
use bentorrent.Protocol.{Messages}
use bentorrent.Processor.{
  init_connection, InnerTorrentState, InternalStateMessage, wakeup, piece_complete,
  peer_requested_piece, Sender, PeerToSender, Sent, prune_closed_tx, announce_piece, queue_requests,
  compute_requests_for_download, dequeue_requests, compute_unchoke,
}
use bentorrent.Processor.Handling.{with_state, handle_msg}

pub record Processor (S : Type 0) : Type 0 where
  pub state : InnerTorrentState
  pub io : IoHandler S
  pub peer_to_tx : PeerToSender

-- A new peer, a message of a peer, the end of a peer's task, a wake-up, and the timer. `now p` is the
-- time read when piece `p` is assigned.
pub data Event : Type 0 where
  accepts : PeerId → Sender → Event
  receives : PeerId → Sender → Messages → Event
  closes : PeerId → Event
  wakes : InternalStateMessage → (now : ℕ → ℕ) → Event
  ticks : (now : ℕ) → Event

abbrev pub on_internal :
    InnerTorrentState → PeerToSender → InternalStateMessage → InnerTorrentState × Sent
on_internal s peer_to_tx wakeup = (s, [])
on_internal s peer_to_tx (piece_complete piece_id) = (s, announce_piece peer_to_tx piece_id)
on_internal s peer_to_tx (peer_requested_piece request) = (queue_requests s request, [])

module _ {S : Type 0} (io : TorrentIo S) where
  unfoldable pub on_wakeup : Processor S → InternalStateMessage → (ℕ → ℕ) → Processor S × Sent
  on_wakeup p msg now =
      let peer_to_tx = prune_closed_tx p.peer_to_tx in
      let internal = on_internal p.state peer_to_tx msg in
      let asked = compute_requests_for_download internal.0 peer_to_tx now in
      let served = dequeue_requests io asked.0 peer_to_tx p.io in
      (
        record { state = served.0; io = served.1.0; peer_to_tx = peer_to_tx },
        internal.1 ++ (asked.1 ++ served.1.1),
      )

  -- A peer that could be sent the first messages is entered. A panic of the bit field's writer would
  -- end the loop; the writer does not panic.
  unfoldable pub on_accept : Processor S → PeerId → Sender → Processor S × Sent
  on_accept p peer_id tx = elim (init_connection p.state tx) [
    | none ↦ (p, [])
    | some (msgs, sent) ↦
        if sent
        then (
          record p { peer_to_tx = Maps.insert peer_id tx p.peer_to_tx },
          map (λ msg. (peer_id, msg)) msgs,
        )
        else (p, [])
  ]

  -- With the wake-ups that the expired requests cause.
  unfoldable pub on_tick : Processor S → ℕ → Processor S × Sent × List InternalStateMessage
  on_tick p now =
      let unchoked = compute_unchoke p.state p.peer_to_tx in
      let t = unchoked.0.torrent_state in
      let expired = remove_expired t.piece_block_tracking now in
      (
        record p { state = with_state unchoked.0 (record t { piece_block_tracking = expired.0 }) },
        unchoked.1,
        if is_empty expired.1 then [] else wakeup ∷ [],
      )

  unfoldable pub on_close : Processor S → PeerId → Processor S
  on_close p peer_id = record p {
    state = with_state p.state (State.remove_peer p.state.torrent_state peer_id);
    peer_to_tx = Maps.remove peer_id p.peer_to_tx;
  }

  unfoldable pub step : Processor S → Event → Processor S
  unfolding on_wakeup on_tick on_close on_accept
  step p (receives peer_id tx msg) =
      let r = handle_msg io p.state p.io peer_id tx msg in record p { state = r.state; io = r.io }
  step p (accepts peer_id tx) = (on_accept p peer_id tx).0
  step p (closes peer_id) = on_close p peer_id
  step p (wakes msg now) = (on_wakeup p msg now).0
  step p (ticks now) = (on_tick p now).0

  unfoldable pub run : Processor S → List Event → Processor S
  unfolding step
  run p [] = p
  run p (e ∷ es) = run (step p e) es
