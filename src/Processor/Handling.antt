-- ===== src/Processor/Handling.antt =====
-- src/peer/state/mod.rs, `inner_handle_peer_msgs`: what each message of a peer does. The main loop
-- holds the receiver of the wake-ups, so sending one succeeds while it runs.
use bentorrent.Prelude.{
  ℕ, zero, suc, ◌*◌, if◌then◌else◌, Bool, true, false, none, some, List, [], ◌∷◌, length, to_u32,
}
use bentorrent.Prelude.Eq.{nat_eq, list_eq}
use bentorrent.Outcome.{ok, err, panic}
use bentorrent.Torrent.{Bytes, PeerId}
use bentorrent.Io.{TorrentIo, PeerError}
use bentorrent.Handler
use bentorrent.Handler.{IoHandler}
use bentorrent.BitField.{BitFieldReaderIter, iter_of, next}
use bentorrent.Piece.Tracker.{set_piece_finished, set_request_finished}
use bentorrent.Protocol.{
  Messages, keep_alive, flag, have, bit_field, request, piece, cancel, FlagMessages, choke, unchoke,
  interested, not_interested, interest_msg,
}
use bentorrent.State.{
  TorrentState, set_peer_choked_us, set_peers_interested_in_us, add_pieces_for_peer,
  get_internal_peer_state,
}
use bentorrent.Processor.{
  InnerTorrentState, InternalStateMessage, wakeup, piece_complete, peer_requested_piece, Sender,
}

-- How the loop over the messages goes on: to the next one, or out, with an error or without.
pub data Flow : Type 0 where
  continues stops : Flow
  fails : PeerError → Flow

-- What the handler of one message leaves and sends.
pub record Handled (S : Type 0) : Type 0 where
  pub state : InnerTorrentState
  pub io : IoHandler S
  pub sent : List Messages
  pub woken : List InternalStateMessage
  pub flow : Flow

abbrev pub with_state : InnerTorrentState → TorrentState → InnerTorrentState
with_state s t = record s { torrent_state = t }

unfoldable pub set_flag : TorrentState → PeerId → FlagMessages → TorrentState
set_flag t peer_id choke = set_peer_choked_us t peer_id true
set_flag t peer_id unchoke = set_peer_choked_us t peer_id false
set_flag t peer_id interested = set_peers_interested_in_us t peer_id true
set_flag t peer_id not_interested = set_peers_interested_in_us t peer_id false

-- `enumerate`, `filter` and `map` over the bits, of which there are eight for each byte.
unfoldable pub collect_pieces : ℕ → BitFieldReaderIter → List ℕ
collect_pieces zero it = []
collect_pieces (suc n) it =
    let step = next it in
    let rest = collect_pieces n step.0 in
    elim step.1 [ none ↦ [] | some was_set ↦ if was_set then to_u32 it.pos ∷ rest else rest ]

unfoldable pub pieces_present : Bytes → List ℕ
unfolding collect_pieces
pieces_present bitfield =
    collect_pieces (8 * length bitfield) (iter_of (record { bytes = bitfield }))

module _ {S : Type 0} (io : TorrentIo S) where
  -- The pieces of the peer are entered; a change of our interest is sent first.
  unfoldable pub handle_pieces :
      InnerTorrentState → IoHandler S → PeerId → Sender → List ℕ → Handled S
  handle_pieces s h peer_id tx pieces =
      let added = add_pieces_for_peer s.torrent_state peer_id pieces in
      let s' = with_state s added.0 in
      elim added.1 [
        | none ↦ record { state = s'; io = h; sent = []; woken = wakeup ∷ []; flow = continues }
        | some interest ↦
            if tx.is_closed
            then record { state = s'; io = h; sent = []; woken = []; flow = stops }
            else record {
              state = s';
              io = h;
              sent = interest_msg interest ∷ [];
              woken = wakeup ∷ [];
              flow = continues;
            }
      ]

  -- A request is passed on unless we choke the peer, or do not know it.
  unfoldable pub handle_request :
      InnerTorrentState → IoHandler S → PeerId → (index begin len : ℕ) → Handled S
  handle_request s h peer_id index begin len =
      let choked : Bool = elim (get_internal_peer_state s.torrent_state peer_id) [
        | none ↦ true
        | some peer_state ↦ peer_state.choked
      ] in
      if choked
      then record { state = s; io = h; sent = []; woken = []; flow = continues }
      else record {
        state = s;
        io = h;
        sent = [];
        woken =
            peer_requested_piece
              (record { peer_id = peer_id; index = index; begin = begin; length = len })
            ∷ [];
        flow = continues;
      }

  -- A block is written; what is tracked depends on whether it completes its piece.
  unfoldable pub handle_piece :
      InnerTorrentState → IoHandler S → (index begin : ℕ) (block : Bytes) → Handled S
  handle_piece s h index begin block =
      let t = s.torrent_state in
      let r = Handler.write io h index begin block in
      elim r.1 [
        | ok finished ↦
            if finished
            then record {
              state = with_state s (record t {
                piece_block_tracking = set_piece_finished t.piece_block_tracking index;
              });
              io = r.0;
              sent = [];
              woken = piece_complete index ∷ [];
              flow = continues;
            }
            else record {
              state = with_state s (record t {
                piece_block_tracking = (set_request_finished t.piece_block_tracking index begin).0;
              });
              io = r.0;
              sent = [];
              woken = wakeup ∷ [];
              flow = continues;
            }
        | err e ↦ record { state = s; io = r.0; sent = []; woken = []; flow = fails e }
        | panic ↦ record {
          state = s;
          io = r.0;
          sent = [];
          woken = [];
          flow = fails Handler.handler_exits;
        }
      ]

  unfoldable pub handle_msg :
      InnerTorrentState → IoHandler S → PeerId → Sender → Messages → Handled S
  unfolding set_flag handle_pieces handle_request handle_piece
  handle_msg s h peer_id tx keep_alive = record {
    state = s;
    io = h;
    sent = [];
    woken = [];
    flow = continues;
  }
  handle_msg s h peer_id tx (flag f) = record {
    state = with_state s (set_flag s.torrent_state peer_id f);
    io = h;
    sent = [];
    woken = wakeup ∷ [];
    flow = continues;
  }
  handle_msg s h peer_id tx (have piece_index) = handle_pieces s h peer_id tx (piece_index ∷ [])
  handle_msg s h peer_id tx (bit_field bitfield) =
      handle_pieces s h peer_id tx (pieces_present bitfield)
  handle_msg s h peer_id tx (request index begin len) = handle_request s h peer_id index begin len
  handle_msg s h peer_id tx (piece index begin block) = handle_piece s h index begin block
  handle_msg s h peer_id tx (cancel index begin len) = record {
    state = s;
    io = h;
    sent = [];
    woken = [];
    flow = continues;
  }
