-- ===== src/Processor.antt =====
-- src/peer/state/mod.rs, `TorrentProcessor`: the state that its tasks share, and the parts of its
-- main loop. A send to a peer succeeds while the receiver of the channel is there; what is sent is
-- returned as a list. Room in a channel is waited for, so it is not modelled.
pub mod Handling
pub mod Unchoking
pub mod Announcing
pub mod Dispatch
pub mod Serving
pub mod Exits
pub mod Loop
pub mod Valid
pub mod Validity
use bentorrent.Prelude.{
  ℕ, zero, suc, ◌+◌, ◌-◌, ltb, leb, if◌then◌else◌, Bool, true, false, not, Option, none, some, List,
  [], ◌∷◌, ◌++◌, length, is_empty, take,
}
use bentorrent.Prelude.Eq.{nat_eq, list_eq}
use bentorrent.Prelude.Sets.{difference, union}
use bentorrent.Prelude.Maps.{Map, lookup, is_some, keys}
use bentorrent.Prelude.Maps
use bentorrent.Outcome.{Outcome, ok, err, panic}
use bentorrent.Torrent.{Bytes, PeerId, PeerRequestedPiece, V1Torrent}
use bentorrent.Io.{TorrentIo, PeerError}
use bentorrent.Handler
use bentorrent.Handler.{IoHandler}
use bentorrent.BitField
use bentorrent.BitField.{put_bit_set}
use bentorrent.Piece.Tracker.{remove_request, generate_assignments}
use bentorrent.Protocol
use bentorrent.Protocol.{FlagMessages}
use bentorrent.State.{
  InternalPeerState, TorrentState, get_internal_peer_state, peers_that_are_interested,
  piece_id_to_peers,
}

pub record InnerTorrentState : Type 0 where
  pub torrent : V1Torrent
  pub torrent_state : TorrentState

pub data InternalStateMessage : Type 0 where
  wakeup : InternalStateMessage
  piece_complete : (piece_id : ℕ) → InternalStateMessage
  peer_requested_piece : PeerRequestedPiece → InternalStateMessage

pub record Sender : Type 0 where
  pub is_closed : Bool

abbrev pub PeerToSender : Type 0
PeerToSender = Map PeerId Sender

-- What was sent, and to whom.
abbrev pub Sent : Type 0
Sent = List (PeerId × Protocol.Messages)

-- The peer has a sender, and its channel is open.
unfoldable pub can_send : PeerToSender → PeerId → Bool
can_send peer_to_tx peer_id = elim (lookup peer_id peer_to_tx) [
  | none ↦ false
  | some tx ↦ not tx.is_closed
]

unfoldable pub send_to : PeerToSender → PeerId → Protocol.Messages → Sent
send_to peer_to_tx peer_id msg = if can_send peer_to_tx peer_id then (peer_id, msg) ∷ [] else []

-- The peers that we do not choke.
unfoldable pub unchoked_peers : Map PeerId InternalPeerState → List PeerId
unchoked_peers [] = []
unchoked_peers ((peer_id, state) ∷ peers) =
    let rest = unchoked_peers peers in if not state.choked then peer_id ∷ rest else rest

unfoldable pub set_choked : TorrentState → PeerId → Bool → TorrentState
set_choked s peer_id choked = elim (lookup peer_id s.peers) [
  | none ↦ s
  | some peer ↦ record s { peers = Maps.insert peer_id (record peer { choked = choked }) s.peers }
]

abbrev pub choke_msg : Bool → FlagMessages
choke_msg true = Protocol.choke
choke_msg false = Protocol.unchoke

-- The loop over the peers whose choking changes.
unfoldable pub apply_choking :
    TorrentState → PeerToSender → List (PeerId × Bool) → TorrentState × Sent
unfolding set_choked send_to
apply_choking s peer_to_tx [] = (s, [])
apply_choking s peer_to_tx ((peer_id, choked) ∷ peers) =
    let rest = apply_choking (set_choked s peer_id choked) peer_to_tx peers in
    (rest.0, send_to peer_to_tx peer_id (Protocol.flag (choke_msg choked)) ++ rest.1)

abbrev pub with_choked : Bool → List PeerId → List (PeerId × Bool)
with_choked choked [] = []
with_choked choked (p ∷ ps) = (p, choked) ∷ with_choked choked ps

abbrev pub ideal_stationary_choke_size : ℕ
ideal_stationary_choke_size = 4

unfoldable pub compute_unchoke : InnerTorrentState → PeerToSender → InnerTorrentState × Sent
unfolding unchoked_peers apply_choking
compute_unchoke s peer_to_tx =
    let interested_peers = peers_that_are_interested s.torrent_state true in
    let unchoked = unchoked_peers s.torrent_state.peers in
    let stationary_peer_set = union unchoked interested_peers in
    let combined_peers =
      with_choked false (
        take (ideal_stationary_choke_size - length stationary_peer_set)
          (difference interested_peers stationary_peer_set))
      ++ with_choked true (difference unchoked stationary_peer_set) in
    let applied = apply_choking s.torrent_state peer_to_tx combined_peers in
    if is_empty interested_peers
    then (s, [])
    else if ltb (length stationary_peer_set) ideal_stationary_choke_size
    then (record s { torrent_state = applied.0 }, applied.1)
    else (s, [])

unfoldable pub queue_requests : InnerTorrentState → PeerRequestedPiece → InnerTorrentState
queue_requests s request =
    let t = s.torrent_state in
    if is_some (get_internal_peer_state t request.peer_id)
    then record s {
      torrent_state = record t {
        outstanding_peer_requests = t.outstanding_peer_requests ++ request ∷ [];
      };
    }
    else s

-- The loop that takes requests from the front of the queue: what is left, and what was taken.
unfoldable pub dequeue :
    ℕ → List PeerRequestedPiece → List PeerRequestedPiece × List PeerRequestedPiece
dequeue dequed_cnt [] = ([], [])
dequeue dequed_cnt (dq ∷ queue) =
    let rest = dequeue (suc dequed_cnt) queue in
    if leb 4 dequed_cnt then (queue, []) else (rest.0, dq ∷ rest.1)

-- The peers whose channel is closed are dropped.
unfoldable pub prune_closed_tx : PeerToSender → PeerToSender
prune_closed_tx [] = []
prune_closed_tx ((peer_id, tx) ∷ peers) =
    let rest = prune_closed_tx peers in if tx.is_closed then rest else (peer_id, tx) ∷ rest

unfoldable pub announce_piece : PeerToSender → ℕ → Sent
announce_piece [] piece_id = []
announce_piece ((peer_id, tx) ∷ peers) piece_id =
    let rest = announce_piece peers piece_id in
    if tx.is_closed then rest else (peer_id, Protocol.have piece_id) ∷ rest

-- The loop over the new requests: one that cannot be sent is taken back.
unfoldable pub dispatch :
    TorrentState → PeerToSender → List PeerRequestedPiece → TorrentState × Sent
dispatch s peer_to_tx [] = (s, [])
dispatch s peer_to_tx (request ∷ requests) =
    let s' = record s {
      piece_block_tracking = (remove_request s.piece_block_tracking request).0;
    } in
    let sent = dispatch s peer_to_tx requests in
    let taken_back = dispatch s' peer_to_tx requests in
    if can_send peer_to_tx request.peer_id
    then (
      sent.0,
      (request.peer_id, Protocol.request request.index request.begin request.length) ∷ sent.1,
    )
    else taken_back

-- `now p` is the time read when piece `p` is assigned.
unfoldable pub compute_requests_for_download :
    InnerTorrentState → PeerToSender → (ℕ → ℕ) → InnerTorrentState × Sent
unfolding dispatch
compute_requests_for_download s peer_to_tx now =
    let t = s.torrent_state in
    let assigned =
      generate_assignments t.piece_block_tracking s.torrent (piece_id_to_peers t) now in
    let r = dispatch (record t { piece_block_tracking = assigned.0 }) peer_to_tx assigned.1 in
    (record s { torrent_state = r.0 }, r.1)

-- The bit field of the completed pieces, `none` if the writer panics.
unfoldable pub completed_bit_field : InnerTorrentState → Option Bytes
completed_bit_field s =
    elim (put_bit_set (BitField.new []) s.torrent_state.piece_block_tracking.pieces_completed
      (length s.torrent.info.pieces)) [ none ↦ none | some w ↦ some w.bytes ]

-- The first messages to a peer, and whether they could be sent.
unfoldable pub init_connection : InnerTorrentState → Sender → Option (List Protocol.Messages × Bool)
unfolding completed_bit_field
init_connection s tx = elim (completed_bit_field s) [
  | none ↦ none
  | some bitfield ↦
      if tx.is_closed
      then some ([], false)
      else some (
        Protocol.bit_field bitfield
            ∷ Protocol.flag Protocol.choke
            ∷ Protocol.flag Protocol.not_interested
            ∷ [],
        true,
      )
]

module _ {S : Type 0} (io : TorrentIo S) where
  -- The answers to the requests taken; an error of the store ends them.
  unfoldable pub serve :
      IoHandler S → PeerToSender → List PeerRequestedPiece → IoHandler S × Sent × Option PeerError
  unfolding send_to
  serve h peer_to_tx [] = (h, [], none)
  serve h peer_to_tx (dq ∷ deque) =
      let read = Handler.read io h dq.index dq.begin dq.length in
      let skipped = serve h peer_to_tx deque in
      let rest = serve read.0 peer_to_tx deque in
      elim (lookup dq.peer_id peer_to_tx) [
        | none ↦ skipped
        | some tx ↦ elim read.1 [
          | ok block ↦ (
            rest.0,
            send_to peer_to_tx dq.peer_id (Protocol.piece dq.index dq.begin block) ++ rest.1,
            rest.2,
          )
          | err e ↦ (read.0, [], some e)
          | panic ↦ (read.0, [], some Handler.handler_exits)
        ]
      ]

  unfoldable pub dequeue_requests :
      InnerTorrentState
      → PeerToSender
      → IoHandler S
      → InnerTorrentState × (IoHandler S × Sent × Option PeerError)
  unfolding dequeue serve
  dequeue_requests s peer_to_tx h =
      let t = s.torrent_state in
      let dequed = dequeue 0 t.outstanding_peer_requests in
      (
        record s { torrent_state = record t { outstanding_peer_requests = dequed.0 } },
        serve h peer_to_tx dequed.1,
      )
