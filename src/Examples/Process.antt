-- ===== src/Examples/Process.antt =====
-- The processor, its store and a connection at concrete inputs.
use bentorrent.Prelude.{
  ℕ, ◌-◌, ◌≡◌, refl, arith, true, false, ◌&&◌, ◌==◌, leb, ltb, if◌then◌else◌, none, some, Bool,
  List, [], ◌∷◌, get_elem?,
}
use bentorrent.Prelude.Eq.{nat_eq, list_eq}
use bentorrent.Prelude.Sets.{contains}
use bentorrent.Outcome.{ok}
use bentorrent.Torrent.{PeerRequestedPiece, Bytes}
use bentorrent.Memory.{MemoryTorrentIo, of_bytes, memory_io, write_piece}
use bentorrent.Memory.Bytewise.{byte_at, piece_size, byte_at-write_piece}
use bentorrent.BytesApi.{u32_bytes}
use bentorrent.BytesApi.Concrete.{bytes_api}
use bentorrent.Protocol
use bentorrent.Protocol.{encode, decode}
use bentorrent.Connection.{read_msg}
use bentorrent.Connection.Reassembly.{Returns, read_msg-encode}
use bentorrent.Piece.Blocks.{visit_req_map}
use bentorrent.Piece.Tracker.{started}
use bentorrent.Processor.{
  dequeue_requests, InnerTorrentState, PeerToSender, compute_unchoke, dispatch, completed_bit_field,
  wakeup,
}
use bentorrent.Processor.Unchoking.{compute_unchoke_idle}
use bentorrent.Processor.Dispatch.{Dispatches, is_among, dispatch_lem}
use bentorrent.Processor.Announcing.{pieces_present-completed_bit_field}
use bentorrent.Processor.Handling.{pieces_present}
use bentorrent.Processor.Exits.{IsGone, dequeue_requests-IsGone}
use bentorrent.Prelude.Maps.{lookup}
use bentorrent.Processor.Loop
use bentorrent.Processor.Loop.{Event, accepts, receives, closes, wakes, ticks}
use bentorrent.Processor.Valid.{IsValid}
use bentorrent.Processor.Validity.{start, run-start-IsValid}
use bentorrent.Examples.Storage.{short_last}
use bentorrent.Examples.Swarm.{ann, bob, two_peers}

-- Two pieces of four bytes and of two.
abbrev small_store : MemoryTorrentIo
small_store = record { memory = of_bytes (0 ∷ 0 ∷ 0 ∷ 0 ∷ []) ∷ of_bytes (0 ∷ 0 ∷ []) ∷ [] }

abbrev two_bytes : Bytes
two_bytes = 7 ∷ 8 ∷ []

byte_at-write_piece_example :
    ((done : Bool) × ((write_piece small_store 0 1 two_bytes).1 ≡ ok done))
    × ((j k : ℕ)
        → byte_at (write_piece small_store 0 1 two_bytes).0 j k ≡ (
            if (0 == j) && (leb 1 k && ltb k 3)
            then get_elem? two_bytes (k - 1)
            else byte_at small_store j k))
unfolding piece_size
byte_at-write_piece_example =
    byte_at-write_piece small_store 0 1 two_bytes (omega arith) (omega arith) (omega arith)

-- `have 7` in three chunks, with the first byte of what follows.
read_msg-encode_example : Returns (Protocol.have 7) (1 ∷ []) (
    read_msg
      (decode bytes_api)
      []
      ((0 ∷ 0 ∷ 0 ∷ []) ∷ (5 ∷ 4 ∷ []) ∷ (0 ∷ 0 ∷ 0 ∷ 7 ∷ 1 ∷ []) ∷ []))
unfolding encode u32_bytes
read_msg-encode_example =
    read_msg-encode bytes_api (Protocol.have 7) []
      ((0 ∷ 0 ∷ 0 ∷ []) ∷ (5 ∷ 4 ∷ []) ∷ (0 ∷ 0 ∷ 0 ∷ 7 ∷ 1 ∷ []) ∷ []) (1 ∷ []) (omega arith)
      (refl, (refl, (refl, tt))) refl

abbrev processor_state : InnerTorrentState
processor_state = record { torrent = short_last; torrent_state = two_peers }

-- Bob has closed his connection.
abbrev senders : PeerToSender
senders = (ann, record { is_closed = false }) ∷ (bob, record { is_closed = true }) ∷ []

compute_unchoke_idle_example : compute_unchoke processor_state senders ≡ (processor_state, [])
compute_unchoke_idle_example = compute_unchoke_idle processor_state senders

abbrev ask : ℕ → PeerRequestedPiece
ask begin = record { peer_id = bob; index = 0; begin = begin; length = 1 }

abbrev five : List PeerRequestedPiece
five = ask 0 ∷ ask 1 ∷ record (ask 2) { peer_id = ann } ∷ ask 3 ∷ ask 4 ∷ []

-- The first request does not fit the second piece, and Bob has a request behind it.
abbrev bad_request : PeerRequestedPiece
bad_request = record { peer_id = ann; index = 1; begin = 1; length = 2 }

abbrev asked : InnerTorrentState
asked = record {
  torrent = short_last;
  torrent_state = record two_peers { outstanding_peer_requests = bad_request ∷ ask 0 ∷ [] };
}

dequeue_requests-IsGone_example :
    let served =
      (dequeue_requests memory_io asked senders (record { store = some small_store })).1 in
    (served.1 ≡ []) × IsGone memory_io served.0
unfolding lookup piece_size
dequeue_requests-IsGone_example =
    dequeue_requests-IsGone asked senders small_store bad_request (ask 0 ∷ [])
      (record { is_closed = false }) refl refl (omega arith) (omega arith) (omega arith)

dispatch_lem_example :
    (back : List PeerRequestedPiece) × Dispatches senders five
      (dispatch two_peers senders five).1
      back
    × ((p b : ℕ)
        → visit_req_map
            (started (dispatch two_peers senders five).0.piece_block_tracking).downloading
            p
            b
          ≡ (if is_among back p b
              then none
              else visit_req_map (started two_peers.piece_block_tracking).downloading p b))
dispatch_lem_example = dispatch_lem senders five two_peers

pieces_present-completed_bit_field_example :
    (bitfield : Bytes) × (completed_bit_field processor_state ≡ some bitfield)
    × ((x : ℕ)
        → contains x (pieces_present bitfield)
          ≡ (ltb x 2 && contains x two_peers.piece_block_tracking.pieces_completed))
pieces_present-completed_bit_field_example =
    pieces_present-completed_bit_field processor_state (omega arith)

abbrev events : List Event
events =
    accepts ann (record { is_closed = false })
    ∷ receives ann (record { is_closed = false }) (Protocol.flag Protocol.unchoke)
    ∷ receives ann (record { is_closed = false }) (Protocol.have 1)
    ∷ wakes wakeup (λ p. 5)
    ∷ receives ann (record { is_closed = false }) (Protocol.piece 1 0 two_bytes)
    ∷ ticks 9
    ∷ closes ann
    ∷ []

run-start-IsValid_example :
    IsValid 2 (Loop.run memory_io (start short_last 8 small_store) events).state.torrent_state
run-start-IsValid_example =
    run-start-IsValid memory_io short_last 8 small_store events (omega arith) (omega arith)
