-- ===== src/Examples/Peering.antt =====
-- Connections to the peers of a tracker.
use bentorrent.Prelude.{◌<◌, inr, ◌≤◌, length, take, sym, ◌∙◌}
use bentorrent.Prelude.{
  ◌==◌, if◌then◌else◌, ℕ, ◌≡◌, refl, arith, true, [], ◌∷◌, ◌++◌, replicate, pos,
}
use bentorrent.Outcome.{panic, ok}
use bentorrent.Torrent.{Bytes, V1Torrent}
use bentorrent.BytesApi.Concrete.{bytes_api}
use bentorrent.BytesApi.{u32_bytes, u64_bytes}
use bentorrent.Protocol.{get_u8, get_vec, zeroed, skip}
use bentorrent.Protocol.{Handshake, have, encode_handshake, decode_handshake, encode, decode}
use bentorrent.TrackerResponse.{v4, TrackerPeer, SocketAddr}
use bentorrent.Connection.{read_msg}
use bentorrent.Connection.Reassembly.{Returns}
use bentorrent.Connection.Limit.{
  connections, NoCrash, connect_torrent_peers-take, connect_torrent_peers_crash,
}
use bentorrent.Connection.Peering.{
  connect_torrent_peers, Connection, Socket, done, Dial, stream, no_answer, joined, passed, crashed,
  try_peer, connect, do_handshake,
}
use bentorrent.Connection.Handshaking.{ours, do_handshake-then_read}

abbrev torrent : V1Torrent
torrent = record {
  info = record {
    length = pos 40;
    piece_length = pos 32;
    pieces = [];
    name = [];
    info_hash = replicate 20 9;
  };
  announce = [];
  announce_list = [];
}

abbrev our_id : Bytes
our_id = replicate 20 1

abbrev theirs : Handshake
theirs = record { peer_ctx = record { info_hash = replicate 20 9; peer_id = replicate 20 2 } }

-- A socket that takes everything.
abbrev open_socket : Socket
open_socket b = (b, done)

abbrev first_chunk : Bytes
first_chunk = encode_handshake bytes_api theirs [] ++ u32_bytes 5

abbrev conn : Connection
conn = connect open_socket (first_chunk ∷ (4 ∷ u32_bytes 7) ∷ [])

do_handshake-then_read_example :
    (conn' : Connection) × ((do_handshake bytes_api torrent our_id conn ≡ ok (theirs, conn'))
      × ((conn'.written ≡ [] ++ encode_handshake bytes_api (ours torrent our_id) [])
          × Returns (have 7) [] (read_msg (decode bytes_api) conn'.buffer conn'.chunks)))
unfolding encode u32_bytes
do_handshake-then_read_example =
    do_handshake-then_read bytes_api torrent our_id conn theirs (u32_bytes 5)
      ((4 ∷ u32_bytes 7) ∷ []) (have 7) [] refl refl refl (refl, refl) (omega arith) (refl, tt) refl

-- Port 1 does not answer, port 2 sends a part of a handshake, the others send a whole one.
abbrev dial_port : ℕ → Dial
dial_port port =
    if port == 1
    then no_answer
    else if port == 2
    then stream open_socket ((19 ∷ (replicate 19 0 ++ replicate 3 0)) ∷ []) true
    else stream open_socket (encode_handshake bytes_api theirs [] ∷ []) true

abbrev dial : SocketAddr → Dial
dial (SocketAddr.v4 ip port) = dial_port port
dial (SocketAddr.v6 ip port flowinfo scope_id) = no_answer

abbrev at : ℕ → TrackerPeer
at port = record { address = v4 (127 ∷ 0 ∷ 0 ∷ 1 ∷ []); port = port }

silent : try_peer bytes_api dial torrent our_id (at 1) ≡ passed
unfolding try_peer
silent = refl

cut_short : try_peer bytes_api dial torrent our_id (at 2) ≡ crashed
unfolding try_peer read_msg decode_handshake get_u8 get_vec zeroed skip
cut_short = refl

abbrev Joins : ℕ → Type 0
Joins port =
    try_peer bytes_api dial torrent our_id (at port)
    ≡ joined theirs (record {
      socket = open_socket;
      written = [] ++ encode_handshake bytes_api (ours torrent our_id) [];
      buffer = [];
      chunks = [];
    })

answers : Joins 3
unfolding try_peer read_msg decode_handshake encode_handshake u64_bytes u32_bytes get_u8 get_vec
    zeroed skip
answers = refl

-- Of the first two peers only one is connected, and the limit is reached.
one_of_two : NoCrash bytes_api dial torrent our_id (at 1 ∷ at 3 ∷ [])
one_of_two = ((λ e. let no = sym silent ∙ e in cc), ((λ e. let no = sym answers ∙ e in cc), tt))

one_connection : 1 ≤ length (connections bytes_api dial torrent our_id (at 1 ∷ at 3 ∷ []))
unfolding connections
one_connection = rw (silent, answers) (omega arith)

connect_torrent_peers-take_example :
    connect_torrent_peers bytes_api dial torrent our_id 1 ((at 1 ∷ at 3 ∷ []) ++ at 2 ∷ [])
    ≡ ok (take 1 (connections bytes_api dial torrent our_id (at 1 ∷ at 3 ∷ [])))
connect_torrent_peers-take_example =
    connect_torrent_peers-take bytes_api dial torrent our_id 1 (at 1 ∷ at 3 ∷ []) (at 2 ∷ [])
      one_of_two (inr one_connection)

no_connection : length (connections bytes_api dial torrent our_id (at 1 ∷ [])) < 1
unfolding connections
no_connection = rw silent (omega arith)

connect_torrent_peers_crash_example :
    connect_torrent_peers bytes_api dial torrent our_id 1 ((at 1 ∷ []) ++ at 2 ∷ at 3 ∷ []) ≡ panic
connect_torrent_peers_crash_example =
    connect_torrent_peers_crash bytes_api dial torrent our_id 1 (at 1 ∷ []) (at 3 ∷ []) (at 2)
      (one_of_two.0, tt) no_connection cut_short
