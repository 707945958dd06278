-- ===== src/Connection/Peering.antt =====
-- src/peer/net.rs: messages sent, the handshake, and the connections to the peers of the tracker.
-- The network is a parameter: what a socket sends, and what dialling an address gives.
use bentorrent.Prelude.{ℕ, leb, if◌then◌else◌, Bool, true, false, List, [], ◌∷◌, ◌++◌, length}
use bentorrent.Outcome.{Outcome, ok, err, panic}
use bentorrent.Torrent.{Bytes, PeerId, V1Torrent}
use bentorrent.BytesApi.{BytesApi}
use bentorrent.Text.{text}
use bentorrent.Io.{PeerError, network_timeout, other}
use bentorrent.Protocol.{
  Handshake, Messages, ProtocolError, encode_handshake, decode_handshake, encode,
}
use bentorrent.Connection.{message, closed, reset, panicked, failed, read_msg}
use bentorrent.TrackerResponse.{TrackerPeer, SocketAddr, socket_addr}

-- What fails on a connection.
pub data ConnError : Type 0 where
  peer : PeerError → ConnError
  protocol : ProtocolError → ConnError
  channel_closed : ConnError

-- How `write_all_buf` under the timeout ends.
pub data Sent : Type 0 where
  done timed_out : Sent
  broken : Bytes → Sent

-- What the socket takes of some bytes, and how that ends.
abbrev pub Socket : Type 0
Socket = Bytes → Bytes × Sent

-- A connection: its socket, the bytes sent so far, its buffer, and what the stream will deliver.
pub record Connection : Type 0 where
  pub socket : Socket
  pub written : Bytes
  pub buffer : Bytes
  pub chunks : List Bytes

-- `Connection::new`
abbrev pub connect : Socket → List Bytes → Connection
connect socket chunks = record { socket = socket; written = []; buffer = []; chunks = chunks }

-- How a write ends, for what the socket has taken.
unfoldable pub end_write : Connection → Bytes → Sent → Connection × Outcome ConnError (Unit {0})
end_write conn taken done = (record conn { written = conn.written ++ taken }, ok tt)
end_write conn taken timed_out =
    (record conn { written = conn.written ++ taken }, err (peer network_timeout))
end_write conn taken (broken e) =
    (record conn { written = conn.written ++ taken }, err (peer (other e)))

-- `write_msg`, after the message is encoded.
unfoldable pub write_bytes : Connection → Bytes → Connection × Outcome ConnError (Unit {0})
unfolding end_write
write_bytes conn b = let s = conn.socket b in end_write conn s.0 s.1

-- What is left of a connection after a read.
abbrev pub with_input : Connection → Bytes → List Bytes → Connection
with_input conn buffer chunks = record conn { buffer = buffer; chunks = chunks }

module _ (api : BytesApi) where
  unfoldable pub write_msg : Connection → Messages → Connection × Outcome ConnError (Unit {0})
  unfolding write_bytes
  write_msg conn m = write_bytes conn (encode api m [])

  -- The handshake of the other side, from what it sends.
  unfoldable pub read_handshake : Connection → Outcome ConnError (Handshake × Connection)
  read_handshake conn = elim (read_msg (decode_handshake api) conn.buffer conn.chunks) [
    | message handshake buffer chunks ↦ ok (handshake, with_input conn buffer chunks)
    | closed ↦ err (peer (other (text "Expected a handshake, but got an unknown message.")))
    | reset ↦ err (peer (other (text "connection reset by peer")))
    | failed e ↦ err (protocol e)
    | panicked ↦ panic
  ]

  -- After our handshake is written, or is not.
  unfoldable pub after_write :
      Connection → Outcome ConnError (Unit {0}) → Outcome ConnError (Handshake × Connection)
  unfolding read_handshake
  after_write conn (err e) = err e
  after_write conn panic = panic
  after_write conn (ok u) = read_handshake conn

  unfoldable pub do_handshake :
      V1Torrent → PeerId → Connection → Outcome ConnError (Handshake × Connection)
  unfolding write_bytes after_write
  do_handshake torrent our_id conn =
      let our_handshake : Handshake = record {
        peer_ctx = record { info_hash = torrent.info.info_hash; peer_id = our_id };
      } in
      let w = write_bytes conn (encode_handshake api our_handshake []) in after_write w.0 w.1

-- What dialling an address gives within a second; `in_time` says whether the handshake then ends
-- within another one.
pub data Dial : Type 0 where
  no_answer : Dial
  refused : Bytes → Dial
  stream : Socket → List Bytes → (in_time : Bool) → Dial

-- What comes of one peer.
pub data Tried : Type 0 where
  joined : Handshake → Connection → Tried
  passed crashed : Tried

module _ (api : BytesApi) (dial : SocketAddr → Dial) (torrent : V1Torrent) (our_id : PeerId) where
  unfoldable pub try_peer : TrackerPeer → Tried
  unfolding do_handshake socket_addr
  try_peer p = elim (dial (socket_addr p)) [
    | no_answer ↦ passed
    | refused e ↦ passed
    | stream socket chunks in_time ↦ elim in_time [
      | false ↦ passed
      | true ↦ elim (do_handshake api torrent our_id (connect socket chunks)) [
        | ok r ↦ joined r.0 r.1
        | err e ↦ passed
        | panic ↦ crashed
      ]
    ]
  ]

  -- The loop over the peers; a panic in a handshake ends it and its task.
  unfoldable pub connect_loop :
      ℕ
      → List (Handshake × Connection)
      → List TrackerPeer
      → Outcome ConnError (List (Handshake × Connection))
  connect_loop max_conns active [] = ok active
  connect_loop max_conns active (p ∷ peers) =
      if leb max_conns (length active) then ok active else elim (try_peer p) [
        | joined handshake conn ↦ connect_loop max_conns (active ++ (handshake, conn) ∷ []) peers
        | passed ↦ connect_loop max_conns active peers
        | crashed ↦ panic
      ]

  -- The connections that are run.
  unfoldable pub connect_torrent_peers :
      ℕ → List TrackerPeer → Outcome ConnError (List (Handshake × Connection))
  unfolding connect_loop
  connect_torrent_peers max_conns peers = connect_loop max_conns [] peers
