-- ===== src/Startup.antt =====
-- src/config.rs and the start-up of src/peer/mod.rs: the configuration, the identity of the client,
-- and the way from a torrent to the connections that are run. The clock and SHA-1 are parameters.
pub mod Asked
use bentorrent.Prelude.{
  ℕ, ◌+◌, ◌≤◌, ◌<◌, ◌≡◌, refl, sym, ap, ◌∙◌, subst, arith, leb, Bool, true, false, Bool-cases, inl,
  inr, ◌⊎◌, List, [], ◌∷◌, ◌++◌, length, length-append,
}
use bentorrent.Outcome.{Outcome, ok, err, panic}
use bentorrent.Torrent.{Bytes, PeerId, V1Torrent}
use bentorrent.Text.{text}
use bentorrent.Bencode.Decimal.{decimal}
use bentorrent.Bencode.Nom.{Nom}
use bentorrent.BytesApi.{BytesApi}
use bentorrent.Protocol.{Handshake}
use bentorrent.TrackerResponse.{IpAddr, SocketAddr, TrackerPeer}
use bentorrent.TrackerClient
use bentorrent.TrackerClient.{Web, AnnounceError, get_announce}
use bentorrent.Connection.Peering.{
  Connection, ConnError, Dial, connect_torrent_peers, connect_loop, try_peer, joined, passed,
  crashed,
}

pub record Config : Type 0 where
  pub use_file_writer : Bool
  pub max_conns : ℕ
  pub peer_tx_size : ℕ
  pub peer_rx_size : ℕ
  pub file_handler_channel_size : ℕ
  pub max_outstanding_requests : ℕ

unfoldable pub default_config : Config
default_config = record {
  use_file_writer = true;
  max_conns = 4;
  peer_tx_size = 128;
  peer_rx_size = 128;
  file_handler_channel_size = 2;
  max_outstanding_requests = 128;
}

-- The identity is the hash of the time in seconds.
unfoldable pub make_peer_id : (sha1 : Bytes → Bytes) (seconds : ℕ) → PeerId
make_peer_id sha1 seconds = sha1 (text "ben-" ++ decimal seconds)

pub data StartError : Type 0 where
  announce : AnnounceError → StartError
  connection : ConnError → StartError

module _ (web : Web) (nom : Nom) (from_str : Bytes → Bytes ⊎ IpAddr) (api : BytesApi)
    (dial : SocketAddr → Dial) where
  -- The connections that are run beside the processor.
  unfoldable pub inner_start_processing :
      (stack : ℕ) → V1Torrent → PeerId → Config → Outcome StartError (List (Handshake × Connection))
  inner_start_processing stack torrent our_id config =
      elim (get_announce web nom from_str stack (TrackerClient.new torrent our_id)) [
        | err e ↦ err (announce e)
        | panic ↦ panic
        | ok tracker_response ↦
            elim (connect_torrent_peers api dial torrent our_id config.max_conns
              tracker_response.peers) [
                | ok connections ↦ ok connections
                | err e ↦ err (connection e)
                | panic ↦ panic
              ]
      ]
