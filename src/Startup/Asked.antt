-- ===== src/Startup/Asked.antt =====
-- src/peer/mod.rs: the connections that come of the tracker's answer.
use bentorrent.Prelude.{sym, ℕ, ◌⊎◌, ◌≡◌, refl, ap, ◌∙◌, inl, [], take, append-nil}
use bentorrent.Outcome.{ok}
use bentorrent.Torrent.{Bytes, PeerId, V1Torrent}
use bentorrent.Bencode.Nom.{Nom}
use bentorrent.BytesApi.{BytesApi}
use bentorrent.TrackerResponse.{IpAddr, SocketAddr, TrackerResponse}
use bentorrent.TrackerClient
use bentorrent.TrackerClient.{Web, get_announce}
use bentorrent.Connection.Peering.{Dial, connect_torrent_peers}
use bentorrent.Connection.Limit.{NoCrash, connections, connect_torrent_peers-take}
use bentorrent.Startup.{Config, inner_start_processing}

-- With an answer of the tracker, none of whose peers makes the handshake panic, the connections that
-- come of its peers are run in their order, at most `max_conns` of them.
pub inner_start_processing-take :
    (web : Web) (nom : Nom) (from_str : Bytes → Bytes ⊎ IpAddr) (api : BytesApi)
    (dial : SocketAddr → Dial) (stack : ℕ) (torrent : V1Torrent) (our_id : PeerId) (config : Config)
    (response : TrackerResponse)
    → get_announce web nom from_str stack (TrackerClient.new torrent our_id) ≡ ok response
    → NoCrash api dial torrent our_id response.peers
    → inner_start_processing web nom from_str api dial stack torrent our_id config
      ≡ ok (take config.max_conns (connections api dial torrent our_id response.peers))
unfolding inner_start_processing
inner_start_processing-take web nom from_str api dial stack torrent our_id config response e safe =
    let all =
      ap (connect_torrent_peers api dial torrent our_id config.max_conns)
        (sym (append-nil response.peers))
      ∙ connect_torrent_peers-take api dial torrent our_id config.max_conns response.peers [] safe
          (inl refl) in
    rw (e, inner_start_processing, all) refl
