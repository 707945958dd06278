-- ===== src/Examples/Swarm.antt =====
-- The peers' part of src/peer/state/mod.rs at concrete inputs.
use bentorrent.Prelude.{[], ◌∷◌}
use bentorrent.Prelude.Eq.{nat_eq, list_eq}
use bentorrent.Prelude.{true, false}
use bentorrent.Torrent.{PeerId}
use bentorrent.Peers.{add_piece, empty_peer_map}
use bentorrent.State
use bentorrent.Peers.Mirror.{IsMirrored, add_piece-IsMirrored, empty-IsMirrored}
use bentorrent.State.{
  TorrentState, set_peer_choked_us, set_peers_interested_in_us, peers_that_choke,
  peers_that_are_interested, is_interesting, add_pieces_for_peer,
}
use bentorrent.State.Leaving.{Forgets, remove_peer-Forgets}
use bentorrent.State.Interest.{Announces, add_pieces_for_peer-Announces}
use bentorrent.Examples.Storage.{a_piece}
use bentorrent.Peers.{PeerPieceMap}

abbrev pub ann : PeerId
ann = 1 ∷ []

abbrev pub bob : PeerId
bob = 2 ∷ []

-- Both have piece 1, and Ann has piece 0 as well.
abbrev who_has : PeerPieceMap
who_has = add_piece (add_piece (add_piece empty_peer_map ann 0) ann 1) bob 1

who_has-IsMirrored : IsMirrored who_has
who_has-IsMirrored = add_piece-IsMirrored (add_piece (add_piece empty_peer_map ann 0) ann 1) bob 1 (
    add_piece-IsMirrored (add_piece empty_peer_map ann 0) ann 1
      (add_piece-IsMirrored empty_peer_map ann 0 empty-IsMirrored))

-- A torrent of two pieces, known to Ann and Bob.
abbrev pub two_peers : TorrentState
two_peers =
    record (set_peers_interested_in_us
      (set_peer_choked_us (State.new (a_piece ∷ a_piece ∷ []) 8) ann false) bob true) {
        block_peer_map = who_has;
      }

remove_peer-Forgets_example : Forgets two_peers (State.remove_peer two_peers ann) ann
remove_peer-Forgets_example = remove_peer-Forgets two_peers ann who_has-IsMirrored

add_pieces_for_peer-Announces_example :
    Announces two_peers bob (0 ∷ 1 ∷ []) (add_pieces_for_peer two_peers bob (0 ∷ 1 ∷ []))
add_pieces_for_peer-Announces_example = add_pieces_for_peer-Announces two_peers bob (0 ∷ 1 ∷ [])
