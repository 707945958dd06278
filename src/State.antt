-- ===== src/State.antt =====
-- src/peer/state/mod.rs, `TorrentState`: the peers, what they have and want, and the tracker.
pub mod Choking
pub mod Leaving
pub mod Interest
pub mod Available
use bentorrent.Prelude.{
  ℕ, ◌==◌, Bool, true, false, not, Option, none, some, List, [], ◌∷◌, ◌&&◌, ◌||◌, if◌then◌else◌,
  is_empty,
}
use bentorrent.Prelude.Eq.{nat_eq, list_eq}
use bentorrent.Prelude.Sets.{intersection, difference, contains}
use bentorrent.Prelude.Sets
use bentorrent.Prelude.Maps.{Map, lookup, insert, keys, contains_key, tree_insert}
use bentorrent.Prelude.Maps
use bentorrent.Torrent.{PeerId, PeerRequestedPiece, V1Piece}
use bentorrent.Piece.Tracker
use bentorrent.Piece.Tracker.{PieceBlockTracker, get_incomplete_pieces}
use bentorrent.Peers
use bentorrent.Peers.{PeerPieceMap, empty_peer_map, peer_interest, add_piece, get_peers_with_piece}

-- `choked`: we are choking the peer; `interested`: we are interested in it.
pub record InternalPeerState : Type 0 where
  pub choked : Bool
  pub interested : Bool

abbrev pub default_peer_state : InternalPeerState
default_peer_state = record { choked = false; interested = false }

pub record TorrentState : Type 0 where
  pub piece_block_tracking : PieceBlockTracker
  pub peers_interested : List PeerId
  pub peers_not_choking : List PeerId
  pub block_peer_map : PeerPieceMap
  pub peers : Map PeerId InternalPeerState
  pub outstanding_peer_requests : List PeerRequestedPiece

unfoldable pub new : List V1Piece → ℕ → TorrentState
new pieces max_outstanding_requests = record {
  piece_block_tracking = Tracker.new max_outstanding_requests pieces;
  peers_interested = [];
  peers_not_choking = [];
  block_peer_map = empty_peer_map;
  peers = [];
  outstanding_peer_requests = [];
}

unfoldable pub add_peer_id : TorrentState → PeerId → TorrentState
add_peer_id s peer_id =
    if not (contains_key peer_id s.peers)
    then record s { peers = insert peer_id default_peer_state s.peers }
    else s

unfoldable pub set_peer_choked_us : TorrentState → PeerId → Bool → TorrentState
unfolding add_peer_id
set_peer_choked_us s peer_id choked =
    let s' = add_peer_id s peer_id in
    if not choked
    then record s' { peers_not_choking = Sets.insert peer_id s'.peers_not_choking }
    else record s' { peers_not_choking = Sets.remove peer_id s'.peers_not_choking }

unfoldable pub set_peers_interested_in_us : TorrentState → PeerId → Bool → TorrentState
unfolding add_peer_id
set_peers_interested_in_us s peer_id interested =
    let s' = add_peer_id s peer_id in
    if interested
    then record s' { peers_interested = Sets.insert peer_id s'.peers_interested }
    else record s' { peers_interested = Sets.remove peer_id s'.peers_interested }

unfoldable pub peer_set : TorrentState → List PeerId
peer_set s = keys s.peers

unfoldable pub peers_that_choke : TorrentState → Bool → List PeerId
unfolding peer_set
peers_that_choke s choke =
    if choke
    then difference (peer_set s) s.peers_not_choking
    else intersection (peer_set s) s.peers_not_choking

unfoldable pub peers_that_are_interested : TorrentState → Bool → List PeerId
unfolding peer_set
peers_that_are_interested s interested =
    if not interested
    then difference (peer_set s) s.peers_interested
    else intersection (peer_set s) s.peers_interested

-- The pieces are added one by one.
unfoldable pub add_pieces : PeerPieceMap → PeerId → List ℕ → PeerPieceMap
add_pieces m peer_id [] = m
add_pieces m peer_id (piece ∷ pieces) = add_pieces (add_piece m peer_id piece) peer_id pieces

-- Some piece that is not started can be had from the peer.
unfoldable pub is_interesting : PieceBlockTracker → PeerPieceMap → PeerId → Bool
is_interesting t m peer_id = not (is_empty (peer_interest m peer_id t.pieces_not_started))

-- `entry(peer).or_insert_with(default).interested = interest`
unfoldable pub set_interested : TorrentState → PeerId → Bool → TorrentState
set_interested s peer_id interest =
    let choked : Bool = elim (lookup peer_id s.peers) [ none ↦ false | some p ↦ p.choked ] in
    record s { peers = insert peer_id (record { choked = choked; interested = interest }) s.peers }

abbrev pub bool_eq : Bool → Bool → Bool
bool_eq true b = b
bool_eq false b = not b

-- The answer is the new interest, where it has changed.
unfoldable pub add_pieces_for_peer : TorrentState → PeerId → List ℕ → TorrentState × Option Bool
unfolding add_peer_id add_pieces is_interesting set_interested
add_pieces_for_peer s peer_id pieces =
    let s' = add_peer_id s peer_id in
    let prev_interest = is_interesting s'.piece_block_tracking s'.block_peer_map peer_id in
    let m = add_pieces s'.block_peer_map peer_id pieces in
    let interest = is_interesting s'.piece_block_tracking m peer_id in
    let s'' = record s' { block_peer_map = m } in
    if bool_eq prev_interest interest
    then (s'', none)
    else (set_interested s'' peer_id interest, some interest)

unfoldable pub get_internal_peer_state : TorrentState → PeerId → Option InternalPeerState
get_internal_peer_state s peer_id = lookup peer_id s.peers

-- `collect` into a BTreeMap.
unfoldable pub collect_available :
    PeerPieceMap → List PeerId → List ℕ → Map ℕ (List PeerId) → Map ℕ (List PeerId)
collect_available m unchoked [] acc = acc
collect_available m unchoked (piece ∷ pieces) acc =
    collect_available m unchoked pieces
      (tree_insert piece (intersection unchoked (get_peers_with_piece m piece)) acc)

unfoldable pub piece_id_to_peers : TorrentState → Map ℕ (List PeerId)
unfolding collect_available
piece_id_to_peers s =
    collect_available s.block_peer_map (peers_that_choke s false)
      (get_incomplete_pieces s.piece_block_tracking) []

-- The peer id that the code hands back is not used by its caller, and is left out.
unfoldable pub remove_peer : TorrentState → PeerId → TorrentState
unfolding add_peer_id
remove_peer s peer_id =
    let s' = add_peer_id s peer_id in
    record s' {
      peers = Maps.remove peer_id s'.peers;
      peers_interested = Sets.remove peer_id s'.peers_interested;
      peers_not_choking = Sets.remove peer_id s'.peers_not_choking;
      block_peer_map = Peers.remove_peer s'.block_peer_map peer_id;
    }
