-- ===== src/Peers.antt =====
-- src/peer/state/mod.rs, `PeerPieceMap`: which peer has which piece, kept in both directions.
pub mod Mirror
use bentorrent.Prelude.{ℕ, Option, none, some, List, [], ◌∷◌}
use bentorrent.Prelude.Eq.{nat_eq, list_eq}
use bentorrent.Prelude.Sets.{intersection}
use bentorrent.Prelude.Sets
use bentorrent.Prelude.Maps.{Map, lookup, insert}
use bentorrent.Prelude.Maps
use bentorrent.Torrent.{PeerId}

pub record PeerPieceMap : Type 0 where
  pub pieces_to_peers : Map ℕ (List PeerId)
  pub peers_to_pieces : Map PeerId (List ℕ)

abbrev pub empty_peer_map : PeerPieceMap
empty_peer_map = record { pieces_to_peers = []; peers_to_pieces = [] }

-- `entry(k).or_insert_with(HashSet::new)`
abbrev pub or_empty {ℓ} : {A : Type ℓ} → Option (List A) → List A
or_empty none = []
or_empty (some xs) = xs

unfoldable pub peer_interest : PeerPieceMap → PeerId → List ℕ → List ℕ
peer_interest m peer_id outstanding_pieces = elim (lookup peer_id m.peers_to_pieces) [
  | none ↦ []
  | some peer_pieces ↦ intersection outstanding_pieces peer_pieces
]

unfoldable pub add_piece : PeerPieceMap → PeerId → ℕ → PeerPieceMap
add_piece m peer_id piece = record {
  pieces_to_peers =
      insert piece (Sets.insert peer_id (or_empty (lookup piece m.pieces_to_peers)))
        m.pieces_to_peers;
  peers_to_pieces =
      insert peer_id (Sets.insert piece (or_empty (lookup peer_id m.peers_to_pieces)))
        m.peers_to_pieces;
}

unfoldable pub get_peers_with_piece : PeerPieceMap → ℕ → List PeerId
get_peers_with_piece m piece = elim (lookup piece m.pieces_to_peers) [
  | none ↦ []
  | some peers ↦ peers
]

-- The loop over the pieces of a peer that leaves.
unfoldable pub forget_piece : PeerId → ℕ → Map ℕ (List PeerId) → Map ℕ (List PeerId)
forget_piece peer_id block m = elim (lookup block m) [
  | none ↦ m
  | some peers ↦ insert block (Sets.remove peer_id peers) m
]

unfoldable pub forget : PeerId → List ℕ → Map ℕ (List PeerId) → Map ℕ (List PeerId)
unfolding forget_piece
forget peer_id [] m = m
forget peer_id (block ∷ blocks) m = forget peer_id blocks (forget_piece peer_id block m)

unfoldable pub remove_peer : PeerPieceMap → PeerId → PeerPieceMap
unfolding forget
remove_peer m peer_id = elim (lookup peer_id m.peers_to_pieces) [
  | none ↦ m
  | some blocks ↦ record {
    pieces_to_peers = forget peer_id blocks m.pieces_to_peers;
    peers_to_pieces = Maps.remove peer_id m.peers_to_pieces;
  }
]
