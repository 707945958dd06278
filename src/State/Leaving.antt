-- ===== src/State/Leaving.antt =====
-- src/peer/state/mod.rs, `TorrentState`.
-- What is left of a peer that has gone.
use bentorrent.Prelude.{ap, ℕ, ◌≡◌, arith, false}
use bentorrent.Prelude.Eq.{nat_eq, list_eq}
use bentorrent.Prelude.Sets.{
  contains, contains-insert, contains-remove, contains-select, difference, intersection,
}
use bentorrent.Prelude.Sets
use bentorrent.Prelude.Maps.{lookup, lookup-insert, lookup-remove}
use bentorrent.Torrent.{PeerId}
use bentorrent.Peers.Mirror.{
  same_peer, has_piece, is_listed, IsMirrored, has_piece-remove_peer, is_listed-remove_peer,
  remove_peer-IsMirrored,
}
use bentorrent.State.{default_peer_state, TorrentState, add_peer_id, remove_peer}
use bentorrent.State.Choking.{is_known, add_peer_id-rest}

-- The state holds nothing about the peer.
pub record IsForgotten (s : TorrentState) (p : PeerId) : Type 0 where
  pub unknown : is_known s p ≡ false
  pub not_unchoked : contains p s.peers_not_choking ≡ false
  pub not_interested : contains p s.peers_interested ≡ false
  pub no_pieces : (x : ℕ) → has_piece s.block_peer_map p x ≡ false
  pub not_listed : (x : ℕ) → is_listed s.block_peer_map x p ≡ false

-- A peer that has gone is forgotten everywhere, and nothing is forgotten of any other peer.
pub record Forgets (s t : TorrentState) (p : PeerId) : Type 0 where
  pub forgotten : IsForgotten t p
  pub same_peers : (q : PeerId) → same_peer p q ≡ false → lookup q t.peers ≡ lookup q s.peers
  pub same_unchoked :
      (q : PeerId)
      → same_peer p q ≡ false
      → contains q t.peers_not_choking ≡ contains q s.peers_not_choking
  pub same_interested :
      (q : PeerId)
      → same_peer p q ≡ false
      → contains q t.peers_interested ≡ contains q s.peers_interested
  pub same_pieces :
      (q : PeerId) (x : ℕ)
      → same_peer p q ≡ false
      → has_piece t.block_peer_map q x ≡ has_piece s.block_peer_map q x
  pub same_requests : t.outstanding_peer_requests ≡ s.outstanding_peer_requests
  pub same_tracking : t.piece_block_tracking ≡ s.piece_block_tracking
  pub mirrored : IsMirrored t.block_peer_map

lookup-add_peer_id :
    (s : TorrentState) (p q : PeerId)
    → same_peer p q ≡ false
    → lookup q (add_peer_id s p).peers ≡ lookup q s.peers
unfolding add_peer_id
lookup-add_peer_id s p q h = ground (arith, h, lookup-insert p q default_peer_state s.peers)

add_peer_id-requests :
    (s : TorrentState) (p : PeerId)
    → (add_peer_id s p).outstanding_peer_requests ≡ s.outstanding_peer_requests
unfolding add_peer_id
add_peer_id-requests s p = ground arith

-- When the two directions of the peer-piece map agree, removing a peer leaves no entry of it in the
-- peers, the unchoking, the interested, or either direction of the map. Every other peer keeps its
-- state, choked and interested, its places among the unchoking and the interested, and its pieces.
-- The queue of requests and the piece tracker are unchanged, and the two directions still agree.
pub remove_peer-Forgets :
    (s : TorrentState) (p : PeerId) → IsMirrored s.block_peer_map → Forgets s (remove_peer s p) p
unfolding remove_peer
remove_peer-Forgets s p v =
    let self = Sets.beq_self {A = PeerId} p in
    let rest = add_peer_id-rest s p in
    let w : IsMirrored (add_peer_id s p).block_peer_map = rw rest.2 v in
    record {
      forgotten = record {
        unknown = ground (arith, self, lookup-remove p p (add_peer_id s p).peers);
        not_unchoked =
            ground (arith, self, contains-remove p p (add_peer_id s p).peers_not_choking);
        not_interested =
            ground (arith, self, contains-remove p p (add_peer_id s p).peers_interested);
        no_pieces = λ x. ground (arith, self, has_piece-remove_peer _ w p p x);
        not_listed = λ x. ground (arith, self, is_listed-remove_peer _ w p x p);
      };
      same_peers = λ q h.
          ground (arith, h, lookup-remove p q (add_peer_id s p).peers, lookup-add_peer_id s p q h);
      same_unchoked = λ q h.
          ground (
            arith,
            contains-remove p q (add_peer_id s p).peers_not_choking,
            ap (contains q) rest.0,
          );
      same_interested = λ q h.
          ground
            (arith, contains-remove p q (add_peer_id s p).peers_interested, ap (contains q) rest.1);
      same_pieces = λ q x h.
          ground (arith, has_piece-remove_peer _ w p q x, ap (λ n. has_piece n q x) rest.2);
      same_requests = add_peer_id-requests s p;
      same_tracking = rest.3;
      mirrored = remove_peer-IsMirrored _ w p;
    }
