-- ===== src/State/Choking.antt =====
-- src/peer/state/mod.rs, `TorrentState`.
-- Who chokes us, and who is interested in us.
use bentorrent.Prelude.{
  ap, ◌≡◌, arith, if◌then◌else◌, Bool, true, false, ◌&&◌, ◌||◌, not, inl, inr, Bool-cases,
}
use bentorrent.Prelude.Eq.{nat_eq, list_eq}
use bentorrent.Prelude.Sets.{contains, contains-insert, contains-remove, contains-select}
use bentorrent.Prelude.Maps.{lookup-insert, contains_key, contains-keys}
use bentorrent.Torrent.{PeerId}
use bentorrent.Peers.Mirror.{same_peer}
use bentorrent.State.{
  TorrentState, default_peer_state, add_peer_id, set_peer_choked_us, set_peers_interested_in_us,
  peer_set, peers_that_choke, peers_that_are_interested,
}

-- The state has an entry for the peer.
abbrev pub is_known : TorrentState → PeerId → Bool
is_known s q = contains_key q s.peers

pub known-add_peer_id :
    (s : TorrentState) (p q : PeerId)
    → is_known (add_peer_id s p) q ≡ (same_peer p q || is_known s q)
unfolding add_peer_id
known-add_peer_id s p q = elim (Bool-cases (contains_key p s.peers)) [
  | inl old ↦ rw (old, add_peer_id) (ground (arith, old, list_eq.beq_iff p q))
  | inr fresh ↦
      rw (fresh, add_peer_id) (ground (arith, lookup-insert p q default_peer_state s.peers))
]

pub add_peer_id-rest :
    (s : TorrentState) (p : PeerId)
    → ((add_peer_id s p).peers_not_choking ≡ s.peers_not_choking)
      × ((add_peer_id s p).peers_interested ≡ s.peers_interested)
      × ((add_peer_id s p).block_peer_map ≡ s.block_peer_map)
      × ((add_peer_id s p).piece_block_tracking ≡ s.piece_block_tracking)
unfolding add_peer_id
add_peer_id-rest s p = ground arith

contains-peer_set : (s : TorrentState) (q : PeerId) → contains q (peer_set s) ≡ is_known s q
unfolding peer_set
contains-peer_set s q = contains-keys q s.peers

-- The peers that choke us are the known ones that have not said otherwise.
pub contains-peers_that_choke :
    (s : TorrentState) (choke : Bool) (q : PeerId)
    → contains q (peers_that_choke s choke) ≡ (
        is_known s q
        && (if choke then not (contains q s.peers_not_choking) else contains q s.peers_not_choking))
unfolding peers_that_choke
contains-peers_that_choke s true q = ground (
  arith,
  contains-select (λ x. not (contains x s.peers_not_choking)) q (peer_set s),
  contains-peer_set s q,
)
contains-peers_that_choke s false q = ground (
  arith,
  contains-select (λ x. contains x s.peers_not_choking) q (peer_set s),
  contains-peer_set s q,
)

pub contains-peers_that_are_interested :
    (s : TorrentState) (interested : Bool) (q : PeerId)
    → contains q (peers_that_are_interested s interested) ≡ (
        is_known s q
        && (if interested
            then contains q s.peers_interested
            else not (contains q s.peers_interested)))
unfolding peers_that_are_interested
contains-peers_that_are_interested s false q = ground (
  arith,
  contains-select (λ x. not (contains x s.peers_interested)) q (peer_set s),
  contains-peer_set s q,
)
contains-peers_that_are_interested s true q = ground (
  arith,
  contains-select (λ x. contains x s.peers_interested) q (peer_set s),
  contains-peer_set s q,
)

not_choking-set_peer_choked_us :
    (s : TorrentState) (p : PeerId) (choked : Bool) (q : PeerId)
    → contains q (set_peer_choked_us s p choked).peers_not_choking
      ≡ (if same_peer p q then not choked else contains q s.peers_not_choking)
unfolding set_peer_choked_us
not_choking-set_peer_choked_us s p true q = ground (
  arith,
  contains-remove p q (add_peer_id s p).peers_not_choking,
  ap (contains q) (add_peer_id-rest s p).0,
)
not_choking-set_peer_choked_us s p false q = ground (
  arith,
  contains-insert p q (add_peer_id s p).peers_not_choking,
  ap (contains q) (add_peer_id-rest s p).0,
)

known-set_peer_choked_us :
    (s : TorrentState) (p : PeerId) (choked : Bool) (q : PeerId)
    → is_known (set_peer_choked_us s p choked) q ≡ (same_peer p q || is_known s q)
unfolding set_peer_choked_us
known-set_peer_choked_us s p true q = known-add_peer_id s p q
known-set_peer_choked_us s p false q = known-add_peer_id s p q

-- After a choke or unchoke message the sender is in the one set of peers that it says, and in the
-- other no longer; every other peer is where it was.
pub peers_that_choke-set_peer_choked_us :
    (s : TorrentState) (p : PeerId) (choked choke : Bool) (q : PeerId)
    → contains q (peers_that_choke (set_peer_choked_us s p choked) choke) ≡ (
        if same_peer p q
        then (if choke then choked else not choked)
        else contains q (peers_that_choke s choke))
peers_that_choke-set_peer_choked_us s p choked choke q = ground (
  arith,
  contains-peers_that_choke (set_peer_choked_us s p choked) choke q,
  contains-peers_that_choke s choke q,
  not_choking-set_peer_choked_us s p choked q,
  known-set_peer_choked_us s p choked q,
)

interested-set_peers_interested_in_us :
    (s : TorrentState) (p : PeerId) (interested : Bool) (q : PeerId)
    → contains q (set_peers_interested_in_us s p interested).peers_interested
      ≡ (if same_peer p q then interested else contains q s.peers_interested)
unfolding set_peers_interested_in_us
interested-set_peers_interested_in_us s p false q = ground (
  arith,
  contains-remove p q (add_peer_id s p).peers_interested,
  ap (contains q) (add_peer_id-rest s p).1,
)
interested-set_peers_interested_in_us s p true q = ground (
  arith,
  contains-insert p q (add_peer_id s p).peers_interested,
  ap (contains q) (add_peer_id-rest s p).1,
)

known-set_peers_interested_in_us :
    (s : TorrentState) (p : PeerId) (interested : Bool) (q : PeerId)
    → is_known (set_peers_interested_in_us s p interested) q ≡ (same_peer p q || is_known s q)
unfolding set_peers_interested_in_us
known-set_peers_interested_in_us s p true q = known-add_peer_id s p q
known-set_peers_interested_in_us s p false q = known-add_peer_id s p q

-- After a message by which a peer tells whether it is interested in us, the sender is in the one
-- set of peers that it says, and in the other no longer; every other peer is where it was.
pub peers_that_are_interested-set :
    (s : TorrentState) (p : PeerId) (interested asked : Bool) (q : PeerId)
    → contains q (peers_that_are_interested (set_peers_interested_in_us s p interested) asked) ≡ (
        if same_peer p q
        then (if asked then interested else not interested)
        else contains q (peers_that_are_interested s asked))
peers_that_are_interested-set s p interested asked q = ground (
  arith,
  contains-peers_that_are_interested (set_peers_interested_in_us s p interested) asked q,
  contains-peers_that_are_interested s asked q,
  interested-set_peers_interested_in_us s p interested q,
  known-set_peers_interested_in_us s p interested q,
)
