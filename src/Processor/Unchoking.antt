-- ===== src/Processor/Unchoking.antt =====
-- src/peer/state/mod.rs, `compute_unchoke`: whose choking changes.
use bentorrent.Prelude.{◌≡◌, refl, arith, true, List, [], ◌∷◌}
use bentorrent.Prelude.Eq.{nat_eq, list_eq}
use bentorrent.Prelude.{take_nil}
use bentorrent.Prelude.Sets.{beq_self, contains, select, difference, union, contains-union}
use bentorrent.Torrent.{PeerId}
use bentorrent.Processor.{
  InnerTorrentState, PeerToSender, compute_unchoke, unchoked_peers, apply_choking,
}
use bentorrent.State.{peers_that_are_interested}

-- A set without what contains all of it is empty.
difference_empty :
    (xs ys : List PeerId)
    → ((p : PeerId) → contains p xs ≡ true → contains p ys ≡ true)
    → difference xs ys ≡ []
unfolding select contains
difference_empty [] ys h = refl
difference_empty (x ∷ xs) ys h =
    let rest = difference_empty xs ys (λ p k. h p (ground arith)) in
    let here : contains x ys ≡ true = h x (ground (arith, beq_self x)) in rw here rest

-- Whatever the state, compute_unchoke changes nobody's choking and sends nothing.
pub compute_unchoke_idle :
    (s : InnerTorrentState) (peer_to_tx : PeerToSender) → compute_unchoke s peer_to_tx ≡ (s, [])
unfolding compute_unchoke apply_choking
compute_unchoke_idle s peer_to_tx =
    let interested_peers = peers_that_are_interested s.torrent_state true in
    let unchoked = unchoked_peers s.torrent_state.peers in
    let none_to_unchoke : difference interested_peers (union unchoked interested_peers) ≡ [] =
      difference_empty interested_peers (union unchoked interested_peers)
        (λ p h. ground (arith, contains-union p unchoked interested_peers)) in
    let none_to_choke : difference unchoked (union unchoked interested_peers) ≡ [] =
      difference_empty unchoked (union unchoked interested_peers)
        (λ p h. ground (arith, contains-union p unchoked interested_peers)) in
    rw (none_to_unchoke, none_to_choke, take_nil, compute_unchoke) (ground arith)
