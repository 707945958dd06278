-- ===== src/Peers/Mirror.antt =====
-- src/peer/state/mod.rs, `PeerPieceMap`.
-- The two directions of `PeerPieceMap` stay one relation between peers and pieces.
use bentorrent.Prelude.{
  ℕ, ◌≡◌, refl, arith, ◌==◌, Bool, ◌&&◌, ◌||◌, not, List, [], ◌∷◌, Option-cases, inl, inr,
}
use bentorrent.Prelude.Eq.{nat_eq, list_eq}
use bentorrent.Prelude.Sets.{
  contains, contains-insert, contains-remove, contains-select, intersection,
}
use bentorrent.Prelude.Sets
use bentorrent.Prelude.Maps.{Map, lookup, lookup-insert, lookup-remove}
use bentorrent.Torrent.{PeerId}
use bentorrent.Peers.{
  forget_piece, PeerPieceMap, empty_peer_map, or_empty, peer_interest, add_piece,
  get_peers_with_piece, forget, remove_peer,
}

abbrev pub same_peer : PeerId → PeerId → Bool
same_peer = list_eq.beq

-- The peer's own entry has the piece.
unfoldable pub has_piece : PeerPieceMap → PeerId → ℕ → Bool
has_piece m peer piece = contains piece (or_empty (lookup peer m.peers_to_pieces))

-- The piece's entry has the peer.
unfoldable pub is_listed : PeerPieceMap → ℕ → PeerId → Bool
is_listed m piece peer = contains peer (or_empty (lookup piece m.pieces_to_peers))

abbrev pub IsMirrored : PeerPieceMap → Type 0
IsMirrored m = (peer : PeerId) (piece : ℕ) → has_piece m peer piece ≡ is_listed m piece peer

pub empty-IsMirrored : IsMirrored empty_peer_map
unfolding has_piece is_listed lookup contains
empty-IsMirrored peer piece = refl

module _ (m : PeerPieceMap) (peer : PeerId) (piece : ℕ) where
  pub has_piece-add_piece :
      (q : PeerId) (x : ℕ)
      → has_piece (add_piece m peer piece) q x
        ≡ ((same_peer peer q && (piece == x)) || has_piece m q x)
  unfolding has_piece add_piece
  has_piece-add_piece q x =
      let old = or_empty (lookup peer m.peers_to_pieces) in
      ground (
        arith,
        lookup-insert peer q (Sets.insert piece old) m.peers_to_pieces,
        contains-insert piece x old,
        list_eq.beq_iff peer q,
      )

  pub is_listed-add_piece :
      (x : ℕ) (q : PeerId)
      → is_listed (add_piece m peer piece) x q
        ≡ ((same_peer peer q && (piece == x)) || is_listed m x q)
  unfolding is_listed add_piece
  is_listed-add_piece x q =
      let old = or_empty (lookup piece m.pieces_to_peers) in
      ground (
        arith,
        lookup-insert piece x (Sets.insert peer old) m.pieces_to_peers,
        contains-insert peer q old,
        list_eq.beq_iff peer q,
      )

  pub add_piece-IsMirrored : IsMirrored m → IsMirrored (add_piece m peer piece)
  add_piece-IsMirrored v q x =
      ground (arith, v q x, has_piece-add_piece q x, is_listed-add_piece x q)

listed : Map ℕ (List PeerId) → ℕ → PeerId → Bool
listed m x q = contains q (or_empty (lookup x m))

forget_piece-listed :
    (peer : PeerId) (b : ℕ) (m : Map ℕ (List PeerId)) (x : ℕ) (q : PeerId)
    → listed (forget_piece peer b m) x q ≡ (not (same_peer peer q && (b == x)) && listed m x q)
unfolding forget_piece listed contains
forget_piece-listed peer b m x q = elim (Option-cases (lookup b m)) [
  | inl e ↦ rw (e, forget_piece) (ground (arith, e))
  | inr (peers, e) ↦
      rw (e, forget_piece)
        (ground
          (arith, e, lookup-insert b x (Sets.remove peer peers) m, contains-remove peer q peers))
]

forget-listed :
    (peer : PeerId) (blocks : List ℕ) (m : Map ℕ (List PeerId)) (x : ℕ) (q : PeerId)
    → listed (forget peer blocks m) x q
      ≡ (not (same_peer peer q && contains x blocks) && listed m x q)
unfolding forget contains
forget-listed peer [] m x q = ground arith
forget-listed peer (b ∷ blocks) m x q =
    ground (
      arith,
      forget-listed peer blocks (forget_piece peer b m) x q,
      forget_piece-listed peer b m x q,
    )

-- A peer that leaves is forgotten in both directions, and nothing else is.
module _ (m : PeerPieceMap) (v : IsMirrored m) (peer : PeerId) where
  pub has_piece-remove_peer :
      (q : PeerId) (x : ℕ)
      → has_piece (remove_peer m peer) q x ≡ (not (same_peer peer q) && has_piece m q x)
  unfolding remove_peer has_piece contains
  has_piece-remove_peer q x = elim (Option-cases (lookup peer m.peers_to_pieces)) [
    | inl e ↦ rw (e, remove_peer) (ground (arith, e, list_eq.beq_iff peer q))
    | inr (blocks, e) ↦
        rw (e, remove_peer)
          (ground (arith, lookup-remove peer q m.peers_to_pieces, list_eq.beq_iff peer q))
  ]

  pub is_listed-remove_peer :
      (x : ℕ) (q : PeerId)
      → is_listed (remove_peer m peer) x q ≡ (not (same_peer peer q) && is_listed m x q)
  unfolding remove_peer is_listed listed
  is_listed-remove_peer x q = elim (Option-cases (lookup peer m.peers_to_pieces)) [
    | inl e ↦
        rw (e, remove_peer)
          (unfold has_piece contains in ground (arith, e, v q x, list_eq.beq_iff peer q))
    | inr (blocks, e) ↦
        rw (e, remove_peer)
          (unfold has_piece in
            ground (
              arith,
              e,
              forget-listed peer blocks m.pieces_to_peers x q,
              v q x,
              list_eq.beq_iff peer q,
            ))
  ]

  -- If the two directions of the peer-piece map agree, they agree after a peer is removed.
  pub remove_peer-IsMirrored : IsMirrored (remove_peer m peer)
  remove_peer-IsMirrored q x =
      ground (arith, v q x, has_piece-remove_peer q x, is_listed-remove_peer x q)

pub contains-get_peers_with_piece :
    (m : PeerPieceMap) (x : ℕ) (q : PeerId)
    → contains q (get_peers_with_piece m x) ≡ is_listed m x q
unfolding get_peers_with_piece is_listed
contains-get_peers_with_piece m x q = ground arith

pub contains-peer_interest :
    (m : PeerPieceMap) (q : PeerId) (xs : List ℕ) (x : ℕ)
    → contains x (peer_interest m q xs) ≡ (has_piece m q x && contains x xs)
unfolding peer_interest has_piece
contains-peer_interest m q xs x = elim (Option-cases (lookup q m.peers_to_pieces)) [
  | inl e ↦ rw (e, peer_interest) (unfold contains in ground (arith, e))
  | inr (ys, e) ↦
      rw (e, peer_interest) (ground (arith, e, contains-select (λ y. contains y ys) x xs))
]
