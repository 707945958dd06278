-- ===== src/State/Interest.antt =====
-- src/peer/state/mod.rs, `TorrentState`.
-- What a Have or BitField message changes: the pieces of the peer, and our interest in it.
use bentorrent.Prelude.{
  if◌then◌else◌, some, ◌⊎◌, none, Bool, Option, ◌↔◌, ℕ, ◌≡◌, refl, arith, true, false, ◌&&◌, ◌||◌,
  List, [], ◌∷◌, is_empty,
}
use bentorrent.Prelude.Eq.{nat_eq, list_eq}
use bentorrent.Prelude.Sets.{contains}
use bentorrent.Torrent.{PeerId}
use bentorrent.Piece.Tracker.{PieceBlockTracker}
use bentorrent.Peers.Mirror.{
  same_peer, has_piece, IsMirrored, has_piece-add_piece, add_piece-IsMirrored,
  contains-peer_interest,
}
use bentorrent.Peers.{PeerPieceMap, add_piece, peer_interest}
use bentorrent.State.{bool_eq, add_pieces_for_peer, TorrentState, add_pieces, is_interesting}

contains_of_not_empty : (xs : List ℕ) → is_empty xs ≡ false → (x : ℕ) × (contains x xs ≡ true)
unfolding contains
contains_of_not_empty [] h = absurd (ground arith)
contains_of_not_empty (x ∷ xs) h = (x, ground arith)

not_empty_of_contains : (x : ℕ) (xs : List ℕ) → contains x xs ≡ true → is_empty xs ≡ false
unfolding contains
not_empty_of_contains x [] h = cc
not_empty_of_contains x (y ∷ xs) h = refl

has_piece-add_pieces :
    (p : PeerId) (xs : List ℕ) (m : PeerPieceMap) (q : PeerId) (x : ℕ)
    → has_piece (add_pieces m p xs) q x ≡ ((same_peer p q && contains x xs) || has_piece m q x)
unfolding add_pieces contains
has_piece-add_pieces p [] m q x = ground arith
has_piece-add_pieces p (y ∷ xs) m q x =
    ground (arith, has_piece-add_pieces p xs (add_piece m p y) q x, has_piece-add_piece m p y q x)

add_pieces-IsMirrored :
    (p : PeerId) (xs : List ℕ) (m : PeerPieceMap) → IsMirrored m → IsMirrored (add_pieces m p xs)
unfolding add_pieces
add_pieces-IsMirrored p [] m v = v
add_pieces-IsMirrored p (y ∷ xs) m v =
    add_pieces-IsMirrored p xs (add_piece m p y) (add_piece-IsMirrored m p y v)

-- A piece of the peer that is not started.
abbrev pub IsWanted : PieceBlockTracker → PeerPieceMap → PeerId → ℕ → Type 0
IsWanted t m p x = (has_piece m p x ≡ true) × (contains x t.pieces_not_started ≡ true)

interesting_of_wanted :
    (t : PieceBlockTracker) (m : PeerPieceMap) (p : PeerId) (x : ℕ)
    → IsWanted t m p x
    → is_interesting t m p ≡ true
unfolding is_interesting
interesting_of_wanted t m p x w = ground (
  arith,
  not_empty_of_contains x (peer_interest m p t.pieces_not_started),
  contains-peer_interest m p t.pieces_not_started x,
)

IsWanted-of_interesting :
    (t : PieceBlockTracker) (m : PeerPieceMap) (p : PeerId)
    → is_interesting t m p ≡ true
    → (x : ℕ) × IsWanted t m p x
unfolding is_interesting
IsWanted-of_interesting t m p h =
    let (x, c) = contains_of_not_empty (peer_interest m p t.pieces_not_started) (ground arith) in
    let e = contains-peer_interest m p t.pieces_not_started x in (x, (ground arith, ground arith))

-- We are interested in a peer exactly if it has a piece that is not started.
pub is_interesting_iff :
    (t : PieceBlockTracker) (m : PeerPieceMap) (p : PeerId)
    → (is_interesting t m p ≡ true) ↔ ((x : ℕ) × IsWanted t m p x)
is_interesting_iff t m p =
    (IsWanted-of_interesting t m p, λ (x, w). interesting_of_wanted t m p x w)

-- More pieces never end an interest.
interesting-add_pieces :
    (t : PieceBlockTracker) (m : PeerPieceMap) (p : PeerId) (xs : List ℕ)
    → is_interesting t m p ≡ true
    → is_interesting t (add_pieces m p xs) p ≡ true
interesting-add_pieces t m p xs h =
    let (x, w) = IsWanted-of_interesting t m p h in
    interesting_of_wanted t (add_pieces m p xs) p x
      (ground (arith, w.0, has_piece-add_pieces p xs m p x), w.1)

add_pieces_for_peer_parts :
    (s : TorrentState) (p : PeerId) (xs : List ℕ)
    → let r = add_pieces_for_peer s p xs in
      let t = s.piece_block_tracking in
      let before = is_interesting t s.block_peer_map p in
      let after = is_interesting t (add_pieces s.block_peer_map p xs) p in
      (r.0.block_peer_map ≡ add_pieces s.block_peer_map p xs)
      × (r.0.piece_block_tracking ≡ t)
      × (r.1 ≡ (if bool_eq before after then none else some after))
unfolding add_pieces_for_peer
add_pieces_for_peer_parts s p xs = ground arith

-- What a Have or a BitField message does.
pub record Announces (s : TorrentState) (p : PeerId) (xs : List ℕ) (r : TorrentState × Option Bool)
    : Type 0 where
  pub pieces :
      (q : PeerId) (x : ℕ)
      → has_piece r.0.block_peer_map q x
        ≡ ((same_peer p q && contains x xs) || has_piece s.block_peer_map q x)
  pub mirrored : IsMirrored s.block_peer_map → IsMirrored r.0.block_peer_map
  pub same_tracking : r.0.piece_block_tracking ≡ s.piece_block_tracking
  pub answers : (r.1 ≡ none) ⊎ (r.1 ≡ some true)
  pub answers_iff : (r.1 ≡ some true) ↔ (
      (is_interesting s.piece_block_tracking s.block_peer_map p ≡ false)
      × (is_interesting s.piece_block_tracking r.0.block_peer_map p ≡ true))

-- After announced pieces are added, the peer has gained them and no other peer has. The answer is
-- that our interest has risen exactly if no piece of the peer was wanted before and one is now;
-- otherwise there is no answer, so interest never falls. A mirrored map stays mirrored, and the
-- tracker is unchanged.
pub add_pieces_for_peer-Announces :
    (s : TorrentState) (p : PeerId) (xs : List ℕ) → Announces s p xs (add_pieces_for_peer s p xs)
add_pieces_for_peer-Announces s p xs =
    let parts = add_pieces_for_peer_parts s p xs in
    let kept = interesting-add_pieces s.piece_block_tracking s.block_peer_map p xs in
    record {
      pieces = λ q x. rw parts.0 (has_piece-add_pieces p xs s.block_peer_map q x);
      mirrored = λ v. rw parts.0 (add_pieces-IsMirrored p xs s.block_peer_map v);
      same_tracking = parts.1;
      answers = ground (arith, parts.2, kept);
      answers_iff = rw parts.0 (ground (arith, parts.2, kept), ground (arith, parts.2, kept));
    }
