-- ===== src/Piece/Allocation/Bounds.antt =====
-- src/peer/state/piece.rs.
-- What an allocation asks for: blocks of the piece that are not in progress, in order, within
-- the capacity; and, if capacity is left over, all of them.
use bentorrent.Prelude.{
  none, some, ◌⊎◌, ℕ, zero, suc, ◌+◌, ◌-◌, ◌*◌, ◌%◌, ◌≤◌, ◌<◌, ◌≡◌, refl, arith, ◌==◌, Bool, true,
  false, ◌||◌, List, [], ◌∷◌, length, inl, inr, All, Bool-cases, u32_mod, to_u32,
}
use bentorrent.Prelude.Maps.{is_some}
use bentorrent.Prelude.Eq.{nat_eq}
use bentorrent.Prelude.Sets.{contains}
use bentorrent.Torrent.{V1Torrent, PeerId, PeerRequestedPiece, piece_block_size}
use bentorrent.Piece.Blocks.{PieceToBlockMap, contains_inprogress}
use bentorrent.Piece.Allocation.{
  new, allocation_size, steps_from, block_begins, block_request, allocate_blocks,
}

-- A begin of a block in a piece of `size` bytes.
abbrev pub IsBegin : ℕ → ℕ → Type 0
IsBegin size b = (b < size) × (b % piece_block_size ≡ 0)

steps_from-IsBegin :
    (size count first : ℕ)
    → first % piece_block_size ≡ 0
    → first + count * piece_block_size < size + piece_block_size
    → All (IsBegin size) (steps_from count first)
unfolding steps_from
steps_from-IsBegin size zero first h k = tt
steps_from-IsBegin size (suc count) first h k = (
  omega arith,
  steps_from-IsBegin size count (first + piece_block_size) (omega arith) (omega arith),
)

pub block_begins-IsBegin : (size : ℕ) → All (IsBegin size) (block_begins size)
unfolding block_begins
block_begins-IsBegin size = steps_from-IsBegin size _ 0 (omega arith) (omega arith)

-- What holds of each request.
pub record IsMissingBlock (peer : PeerId) (p size : ℕ) (m : PieceToBlockMap)
    (r : PeerRequestedPiece) : Type 0 where
  pub of_peer : r.peer_id ≡ peer
  pub of_piece : r.index ≡ p
  pub aligned : r.begin % piece_block_size ≡ 0
  pub not_empty : 0 < r.length
  pub not_long : r.length ≤ piece_block_size
  pub inside : r.begin + r.length ≤ size
  pub full_or_last : (r.length ≡ piece_block_size) ⊎ (r.begin + r.length ≡ size)
  pub missing : is_some (contains_inprogress m p r.begin) ≡ false

block_request-IsMissingBlock :
    (peer : PeerId) (p size : ℕ) (m : PieceToBlockMap) (b : ℕ)
    → size < u32_mod
    → IsBegin size b
    → is_some (contains_inprogress m p (to_u32 b)) ≡ false
    → IsMissingBlock peer p size m (block_request peer p size b)
unfolding block_request
block_request-IsMissingBlock peer p size m b h k miss = record {
  of_peer = refl;
  of_piece = refl;
  aligned = ground arith;
  not_empty = ground arith;
  not_long = ground arith;
  inside = ground arith;
  full_or_last = ground arith;
  missing = miss;
}

-- One of the requests begins at `b`.
abbrev pub requests_begin : ℕ → List PeerRequestedPiece → Bool
requests_begin b [] = false
requests_begin b (r ∷ rs) = (r.begin == b) || requests_begin b rs

module _ (peer : PeerId) (p size : ℕ) (m : PieceToBlockMap) where
  pub allocate_blocks-All :
      (begins : List ℕ) (capacity : ℕ)
      → size < u32_mod
      → All (IsBegin size) begins
      → All (IsMissingBlock peer p size m) (allocate_blocks peer p size m begins capacity).0
  unfolding allocate_blocks
  allocate_blocks-All [] capacity h a = tt
  allocate_blocks-All (b ∷ begins) capacity h a = elim (Bool-cases (capacity == 0)) [
    | inl full ↦ rw full tt
    | inr room ↦ elim (Bool-cases (is_some (contains_inprogress m p (to_u32 b)))) [
      | inl busy ↦ rw (room, busy) (allocate_blocks-All begins capacity h a.1)
      | inr miss ↦
          rw (room, miss)
            (
              block_request-IsMissingBlock peer p size m b h a.0 miss,
              allocate_blocks-All begins (capacity - 1) h a.1,
            )
    ]
  ]

  -- Each request takes one unit of the capacity.
  pub allocate_blocks-capacity :
      (begins : List ℕ) (capacity : ℕ)
      → let made = allocate_blocks peer p size m begins capacity in
        length made.0 + made.1 ≡ capacity
  unfolding allocate_blocks
  allocate_blocks-capacity [] capacity = omega arith
  allocate_blocks-capacity (b ∷ begins) capacity = elim (Bool-cases (capacity == 0)) [
    | inl full ↦ rw full (omega arith)
    | inr room ↦ elim (Bool-cases (is_some (contains_inprogress m p (to_u32 b)))) [
      | inl busy ↦ rw (room, busy) (allocate_blocks-capacity begins capacity)
      | inr miss ↦ rw (room, miss) (ground (arith, allocate_blocks-capacity begins (capacity - 1)))
    ]
  ]

  pub allocate_blocks_complete :
      (begins : List ℕ) (capacity b : ℕ)
      → size < u32_mod
      → All (IsBegin size) begins
      → let made = allocate_blocks peer p size m begins capacity in
        0 < made.1
        → contains b begins ≡ true
        → (is_some (contains_inprogress m p b) || requests_begin b made.0) ≡ true
  unfolding allocate_blocks contains block_request
  allocate_blocks_complete [] capacity b h a left c = cc
  allocate_blocks_complete (c ∷ begins) capacity b h a left e = elim (Bool-cases (capacity == 0)) [
    | inl full ↦ absurd (ground arith)
    | inr room ↦ elim (Bool-cases (is_some (contains_inprogress m p (to_u32 c)))) [
      | inl busy ↦ ground (arith, allocate_blocks_complete begins capacity b)
      | inr miss ↦ ground (arith, miss, allocate_blocks_complete begins (capacity - 1) b)
    ]
  ]

-- Without any bound on the sizes: a request of the piece for a block that is not in progress.
abbrev pub IsNew : ℕ → PieceToBlockMap → PeerRequestedPiece → Type 0
IsNew p m r = (r.index ≡ p) × (is_some (contains_inprogress m p r.begin) ≡ false)

module _ (peer : PeerId) (p size : ℕ) (m : PieceToBlockMap) where
  allocate_blocks-IsNew :
      (begins : List ℕ) (capacity : ℕ)
      → All (IsNew p m) (allocate_blocks peer p size m begins capacity).0
  unfolding allocate_blocks block_request
  allocate_blocks-IsNew [] capacity = tt
  allocate_blocks-IsNew (b ∷ begins) capacity = elim (Bool-cases (capacity == 0)) [
    | inl full ↦ rw full tt
    | inr room ↦ elim (Bool-cases (is_some (contains_inprogress m p (to_u32 b)))) [
      | inl busy ↦ rw (room, busy) (allocate_blocks-IsNew begins capacity)
      | inr miss ↦ rw (room, miss) ((refl, miss), allocate_blocks-IsNew begins (capacity - 1))
    ]
  ]

-- What `PieceBlockAllocation::new` answers, whatever the torrent: with no peer nothing, and
-- otherwise new requests within the capacity.
pub new_answer :
    (p : ℕ) (t : V1Torrent) (peers : List PeerId) (m : PieceToBlockMap) (capacity : ℕ)
    → ((new p t peers m capacity).0 ≡ none)
      ⊎ ((rs : List PeerRequestedPiece) × ((new p t peers m capacity).0 ≡ some rs)
          × All (IsNew p m) rs
          × (length rs ≤ capacity))
unfolding new
new_answer p t [] m capacity = inl refl
new_answer p t (peer ∷ peers) m capacity =
    let size = allocation_size t p in
    inr (
      (allocate_blocks peer p size m (block_begins size) capacity).0,
      refl,
      allocate_blocks-IsNew peer p size m (block_begins size) capacity,
      omega (arith, allocate_blocks-capacity peer p size m (block_begins size) capacity),
    )
