-- ===== src/Torrent/Layout.antt =====
-- src/peer/mod.rs, `TorrentAllocation`.
-- The pieces of a well formed torrent: sizes, and that they add up to its length.
use bentorrent.Prelude.{ℕ, zero, suc, ◌+◌, ◌-◌, ◌*◌, ◌^◌, ◌≤◌, ◌<◌, ◌≡◌, refl, arith, pos, length}
use bentorrent.Torrent.{V1Torrent, TorrentAllocation, allocate_torrent, piece_len}

-- A torrent of `n` pieces of `size` bytes, the last of them not empty and no longer than the rest.
pub record IsWellFormed (t : V1Torrent) (n size total : ℕ) : Type 0 where
  pub piece_count : length t.info.pieces ≡ n
  pub piece_size : t.info.piece_length ≡ pos size
  pub total_size : t.info.length ≡ pos total
  pub some_pieces : 0 < n
  pub last_starts : (n - 1) * size < total
  pub last_ends : total ≤ (n - 1) * size + size
  pub fits : total < 2 ^ 63
  pub count_fits : n < 2 ^ 32

-- The allocation in plain arithmetic: nothing wraps.
pub allocate_torrent_fields :
    (t : V1Torrent) (n size total : ℕ)
    → IsWellFormed t n size total
    → ((allocate_torrent t).total_pieces ≡ n)
      × ((allocate_torrent t).max_piece_size ≡ size)
      × ((allocate_torrent t).last_piece_size ≡ total - (n - 1) * size)
unfolding allocate_torrent
allocate_torrent_fields t n size total w =
    rw (w.piece_count, w.piece_size, w.total_size)
      (refl, refl, grind (arith, w.last_starts, w.fits, w.count_fits, w.some_pieces))

-- The bytes before piece `idx`.
unfoldable pub sum_pieces : TorrentAllocation → ℕ → ℕ
sum_pieces a zero = 0
sum_pieces a (suc n) = sum_pieces a n + piece_len a n

pub piece_len_inner :
    (t : V1Torrent) (n size total idx : ℕ)
    → IsWellFormed t n size total
    → idx < n - 1
    → piece_len (allocate_torrent t) idx ≡ size
unfolding piece_len
piece_len_inner t n size total idx w h = ground (arith, allocate_torrent_fields t n size total w)

pub piece_len_last :
    (t : V1Torrent) (n size total : ℕ)
    → IsWellFormed t n size total
    → piece_len (allocate_torrent t) (n - 1) ≡ total - (n - 1) * size
unfolding piece_len
piece_len_last t n size total w = ground (arith, allocate_torrent_fields t n size total w)

pub sum_pieces_inner :
    (t : V1Torrent) (n size total k : ℕ)
    → IsWellFormed t n size total
    → k ≤ n - 1
    → sum_pieces (allocate_torrent t) k ≡ k * size
unfolding sum_pieces
sum_pieces_inner t n size total zero w h = omega arith
sum_pieces_inner t n size total (suc k) w h = grind (
  arith,
  sum_pieces_inner t n size total k w (omega arith),
  piece_len_inner t n size total k w (omega arith),
)

-- In a well formed torrent the piece lengths add up to its length.
pub sum_pieces-total :
    (t : V1Torrent) (n size total : ℕ)
    → IsWellFormed t n size total
    → sum_pieces (allocate_torrent t) n ≡ total
unfolding sum_pieces
sum_pieces-total t zero size total w = absurd (omega (arith, w.some_pieces))
sum_pieces-total t (suc k) size total w = grind (
  arith,
  w.last_starts,
  sum_pieces_inner t (suc k) size total k w (omega arith),
  piece_len_last t (suc k) size total w,
)
