-- ===== src/FileStore/Offsets.antt =====
-- src/peer/io/file.rs, `FileTorrentIO::new`: which pieces begin where the pieces before them end.
use bentorrent.Prelude.{
  get_elem?-some, ℕ, zero, suc, ◌+◌, ◌-◌, ◌*◌, ◌<◌, ◌≤◌, ◌≡◌, ◌↔◌, ◌⊎◌, refl, ap, ◌∙◌, arith, inl,
  inr, lt-or-le, List, [], ◌∷◌, some, get_elem?, mul_usize,
}
use bentorrent.Torrent.{V1Piece, V1Torrent, TorrentAllocation, allocate_torrent, piece_len}
use bentorrent.Torrent.Layout.{
  IsWellFormed, sum_pieces, sum_pieces_inner, piece_len_inner, piece_len_last,
}
use bentorrent.FileStore.{new, FilePieceState, file_piece, pieces_from, piece_to_file}

pieces_from-at :
    (a : TorrentAllocation) (first i : ℕ) (ps : List V1Piece) (p : V1Piece)
    → get_elem? ps i ≡ some p
    → get_elem? (pieces_from a first ps) i ≡ some (file_piece a (first + i) p)
unfolding pieces_from
pieces_from-at a first i [] p e = cc
pieces_from-at a first zero (q ∷ ps) p e =
    let same : q ≡ p = cc in
    let index : first ≡ first + 0 = omega arith in
    ap (λ x. some (file_piece a first x)) same ∙ ap (λ k. some (file_piece a k p)) index
pieces_from-at a first (suc i) (q ∷ ps) p e =
    let index : suc first + i ≡ first + suc i = omega arith in
    pieces_from-at a (suc first) i ps p e ∙ ap (λ k. some (file_piece a k p)) index

-- The product of a piece's length and its index, for the pieces of a well formed torrent.
times_le : (l size k : ℕ) → l ≤ size → l * k ≤ k * size
times_le l size zero h = omega arith
times_le l size (suc k) h = grind (arith, times_le l size k h)

times_lt : (l size k : ℕ) → l < size → l * suc k < suc k * size
times_lt l size zero h = omega arith
times_lt l size (suc k) h = grind (arith, times_lt l size k h)

times_iff : (l size k : ℕ) → l ≤ size → (l * k ≡ k * size) ↔ ((k ≡ 0) ⊎ (l ≡ size))
times_iff l size zero h = (λ e. inl refl, λ e. omega arith)
times_iff l size (suc k) h = (
  λ e. inr (elim (lt-or-le l size) [
    | inl less ↦ absurd (omega (arith, e, times_lt l size k less))
    | inr same ↦ omega arith
  ]),
  λ c. elim c [ inl z ↦ absurd (omega arith) | inr e ↦ rw e (grind arith) ],
)

scale : (i j size : ℕ) → i ≤ j → i * size ≤ j * size
scale zero j size h = omega arith
scale (suc i) zero size h = absurd (omega arith)
scale (suc i) (suc j) size h = grind (arith, scale i j size)

piece_len-short :
    (t : V1Torrent) (n size total idx : ℕ)
    → IsWellFormed t n size total
    → idx < n
    → piece_len (allocate_torrent t) idx ≤ size
piece_len-short t n size total idx w h = elim (lt-or-le idx (n - 1)) [
  | inl inner ↦ omega (arith, piece_len_inner t n size total idx w inner)
  | inr last ↦
      let here : idx ≡ n - 1 = omega arith in
      rw here (omega (arith, piece_len_last t n size total w, w.last_ends))
]

start_iff :
    (t : V1Torrent) (n size total idx : ℕ)
    → IsWellFormed t n size total
    → idx < n
    → (mul_usize (piece_len (allocate_torrent t) idx) idx ≡ sum_pieces (allocate_torrent t) idx)
      ↔ ((idx ≡ 0) ⊎ (piece_len (allocate_torrent t) idx ≡ size))
start_iff t n size total idx w h =
    let l = piece_len (allocate_torrent t) idx in
    let short : l ≤ size = piece_len-short t n size total idx w h in
    let before : sum_pieces (allocate_torrent t) idx ≡ idx * size =
      sum_pieces_inner t n size total idx w (omega arith) in
    let bound : idx * size < total =
      omega (arith, scale idx (n - 1) size (omega arith), w.last_starts) in
    let exact : mul_usize l idx ≡ l * idx =
      omega (arith, times_le l size idx short, bound, w.fits) in
    rw (exact, before) (times_iff l size idx short)

-- In a well formed torrent of n pieces, the offset that the file store gives to a piece is the sum
-- of the lengths of the pieces before it exactly if it is the first piece or has the full piece
-- length.
pub piece_to_file-start :
    (t : V1Torrent) (n size total idx : ℕ)
    → IsWellFormed t n size total
    → idx < n
    → (piece : FilePieceState) × (get_elem? (piece_to_file t) idx ≡ some piece)
      × ((piece.start_idx ≡ sum_pieces (allocate_torrent t) idx)
          ↔ ((idx ≡ 0) ⊎ (piece.size ≡ size)))
unfolding piece_to_file file_piece new
piece_to_file-start t n size total idx w h =
    let (p, e) = get_elem?-some t.info.pieces idx (omega (arith, w.piece_count)) in
    (
      file_piece (allocate_torrent t) idx p,
      pieces_from-at (allocate_torrent t) 0 idx t.info.pieces p e
          ∙ ap (λ k. some (file_piece (allocate_torrent t) k p)) (omega arith),
      start_iff t n size total idx w h,
    )
