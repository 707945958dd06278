-- ===== src/Examples/Storage.antt =====
-- src/peer/io/mod.rs and the allocation of src/peer/mod.rs, at concrete inputs.
use bentorrent.Prelude.{suc, zero, ℕ, ◌≡◌, refl, arith, true, false, List, [], ◌∷◌, ◌↔◌, ◌<◌, pos}
use bentorrent.Torrent.{V1Torrent, V1Piece, allocate_torrent}
use bentorrent.Torrent.Layout.{IsWellFormed, sum_pieces}
use bentorrent.Slices.{
  place, look_right, look_left, settle, insert_at, remove_at, new, insert, search, is_complete,
}
use bentorrent.Prelude.{get_elem?, some, ◌⊎◌}
use bentorrent.FileStore.{FilePieceState, piece_to_file}
use bentorrent.FileStore.Offsets.{piece_to_file-start}
use bentorrent.Slices.Cover.{in_blocks, insert_all, is_complete_sound}
use bentorrent.Slices.Exact.{is_complete_iff}
use bentorrent.Slices.Shrink.{insert_uncompletes}

abbrev pub a_piece : V1Piece
a_piece = record { hash = [] }

-- Two pieces of 20000 bytes, the second one cut short to 10000.
abbrev pub short_last : V1Torrent
short_last = record {
  info = record {
    length = pos 30_000;
    piece_length = pos 20_000;
    pieces = a_piece ∷ a_piece ∷ [];
    name = [];
    info_hash = [];
  };
  announce = [];
  announce_list = [];
}

pub short_last-IsWellFormed : IsWellFormed short_last 2 20_000 30_000
short_last-IsWellFormed = record {
  piece_count = refl;
  piece_size = refl;
  total_size = refl;
  some_pieces = omega arith;
  last_starts = omega arith;
  last_ends = omega arith;
  fits = omega arith;
  count_fits = omega arith;
}

-- The outer thirds of a piece of 15 bytes are there.
abbrev outer : List (ℕ × ℕ)
outer = (0, 5) ∷ (10, 15) ∷ []

-- Three blocks, the middle one last.
abbrev thirds : List (ℕ × ℕ)
thirds = (10, 5) ∷ (0, 5) ∷ (5, 5) ∷ []

thirds_complete : is_complete (insert_all (new 15) thirds) ≡ true
unfolding is_complete insert_all insert new place search look_right look_left settle insert_at
    remove_at
thirds_complete = refl

is_complete_sound_example : in_blocks 7 thirds ≡ true
is_complete_sound_example =
    is_complete_sound 15 7 thirds (omega arith) (omega arith, (omega arith, (omega arith, tt)))
      thirds_complete (omega arith)

is_complete_iff_example :
    (is_complete (insert_all (new 15) thirds) ≡ true)
    ↔ ((i : ℕ) → i < 15 → in_blocks i thirds ≡ true)
is_complete_iff_example =
    is_complete_iff 15 thirds (omega arith) (omega arith)
      (omega arith, (omega arith, (omega arith, tt)))
      (
        omega arith,
        λ i h k. refl,
        (omega arith, λ i h k. ground arith, (omega arith, λ i h k. ground arith, tt)),
      )

insert_uncompletes_example : (insert (insert_all (new 15) thirds) 5 5).1 ≡ false
unfolding insert_all new insert
insert_uncompletes_example =
    insert_uncompletes (insert_all (new 15) thirds) 5 5 thirds_complete (omega arith) (omega arith)
      (omega arith)

piece_to_file-start_example :
    (piece : FilePieceState) × (get_elem? (piece_to_file short_last) 1 ≡ some piece)
    × ((piece.start_idx ≡ sum_pieces (allocate_torrent short_last) 1)
        ↔ ((suc zero ≡ 0) ⊎ (piece.size ≡ 20_000)))
piece_to_file-start_example =
    piece_to_file-start short_last 2 20_000 30_000 1 short_last-IsWellFormed (omega arith)
