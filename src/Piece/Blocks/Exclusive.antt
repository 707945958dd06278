-- ===== src/Piece/Blocks/Exclusive.antt =====
-- src/peer/state/piece.rs.
-- A block is never in flight and done at once.
use bentorrent.Prelude.{ℕ, ◌≡◌, arith, false, ◌&&◌, inl, inr, refl}
use bentorrent.Prelude.Eq.{nat_eq}
use bentorrent.Prelude.Maps.{is_some, lookup}
use bentorrent.Torrent.{PeerRequestedPiece}
use bentorrent.Piece.Blocks.{
  PieceToBlockMap, visit_req_map, insert_request, set_request_finished, remove_downloading_request,
  remove_piece, empty_blocks,
}
use bentorrent.Piece.Blocks.Views.{
  downloading-insert_request, downloading-remove_downloading_request,
  done-remove_downloading_request, set_request_finished_lem, downloading-remove_piece,
  done-remove_piece,
}

abbrev pub IsExclusive : PieceToBlockMap → Type 0
IsExclusive m =
    (p b : ℕ)
    → (is_some (visit_req_map m.downloading p b) && is_some (visit_req_map m.done p b)) ≡ false

pub empty_blocks-IsExclusive : IsExclusive empty_blocks
unfolding visit_req_map lookup
empty_blocks-IsExclusive p b = refl

done-insert_request :
    (m : PieceToBlockMap) (r : PeerRequestedPiece) → (insert_request m r).done ≡ m.done
unfolding insert_request
done-insert_request m r = refl

module _ (m : PieceToBlockMap) (v : IsExclusive m) where
  pub insert_request-IsExclusive :
      (r : PeerRequestedPiece)
      → is_some (visit_req_map m.done r.index r.begin) ≡ false
      → IsExclusive (insert_request m r)
  insert_request-IsExclusive r h p b =
      rw (done-insert_request m r) (ground (arith, v p b, downloading-insert_request m r p b))

  pub remove_request-IsExclusive : (q c : ℕ) → IsExclusive (remove_downloading_request m q c).0
  remove_request-IsExclusive q c p b =
      rw (done-remove_downloading_request m q c)
        (ground (arith, v p b, downloading-remove_downloading_request m q c p b))

  pub set_request_finished-IsExclusive : (q c : ℕ) → IsExclusive (set_request_finished m q c).0
  set_request_finished-IsExclusive q c p b = elim (set_request_finished_lem m q c) [
    | inl (_, same) ↦ rw same (v p b)
    | inr (d, _, _, left, right) ↦ ground (arith, v p b, left p b, right p b)
  ]

  pub remove_piece-IsExclusive : (q : ℕ) → IsExclusive (remove_piece m q)
  remove_piece-IsExclusive q p b =
      ground (arith, v p b, downloading-remove_piece m q p b, done-remove_piece m q p b)
