-- ===== src/Piece/Blocks/Views.antt =====
-- src/peer/state/piece.rs.
-- `PieceToBlockMap` seen as two partial maps from (piece, begin) to requests: what each
-- operation does to them, at every block.
use bentorrent.Prelude.{
  ℕ, ◌≡◌, refl, arith, ◌==◌, if◌then◌else◌, ◌&&◌, none, some, ◌∙◌, Option-cases, inl, inr, ◌⊎◌,
}
use bentorrent.Prelude.Eq.{nat_eq}
use bentorrent.Prelude.Maps.{Map, lookup, insert, remove, lookup-insert, lookup-remove}
use bentorrent.Torrent.{PeerRequestedPiece}
use bentorrent.Piece.Blocks.{
  BlockDownload, OutstandingBlockRequests, PieceToBlockMap, set_request_finished, or_empty,
  remove_downloading_request, remove_piece, insert_request, visit_req_map,
}

-- Writing the blocks of one piece.
visit-insert :
    (m : Map ℕ OutstandingBlockRequests) (blocks : OutstandingBlockRequests) (p q b : ℕ)
    → visit_req_map (insert p blocks m) q b
      ≡ (if p == q then lookup b blocks else visit_req_map m q b)
unfolding visit_req_map
visit-insert m blocks p q b = ground (arith, lookup-insert p q blocks m)

visit-remove :
    (m : Map ℕ OutstandingBlockRequests) (p q b : ℕ)
    → visit_req_map (remove p m) q b ≡ (if p == q then none else visit_req_map m q b)
unfolding visit_req_map
visit-remove m p q b = ground (arith, lookup-remove p q m)

lookup-or_empty :
    (m : Map ℕ OutstandingBlockRequests) (p b : ℕ)
    → lookup b (or_empty (lookup p m)) ≡ visit_req_map m p b
unfolding visit_req_map lookup
lookup-or_empty m p b = ground arith

visit_of_none :
    (m : Map ℕ OutstandingBlockRequests) (p b : ℕ) → lookup p m ≡ none → visit_req_map m p b ≡ none
unfolding visit_req_map
visit_of_none m p b h = ground arith

visit_of_some :
    (m : Map ℕ OutstandingBlockRequests) (p b : ℕ) (blocks : OutstandingBlockRequests)
    → lookup p m ≡ some blocks
    → visit_req_map m p b ≡ lookup b blocks
unfolding visit_req_map
visit_of_some m p b blocks h = ground arith

module _ (m : PieceToBlockMap) where
  pub downloading-insert_request :
      (r : PeerRequestedPiece) (p b : ℕ)
      → visit_req_map (insert_request m r).downloading p b ≡ (
          if (r.index == p) && (r.begin == b)
          then some (record { piece_request = r })
          else visit_req_map m.downloading p b)
  unfolding insert_request
  downloading-insert_request r p b = ground (
    arith,
    visit-insert m.downloading
        (insert r.begin (record { piece_request = r }) (or_empty (lookup r.index m.downloading)))
        r.index p b,
    lookup-insert r.begin b (record { piece_request = r })
        (or_empty (lookup r.index m.downloading)),
    lookup-or_empty m.downloading r.index b,
  )

  pub downloading-remove_downloading_request :
      (p b q c : ℕ)
      → visit_req_map (remove_downloading_request m p b).0.downloading q c
        ≡ (if (p == q) && (b == c) then none else visit_req_map m.downloading q c)
  unfolding remove_downloading_request
  downloading-remove_downloading_request p b q c = elim (Option-cases (lookup p m.downloading)) [
    | inl e ↦ rw (e, remove_downloading_request) (ground (arith, visit_of_none m.downloading p c e))
    | inr (blocks, e) ↦
        rw (e, remove_downloading_request)
          (ground (
            arith,
            visit-insert m.downloading (remove b blocks) p q c,
            lookup-remove b c blocks,
            visit_of_some m.downloading p c blocks e,
          ))
  ]

  pub done-remove_downloading_request :
      (p b : ℕ) → (remove_downloading_request m p b).0.done ≡ m.done
  unfolding remove_downloading_request
  done-remove_downloading_request p b = ground arith

  -- A request that is in flight moves to the blocks done, and no other block changes; for one that
  -- is not in flight nothing changes and the answer is none.
  pub set_request_finished_lem :
      (p b : ℕ)
      → ((visit_req_map m.downloading p b ≡ none) × (set_request_finished m p b ≡ (m, none)))
        ⊎ ((d : BlockDownload) × (visit_req_map m.downloading p b ≡ some d)
            × ((set_request_finished m p b).1 ≡ some tt)
            × ((q c : ℕ)
                → visit_req_map (set_request_finished m p b).0.downloading q c
                  ≡ (if (p == q) && (b == c) then none else visit_req_map m.downloading q c))
            × ((q c : ℕ)
                → visit_req_map (set_request_finished m p b).0.done q c
                  ≡ (if (p == q) && (b == c) then some d else visit_req_map m.done q c)))
  unfolding set_request_finished
  set_request_finished_lem p b = elim (Option-cases (lookup p m.downloading)) [
    | inl e ↦ rw (e, set_request_finished) (inl (visit_of_none m.downloading p b e, refl))
    | inr (blocks, e) ↦ elim (Option-cases (lookup b blocks)) [
      | inl k ↦
          rw (e, k, set_request_finished) (inl (visit_of_some m.downloading p b blocks e ∙ k, refl))
      | inr (d, k) ↦
          rw (e, k, set_request_finished)
            (inr (
              d,
              visit_of_some m.downloading p b blocks e ∙ k,
              refl,
              λ q c. ground (
                arith,
                visit-insert m.downloading (remove b blocks) p q c,
                lookup-remove b c blocks,
                visit_of_some m.downloading p c blocks e,
              ),
              λ q c. ground (
                arith,
                visit-insert m.done (insert b d (or_empty (lookup p m.done))) p q c,
                lookup-insert b c d (or_empty (lookup p m.done)),
                lookup-or_empty m.done p c,
              ),
            ))
    ]
  ]

  pub downloading-remove_piece :
      (p q b : ℕ)
      → visit_req_map (remove_piece m p).downloading q b
        ≡ (if p == q then none else visit_req_map m.downloading q b)
  unfolding remove_piece
  downloading-remove_piece p q b = visit-remove m.downloading p q b

  pub done-remove_piece :
      (p q b : ℕ)
      → visit_req_map (remove_piece m p).done q b
        ≡ (if p == q then none else visit_req_map m.done q b)
  unfolding remove_piece
  done-remove_piece p q b = visit-remove m.done p q b
