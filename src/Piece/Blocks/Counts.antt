-- ===== src/Piece/Blocks/Counts.antt =====
-- src/peer/state/piece.rs.
-- How many blocks `PieceToBlockMap` has in flight, and which pieces it knows.
use bentorrent.Prelude.{
  ℕ, ◌+◌, ◌≤◌, ◌≡◌, arith, ◌==◌, true, ◌&&◌, ◌||◌, some, [], ◌∷◌, ◌++◌, length, Option-cases, inl,
  inr, not,
}
use bentorrent.Prelude.Eq.{nat_eq}
use bentorrent.Prelude.Maps.{
  Map, lookup, insert, remove, lookup-insert, lookup-remove, sum_values-insert,
  sum_values-remove-le, contains_key, contains-keys, keys,
}
use bentorrent.Prelude.Sets.{contains, contains-append, contains-from_list}
use bentorrent.Torrent.{PeerRequestedPiece}
use bentorrent.Piece.Blocks.{
  BlockDownload, OutstandingBlockRequests, PieceToBlockMap, set_request_finished, or_empty,
  remove_downloading_request, remove_piece, downloading_requests_len, insert_request, pieces,
}

length-insert-le :
    (b : ℕ) (d : BlockDownload) (blocks : OutstandingBlockRequests)
    → length (insert b d blocks) ≤ length blocks + 1
unfolding insert
length-insert-le b d [] = omega arith
length-insert-le b d ((c, e) ∷ blocks) = ground (arith, length-insert-le b d blocks)

length-remove-le :
    (b : ℕ) (blocks : OutstandingBlockRequests) → length (remove b blocks) ≤ length blocks
unfolding remove
length-remove-le b [] = omega arith
length-remove-le b ((c, e) ∷ blocks) = ground (arith, length-remove-le b blocks)

module _ (m : PieceToBlockMap) where
  -- A new request adds at most one block in flight.
  pub downloading_requests_len-insert_request :
      (r : PeerRequestedPiece)
      → downloading_requests_len (insert_request m r) ≤ downloading_requests_len m + 1
  unfolding downloading_requests_len insert_request
  downloading_requests_len-insert_request r =
      let blocks = or_empty (lookup r.index m.downloading) in
      let d : BlockDownload = record { piece_request = r } in
      ground (
        arith,
        sum_values-insert length r.index (insert r.begin d blocks) m.downloading,
        length-insert-le r.begin d blocks,
      )

  pub downloading_requests_len-remove_request :
      (p b : ℕ)
      → downloading_requests_len (remove_downloading_request m p b).0 ≤ downloading_requests_len m
  unfolding downloading_requests_len remove_downloading_request
  downloading_requests_len-remove_request p b = elim (Option-cases (lookup p m.downloading)) [
    | inl e ↦ rw (e, remove_downloading_request) (omega arith)
    | inr (blocks, e) ↦
        rw (e, remove_downloading_request)
          (ground (
            arith,
            e,
            sum_values-insert length p (remove b blocks) m.downloading,
            length-remove-le b blocks,
          ))
  ]

  pub downloading_requests_len-set_request_finished :
      (p b : ℕ)
      → downloading_requests_len (set_request_finished m p b).0 ≤ downloading_requests_len m
  unfolding downloading_requests_len set_request_finished
  downloading_requests_len-set_request_finished p b = elim (Option-cases (lookup p m.downloading)) [
    | inl e ↦ rw (e, set_request_finished) (omega arith)
    | inr (blocks, e) ↦
        rw (e, set_request_finished)
          (ground (
            arith,
            e,
            sum_values-insert length p (remove b blocks) m.downloading,
            length-remove-le b blocks,
          ))
  ]

  pub downloading_requests_len-remove_piece :
      (p : ℕ) → downloading_requests_len (remove_piece m p) ≤ downloading_requests_len m
  unfolding downloading_requests_len remove_piece
  downloading_requests_len-remove_piece p = sum_values-remove-le length p m.downloading

pub contains-pieces :
    (m : PieceToBlockMap) (p : ℕ)
    → contains p (pieces m) ≡ (contains_key p m.downloading || contains_key p m.done)
unfolding pieces
contains-pieces m p = ground (
  arith,
  contains-from_list p (keys m.downloading ++ keys m.done),
  contains-append p (keys m.downloading) (keys m.done),
  contains-keys p m.downloading,
  contains-keys p m.done,
)

contains_key-insert :
    (p q : ℕ) (blocks : OutstandingBlockRequests) (m : Map ℕ OutstandingBlockRequests)
    → contains_key q (insert p blocks m) ≡ ((p == q) || contains_key q m)
contains_key-insert p q blocks m = ground (arith, lookup-insert p q blocks m)

contains_key_of_some :
    {blocks : OutstandingBlockRequests} (q : ℕ) (m : Map ℕ OutstandingBlockRequests)
    → lookup q m ≡ some blocks
    → contains_key q m ≡ true
contains_key_of_some q m e = rw e

module _ (m : PieceToBlockMap) where
  -- Which pieces have an entry, after each operation.
  pub pieces-insert_request :
      (r : PeerRequestedPiece) (p : ℕ)
      → contains p (pieces (insert_request m r)) ≡ ((r.index == p) || contains p (pieces m))
  unfolding insert_request
  pieces-insert_request r p =
      let blocks = or_empty (lookup r.index m.downloading) in
      ground (
        arith,
        contains-pieces (insert_request m r) p,
        contains-pieces m p,
        contains_key-insert r.index p (insert r.begin (record { piece_request = r }) blocks)
            m.downloading,
      )

  pub pieces-remove_request :
      (q b p : ℕ) → contains p (pieces (remove_downloading_request m q b).0) ≡ contains p (pieces m)
  unfolding remove_downloading_request
  pieces-remove_request q b p = elim (Option-cases (lookup q m.downloading)) [
    | inl e ↦ rw (e, remove_downloading_request)
    | inr (blocks, e) ↦
        let m' : PieceToBlockMap = record m {
          downloading = insert q (remove b blocks) m.downloading;
        } in
        rw (e, remove_downloading_request)
          (ground (
            arith,
            contains-pieces m' p,
            contains-pieces m p,
            contains_key-insert q p (remove b blocks) m.downloading,
            contains_key_of_some q m.downloading e,
          ))
  ]

  pub pieces-set_request_finished :
      (q b p : ℕ) → contains p (pieces (set_request_finished m q b).0) ≡ contains p (pieces m)
  unfolding set_request_finished
  pieces-set_request_finished q b p = elim (Option-cases (lookup q m.downloading)) [
    | inl e ↦ rw (e, set_request_finished)
    | inr (blocks, e) ↦ elim (Option-cases (lookup b blocks)) [
      | inl k ↦ rw (e, k, set_request_finished)
      | inr (d, k) ↦
          let finished = insert b d (or_empty (lookup q m.done)) in
          let m' : PieceToBlockMap = record {
            downloading = insert q (remove b blocks) m.downloading;
            done = insert q finished m.done;
          } in
          rw (e, k, set_request_finished)
            (ground (
              arith,
              contains-pieces m' p,
              contains-pieces m p,
              contains_key-insert q p (remove b blocks) m.downloading,
              contains_key-insert q p finished m.done,
              contains_key_of_some q m.downloading e,
            ))
    ]
  ]

  pub pieces-remove_piece :
      (q p : ℕ) → contains p (pieces (remove_piece m q)) ≡ (not (q == p) && contains p (pieces m))
  unfolding remove_piece
  pieces-remove_piece q p = ground (
    arith,
    contains-pieces (remove_piece m q) p,
    contains-pieces m p,
    lookup-remove q p m.downloading,
    lookup-remove q p m.done,
  )
