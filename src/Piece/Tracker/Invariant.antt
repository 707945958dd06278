-- ===== src/Piece/Tracker/Invariant.antt =====
-- src/peer/state/piece.rs, `PieceBlockTracker`: what every operation of the tracker keeps.
use bentorrent.Prelude.{
  All-mono, ℕ, zero, suc, ◌+◌, ◌≤◌, ◌<◌, ◌≡◌, refl, arith, ◌==◌, Bool, true, false, ◌||◌, not, List,
  [], ◌∷◌, length, inl, inr, All, usize_mod, u32_mod, is_empty, sub_usize,
}
use bentorrent.Prelude.Eq.{nat_eq}
use bentorrent.Prelude.Sets.{contains, contains-insert, contains-remove, contains-from_list}
use bentorrent.Prelude.Maps.{Map, is_some, sum_values}
use bentorrent.Torrent.{V1Torrent, V1Piece, PeerId, PeerRequestedPiece}
use bentorrent.Piece.Blocks
use bentorrent.Piece.Blocks.{
  PieceToBlockMap, BlockDownload, visit_req_map, contains_inprogress, pieces, insert_request,
}
use bentorrent.Piece.Blocks.Counts
use bentorrent.Piece.Blocks.Exclusive.{IsExclusive}
use bentorrent.Piece.Blocks.Exclusive
use bentorrent.Piece.Expiry.{InprogressPieceToBlockMap, insert_started}
use bentorrent.Piece.Expiry.Removal.{remove_expired-Expires}
use bentorrent.Piece.Allocation.Bounds.{IsNew, new_answer}
use bentorrent.Piece.Tracker.{
  PieceBlockTracker, started, new, piece_ids, downloading_requests_len, remove_request,
  set_request_finished, set_piece_finished, remove_expired, insert_all, start_requests,
  assign_piece, generate_assignments,
}

-- The piece is not started, in progress or completed.
abbrev pub knows : PieceBlockTracker → ℕ → Bool
knows t p =
    contains p t.pieces_not_started
    || contains p (pieces (started t))
    || contains p t.pieces_completed

-- At most `max_outstanding_requests` blocks are in flight, none of them is done, and each of the
-- `n` pieces is accounted for.
pub record Inv (n : ℕ) (t : PieceBlockTracker) : Type 0 where
  pub fits : t.max_outstanding_requests < usize_mod
  pub bounded : downloading_requests_len t ≤ t.max_outstanding_requests
  pub exclusive : IsExclusive (started t)
  pub known : (p : ℕ) → p < n → knows t p ≡ true

piece_ids-contains :
    (n first p : ℕ)
    → first + n ≤ u32_mod
    → first ≤ p
    → p < first + n
    → contains p (piece_ids n first) ≡ true
unfolding piece_ids contains
piece_ids-contains zero first p h k l = absurd (omega arith)
piece_ids-contains (suc n) first p h k l = ground (arith, piece_ids-contains n (suc first) p)

new_downloading : (max : ℕ) (ps : List V1Piece) → downloading_requests_len (new max ps) ≤ max
unfolding new downloading_requests_len Blocks.downloading_requests_len sum_values
new_downloading max ps = omega arith

pub new-Inv :
    (max : ℕ) (ps : List V1Piece)
    → max < usize_mod
    → length ps ≤ u32_mod
    → Inv (length ps) (new max ps)
unfolding new
new-Inv max ps h k = record {
  fits = h;
  bounded = new_downloading max ps;
  exclusive = Exclusive.empty_blocks-IsExclusive;
  known = λ p l.
      ground
        (arith, contains-from_list p (piece_ids (length ps) 0), piece_ids-contains (length ps) 0 p);
}

module _ (n : ℕ) (t : PieceBlockTracker) (v : Inv n t) where
  pub set_request_finished-Inv : (p b : ℕ) → Inv n (set_request_finished t p b).0
  unfolding set_request_finished downloading_requests_len
  set_request_finished-Inv p b = record {
    fits = v.fits;
    bounded =
        omega
          (arith, v.bounded, Counts.downloading_requests_len-set_request_finished (started t) p b);
    exclusive = Exclusive.set_request_finished-IsExclusive (started t) v.exclusive p b;
    known =
        λ q l. ground (arith, v.known q l, Counts.pieces-set_request_finished (started t) p b q);
  }

  pub remove_request-Inv : (req : PeerRequestedPiece) → Inv n (remove_request t req).0
  unfolding remove_request downloading_requests_len
  remove_request-Inv req = record {
    fits = v.fits;
    bounded = omega (
      arith,
      v.bounded,
      Counts.downloading_requests_len-remove_request (started t) req.index req.begin,
    );
    exclusive = Exclusive.remove_request-IsExclusive (started t) v.exclusive req.index req.begin;
    known = λ q l.
        ground (arith, v.known q l, Counts.pieces-remove_request (started t) req.index req.begin q);
  }

  pub set_piece_finished-Inv : (p : ℕ) → Inv n (set_piece_finished t p)
  unfolding set_piece_finished downloading_requests_len
  set_piece_finished-Inv p = record {
    fits = v.fits;
    bounded = omega (arith, v.bounded, Counts.downloading_requests_len-remove_piece (started t) p);
    exclusive = Exclusive.remove_piece-IsExclusive (started t) v.exclusive p;
    known = λ q l. ground (
      arith,
      v.known q l,
      Counts.pieces-remove_piece (started t) p q,
      contains-insert p q t.pieces_completed,
    );
  }

  pub remove_expired-Inv : (now : ℕ) → Inv n (remove_expired t now).0
  unfolding remove_expired downloading_requests_len
  remove_expired-Inv now =
      let e = remove_expired-Expires t.piece_to_blocks_outstanding now t.request_timeout in
      record {
        fits = v.fits;
        bounded = omega (arith, v.bounded, e.no_more);
        exclusive = λ p b. rw e.kept (ground (arith, v.exclusive p b, e.dropped p b));
        known = λ q l. ground (arith, v.known q l, e.same_pieces q);
      }

-- The piece has one of the requests.
abbrev names : ℕ → List PeerRequestedPiece → Bool
names p [] = false
names p (r ∷ rs) = (r.index == p) || names p rs

abbrev IsNotDone : PieceToBlockMap → PeerRequestedPiece → Type 0
IsNotDone m r = is_some (visit_req_map m.done r.index r.begin) ≡ false

IsNotDone-of_new :
    (p : ℕ) (m : PieceToBlockMap) (r : PeerRequestedPiece) → IsNew p m r → IsNotDone m r
unfolding contains_inprogress
IsNotDone-of_new p m r (e, h) = rw e (ground (arith, h))

names_of_new :
    (p : ℕ) (m : PieceToBlockMap) (rs : List PeerRequestedPiece)
    → All (IsNew p m) rs
    → names p rs ≡ not (is_empty rs)
names_of_new p m [] h = refl
names_of_new p m (r ∷ rs) h = ground (arith, h.0.0)

module _ (now : ℕ) where
  insert_all-downloading_requests_len :
      (rs : List PeerRequestedPiece) (m : InprogressPieceToBlockMap)
      → Blocks.downloading_requests_len (insert_all m now rs).piece_to_blocks_started
        ≤ Blocks.downloading_requests_len m.piece_to_blocks_started + length rs
  unfolding insert_all insert_started
  insert_all-downloading_requests_len [] m = omega arith
  insert_all-downloading_requests_len (r ∷ rs) m = omega (
    arith,
    insert_all-downloading_requests_len rs (insert_started m now r),
    Counts.downloading_requests_len-insert_request m.piece_to_blocks_started r,
  )

  insert_all-IsExclusive :
      (rs : List PeerRequestedPiece) (m : InprogressPieceToBlockMap)
      → IsExclusive m.piece_to_blocks_started
      → All (IsNotDone m.piece_to_blocks_started) rs
      → IsExclusive (insert_all m now rs).piece_to_blocks_started
  unfolding insert_all insert_started insert_request
  insert_all-IsExclusive [] m v h = v
  insert_all-IsExclusive (r ∷ rs) m v h =
      insert_all-IsExclusive rs (insert_started m now r)
        (Exclusive.insert_request-IsExclusive m.piece_to_blocks_started v r h.0) h.1

  insert_all-pieces :
      (p : ℕ) (rs : List PeerRequestedPiece) (m : InprogressPieceToBlockMap)
      → contains p (pieces (insert_all m now rs).piece_to_blocks_started)
        ≡ (names p rs || contains p (pieces m.piece_to_blocks_started))
  unfolding insert_all insert_started
  insert_all-pieces p [] m = refl
  insert_all-pieces p (r ∷ rs) m = ground (
    arith,
    insert_all-pieces p rs (insert_started m now r),
    Counts.pieces-insert_request m.piece_to_blocks_started r p,
  )

start_requests-Inv :
    (n p now : ℕ) (t : PieceBlockTracker) (rs : List PeerRequestedPiece)
    → Inv n t
    → All (IsNew p (started t)) rs
    → downloading_requests_len t + length rs ≤ t.max_outstanding_requests
    → Inv n (start_requests t p now rs)
unfolding start_requests downloading_requests_len
start_requests-Inv n p now t rs v h k = record {
  fits = v.fits;
  bounded =
      omega (arith, k, insert_all-downloading_requests_len now rs t.piece_to_blocks_outstanding);
  exclusive =
      insert_all-IsExclusive now rs t.piece_to_blocks_outstanding v.exclusive
        (All-mono _ _ (IsNotDone-of_new p (started t)) rs h);
  known = λ q l. ground (
    arith,
    v.known q l,
    insert_all-pieces now q rs t.piece_to_blocks_outstanding,
    names_of_new p (started t) rs h,
    contains-remove p q t.pieces_not_started,
  );
}

assign_piece-Inv :
    (n p now : ℕ) (t : PieceBlockTracker) (torrent : V1Torrent) (peers : List PeerId)
    → Inv n t
    → Inv n (assign_piece t torrent p peers now).0
unfolding assign_piece
assign_piece-Inv n p now t torrent peers v =
    let capacity = sub_usize t.max_outstanding_requests (downloading_requests_len t) in
    elim (new_answer p torrent peers (started t) capacity) [
      | inl e ↦ rw (e, assign_piece) v
      | inr (rs, e, fresh, few) ↦
          rw (e, assign_piece)
            (start_requests-Inv n p now t rs v fresh (omega (arith, v.bounded, v.fits, few)))
    ]

pub generate_assignments-Inv :
    (n : ℕ) (now : ℕ → ℕ) (torrent : V1Torrent) (available : Map ℕ (List PeerId))
    (t : PieceBlockTracker)
    → Inv n t
    → Inv n (generate_assignments t torrent available now).0
unfolding generate_assignments
generate_assignments-Inv n now torrent [] t v = v
generate_assignments-Inv n now torrent ((p, peers) ∷ available) t v =
    generate_assignments-Inv n now torrent available (assign_piece t torrent p peers (now p)).0
      (assign_piece-Inv n p (now p) t torrent peers v)
