-- ===== src/Piece/Expiry/Stale.antt =====
-- src/peer/state/piece.rs, `InprogressPieceToBlockMap`: the queue entry of a request that was
-- dropped and made again.
use bentorrent.Prelude.{some, ◌∙◌, ℕ, ◌+◌, ◌-◌, ◌<◌, ◌≡◌, refl, arith, leb, true, false, [], ◌∷◌}
use bentorrent.Prelude.Eq.{nat_eq}
use bentorrent.Torrent.{PeerRequestedPiece}
use bentorrent.Piece.Blocks.Views.{downloading-insert_request}
use bentorrent.Piece.Expiry.Removal.{take_request_found}
use bentorrent.Piece.Blocks.{empty_blocks, remove_downloading_request, insert_request}
use bentorrent.Piece.Expiry.{
  InprogressPieceToBlockMap, empty_inprogress, insert_started, remove_expired, expire, take_request,
}

-- A request is made at `t0`, dropped, and made again at `t1`.
unfoldable pub made_again : PeerRequestedPiece → ℕ → ℕ → InprogressPieceToBlockMap
made_again r t0 t1 =
    let m = insert_started empty_inprogress t0 r in
    insert_started
      (record m {
        piece_to_blocks_started =
            (remove_downloading_request m.piece_to_blocks_started r.index r.begin).0;
      })
      t1 r

-- A request that was made, dropped and made again is expired by its first queue entry, the time to
-- live after it was first made, although less than that has passed since it was made again.
pub remove_expired-made_again :
    (r : PeerRequestedPiece) (t0 t1 ttl : ℕ)
    → t0 < t1
    → t1 < t0 + ttl
    → ((t0 + ttl) - t1 < ttl) × ((remove_expired (made_again r t0 t1) (t0 + ttl) ttl).1 ≡ r ∷ [])
unfolding made_again insert_started remove_expired expire
remove_expired-made_again r t0 t1 ttl h k =
    let dropped = (remove_downloading_request (insert_request empty_blocks r) r.index r.begin).0 in
    let m = insert_request dropped r in
    let found : (take_request m r.index r.begin).1 ≡ some (record { piece_request = r }) =
      take_request_found m r.index r.begin
      ∙ ground (arith, downloading-insert_request dropped r r.index r.begin) in
    let up : leb ttl (t0 + ttl - t0) ≡ true = ground arith in
    let fresh : leb ttl (t0 + ttl - t1) ≡ false = ground arith in
    (omega arith, rw (up, fresh, found) refl)
