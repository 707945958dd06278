-- ===== src/Piece/Expiry/Removal.antt =====
-- src/peer/state/piece.rs.
-- What expiry takes away: requests in flight whose time is up, and nothing that is done.
use bentorrent.Prelude.{
  All-mono, ◌∙◌, ap, ℕ, ◌-◌, ◌≤◌, ◌<◌, ◌≡◌, refl, arith, ◌==◌, leb, if◌then◌else◌, Bool, false,
  ◌&&◌, ◌||◌, none, some, List, [], ◌∷◌, ◌++◌, Option-cases, inl, inr, All, Bool-cases,
}
use bentorrent.Prelude.Eq.{nat_eq}
use bentorrent.Prelude.Sets.{contains}
use bentorrent.Torrent.{PeerRequestedPiece}
use bentorrent.Piece.Blocks.{
  PieceToBlockMap, PieceToBlockKey, remove_downloading_request, downloading_requests_len,
  visit_req_map, pieces,
}
use bentorrent.Piece.Blocks.Views.{
  downloading-remove_downloading_request, done-remove_downloading_request,
}
use bentorrent.Piece.Blocks.Counts.{downloading_requests_len-remove_request, pieces-remove_request}
use bentorrent.Piece.Expiry.{
  InprogressPieceToBlockMap, take_request, push_expired, expire, remove_expired,
}

-- Expiry takes a request as `remove_downloading_request` does, and hands it out.
take_request_map :
    (m : PieceToBlockMap) (p b : ℕ) → (take_request m p b).0 ≡ (remove_downloading_request m p b).0
unfolding take_request remove_downloading_request
take_request_map m p b = ground arith

pub take_request_found :
    (m : PieceToBlockMap) (p b : ℕ) → (take_request m p b).1 ≡ visit_req_map m.downloading p b
unfolding take_request visit_req_map
take_request_found m p b = ground arith

-- The time of a queue entry is up.
abbrev pub IsExpired : ℕ → ℕ → ℕ × PieceToBlockKey → Type 0
IsExpired time ttl e = ttl ≤ time - e.0

-- The blocks of some entries of a queue.
unfoldable pub is_listed : ℕ → ℕ → List (ℕ × PieceToBlockKey) → Bool
is_listed p b [] = false
is_listed p b ((t, k) ∷ queue) = ((k.piece_id == p) && (k.block_begin == b)) || is_listed p b queue

-- The request was in flight, at some block.
abbrev pub WasDownloading : PieceToBlockMap → PeerRequestedPiece → Type 0
WasDownloading m r =
    (p : ℕ) × (b : ℕ) × (visit_req_map m.downloading p b ≡ some (record { piece_request = r }))

-- What stays in the queue begins with an entry whose time is not up.
abbrev pub StartsFresh : ℕ → ℕ → List (ℕ × PieceToBlockKey) → Type 0
StartsFresh time ttl [] = Unit {0}
StartsFresh time ttl (e ∷ queue) = time - e.0 < ttl

-- The queue splits into entries whose time is up and the rest, which stays. A block in flight is
-- dropped exactly if it is listed in the first part; blocks done stay as they are.
pub record Expires (time ttl : ℕ) (m : PieceToBlockMap) (queue : List (ℕ × PieceToBlockKey))
    (r : InprogressPieceToBlockMap × List PeerRequestedPiece) : Type 0 where
  pub gone : List (ℕ × PieceToBlockKey)
  pub split : queue ≡ gone ++ r.0.expirations
  pub all_expired : All (IsExpired time ttl) gone
  pub rest_fresh : StartsFresh time ttl r.0.expirations
  pub dropped :
      (p b : ℕ)
      → visit_req_map r.0.piece_to_blocks_started.downloading p b
        ≡ (if is_listed p b gone then none else visit_req_map m.downloading p b)
  pub kept : r.0.piece_to_blocks_started.done ≡ m.done
  pub handed_out : All (WasDownloading m) r.1
  pub no_more : downloading_requests_len r.0.piece_to_blocks_started ≤ downloading_requests_len m
  pub same_pieces :
      (p : ℕ) → contains p (pieces r.0.piece_to_blocks_started) ≡ contains p (pieces m)

WasDownloading-remove :
    (m : PieceToBlockMap) (p b : ℕ) (r : PeerRequestedPiece)
    → WasDownloading (remove_downloading_request m p b).0 r
    → WasDownloading m r
WasDownloading-remove m p b r (q, c, h) =
    (q, c, ground (arith, downloading-remove_downloading_request m p b q c))

push_expired-All :
    (m : PieceToBlockMap) (p b : ℕ) (rs : List PeerRequestedPiece)
    → All (WasDownloading m) rs
    → All (WasDownloading m) (push_expired (visit_req_map m.downloading p b) rs)
push_expired-All m p b rs h = elim (Option-cases (visit_req_map m.downloading p b)) [
  | inl e ↦ rw e h
  | inr (d, e) ↦ rw e ((p, b, e), h)
]

module _ (time ttl : ℕ) where
  expire-Expires :
      (queue : List (ℕ × PieceToBlockKey)) (m : PieceToBlockMap)
      → Expires time ttl m queue (expire time ttl m queue)
  unfolding expire is_listed
  expire-Expires [] m = record {
    gone = [];
    split = refl;
    all_expired = tt;
    rest_fresh = tt;
    dropped = λ p b. refl;
    kept = refl;
    handed_out = tt;
    no_more = omega arith;
    same_pieces = λ p. refl;
  }
  expire-Expires ((t, k) ∷ queue) m =
      let m' = (remove_downloading_request m k.piece_id k.block_begin).0 in
      let ih = expire-Expires queue m' in
      elim (Bool-cases (leb ttl (time - t))) [
        | inl up ↦
            rw
              (
                up,
                take_request_map m k.piece_id k.block_begin,
                take_request_found m k.piece_id k.block_begin,
              )
              (record {
                gone = (t, k) ∷ ih.gone;
                split = ap (◌∷◌ (t, k)) ih.split;
                all_expired = (ground arith, ih.all_expired);
                rest_fresh = ih.rest_fresh;
                dropped = λ p b. ground (
                  arith,
                  ih.dropped p b,
                  downloading-remove_downloading_request m k.piece_id k.block_begin p b,
                );
                kept = ih.kept ∙ done-remove_downloading_request m k.piece_id k.block_begin;
                handed_out =
                    push_expired-All m k.piece_id k.block_begin (expire time ttl m' queue).1 (
                      All-mono _ _ (WasDownloading-remove m k.piece_id k.block_begin)
                        (expire time ttl m' queue).1 ih.handed_out);
                no_more = omega (
                  arith,
                  ih.no_more,
                  downloading_requests_len-remove_request m k.piece_id k.block_begin,
                );
                same_pieces =
                    λ p. ih.same_pieces p ∙ pieces-remove_request m k.piece_id k.block_begin p;
              })
        | inr fresh ↦ rw fresh (record {
          gone = [];
          split = refl;
          all_expired = tt;
          rest_fresh = ground arith;
          dropped = λ p b. refl;
          kept = refl;
          handed_out = tt;
          no_more = omega arith;
          same_pieces = λ p. refl;
        })
      ]

-- Expiry splits the queue into a first part whose time is up and the rest, which stays and does
-- not begin with an entry whose time is up. A block in flight is dropped exactly if it is listed
-- in the first part, what is handed out was in flight, no more blocks are in flight than before,
-- and the blocks done and the pieces known stay as they are.
pub remove_expired-Expires :
    (m : InprogressPieceToBlockMap) (time ttl : ℕ)
    → Expires time ttl m.piece_to_blocks_started m.expirations (remove_expired m time ttl)
unfolding remove_expired
remove_expired-Expires m time ttl = expire-Expires time ttl m.expirations m.piece_to_blocks_started
