-- ===== src/Piece/Expiry.antt =====
-- src/peer/state/piece.rs, `InprogressPieceToBlockMap`: the blocks in progress with a queue of their starting
-- times. An `Instant` and a `Duration` are numbers of nanoseconds.
pub mod Removal
pub mod Stale
use bentorrent.Prelude.{ℕ, ◌-◌, leb, if◌then◌else◌, Option, none, some, List, [], ◌∷◌, ◌++◌}
use bentorrent.Prelude.Eq.{nat_eq}
use bentorrent.Prelude.Maps.{Map, lookup, insert, remove}
use bentorrent.Torrent.{PeerRequestedPiece}
use bentorrent.Piece.Blocks.{
  PieceToBlockMap, PieceToBlockKey, OutstandingBlockRequests, BlockDownload, insert_request,
  empty_blocks,
}

pub record InprogressPieceToBlockMap : Type 0 where
  pub piece_to_blocks_started : PieceToBlockMap
  pub expirations : List (ℕ × PieceToBlockKey)

abbrev pub empty_inprogress : InprogressPieceToBlockMap
empty_inprogress = record { piece_to_blocks_started = empty_blocks; expirations = [] }

unfoldable pub insert_started :
    InprogressPieceToBlockMap → ℕ → PeerRequestedPiece → InprogressPieceToBlockMap
insert_started m started r = record {
  piece_to_blocks_started = insert_request m.piece_to_blocks_started r;
  expirations =
      m.expirations ++ (started, record { piece_id = r.index; block_begin = r.begin }) ∷ [];
}

-- `get_downloading_request_entry` and, of an occupied entry, `remove`.
unfoldable pub take_request : PieceToBlockMap → ℕ → ℕ → PieceToBlockMap × Option BlockDownload
take_request m piece_id begin = elim (lookup piece_id m.downloading) [
  | none ↦ (m, none)
  | some begin_map ↦ (
    record m { downloading = insert piece_id (remove begin begin_map) m.downloading },
    lookup begin begin_map,
  )
]

abbrev pub push_expired : Option BlockDownload → List PeerRequestedPiece → List PeerRequestedPiece
push_expired none acc = acc
push_expired (some d) acc = d.piece_request ∷ acc

-- The loop over the queue. The requests are returned in the order in which they expire.
unfoldable pub expire :
    ℕ
    → ℕ
    → PieceToBlockMap
    → List (ℕ × PieceToBlockKey)
    → InprogressPieceToBlockMap × List PeerRequestedPiece
expire time ttl m [] = (record { piece_to_blocks_started = m; expirations = [] }, [])
expire time ttl m ((entry_time, k) ∷ queue) =
    let taken = take_request m k.piece_id k.block_begin in
    let rest = expire time ttl taken.0 queue in
    if leb ttl (time - entry_time)
    then (rest.0, push_expired taken.1 rest.1)
    else (record { piece_to_blocks_started = m; expirations = (entry_time, k) ∷ queue }, [])

unfoldable pub remove_expired :
    InprogressPieceToBlockMap → ℕ → ℕ → InprogressPieceToBlockMap × List PeerRequestedPiece
unfolding expire
remove_expired m time ttl = expire time ttl m.piece_to_blocks_started m.expirations
