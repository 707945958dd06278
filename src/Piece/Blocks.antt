-- ===== src/Piece/Blocks.antt =====
-- src/peer/state/piece.rs, `PieceToBlockMap`: the blocks being downloaded and the blocks done, by piece and begin.
pub mod Views
pub mod Counts
pub mod Exclusive
use bentorrent.Prelude.{
  ℕ, ◌==◌, if◌then◌else◌, Bool, true, false, Option, none, some, List, [], ◌∷◌, ◌++◌, length,
}
use bentorrent.Prelude.Eq.{nat_eq}
use bentorrent.Prelude.Maps.{Map, lookup, insert, remove, keys, sum_values}
use bentorrent.Prelude.Sets.{from_list}
use bentorrent.Torrent.{PeerRequestedPiece}

pub record BlockDownload : Type 0 where
  pub piece_request : PeerRequestedPiece

-- The blocks of a piece by their `begin`.
abbrev pub OutstandingBlockRequests : Type 0
OutstandingBlockRequests = Map ℕ BlockDownload

pub record PieceToBlockKey : Type 0 where
  pub piece_id : ℕ
  pub block_begin : ℕ

pub record PieceToBlockMap : Type 0 where
  pub downloading : Map ℕ OutstandingBlockRequests
  pub done : Map ℕ OutstandingBlockRequests

abbrev pub empty_blocks : PieceToBlockMap
empty_blocks = record { downloading = []; done = [] }

-- `entry(k).or_insert_with(BTreeMap::new)`
abbrev pub or_empty : Option OutstandingBlockRequests → OutstandingBlockRequests
or_empty none = []
or_empty (some blocks) = blocks

unfoldable pub finish_block :
    PieceToBlockMap
    → ℕ
    → ℕ
    → OutstandingBlockRequests
    → Option BlockDownload
    → PieceToBlockMap × Option (Unit {0})
finish_block m piece_id begin requests none = (m, none)
finish_block m piece_id begin requests (some download) = (
  record {
    downloading = insert piece_id (remove begin requests) m.downloading;
    done = insert piece_id (insert begin download (or_empty (lookup piece_id m.done))) m.done;
  },
  some tt,
)

unfoldable pub set_request_finished : PieceToBlockMap → ℕ → ℕ → PieceToBlockMap × Option (Unit {0})
unfolding finish_block
set_request_finished m piece_id begin = elim (lookup piece_id m.downloading) [
  | none ↦ (m, none)
  | some requests ↦ finish_block m piece_id begin requests (lookup begin requests)
]

-- The answer is whether the piece has an entry, not whether the block was there.
unfoldable pub remove_downloading_request : PieceToBlockMap → ℕ → ℕ → PieceToBlockMap × Bool
remove_downloading_request m piece_id begin = elim (lookup piece_id m.downloading) [
  | none ↦ (m, false)
  | some requests ↦
      (record m { downloading = insert piece_id (remove begin requests) m.downloading }, true)
]

unfoldable pub remove_piece : PieceToBlockMap → ℕ → PieceToBlockMap
remove_piece m piece_id = record {
  downloading = remove piece_id m.downloading;
  done = remove piece_id m.done;
}

unfoldable pub downloading_requests_len : PieceToBlockMap → ℕ
downloading_requests_len m = sum_values length m.downloading

unfoldable pub pieces : PieceToBlockMap → List ℕ
pieces m = from_list (keys m.downloading ++ keys m.done)

unfoldable pub insert_request : PieceToBlockMap → PeerRequestedPiece → PieceToBlockMap
insert_request m r =
    let blocks = or_empty (lookup r.index m.downloading) in
    record m {
      downloading =
          insert r.index (insert r.begin (record { piece_request = r }) blocks) m.downloading;
    }

unfoldable pub visit_req_map : Map ℕ OutstandingBlockRequests → ℕ → ℕ → Option BlockDownload
visit_req_map m piece_id begin = elim (lookup piece_id m) [
  | none ↦ none
  | some requests ↦ lookup begin requests
]

unfoldable pub contains_inprogress : PieceToBlockMap → ℕ → ℕ → Option BlockDownload
contains_inprogress m piece_id begin = elim (visit_req_map m.downloading piece_id begin) [
  | none ↦ visit_req_map m.done piece_id begin
  | some download ↦ some download
]
