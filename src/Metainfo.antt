-- ===== src/Metainfo.antt =====
-- src/model/torrent.rs: a metainfo file, from its bencoded value. SHA-1 is a parameter.
pub mod Keys
pub mod Reads
pub mod Errors
pub mod Main
use bentorrent.Prelude.{
  ℕ, zero, suc, ◌/◌, ◌%◌, ◌==◌, if◌then◌else◌, ℤ, List, [], ◌∷◌, Option, none, some, length, take,
  drop,
}
use bentorrent.Prelude.Eq.{list_eq}
use bentorrent.Prelude.Maps.{Map, lookup, insert}
use bentorrent.Outcome.{Outcome, ok, err, panic}
use bentorrent.Torrent.{Bytes, V1Piece, V1TorrentInfo, V1Torrent}
use bentorrent.Text.{from_utf8_lossy, text}
use bentorrent.Bencode.{
  Bencode, DictT, Error, missing, wrong_type, int, byte_string, dictionary, encode,
}
use bentorrent.Bencode.Dict.{string_keys}

-- `collect` into a HashMap: a later entry replaces an earlier one with the same key.
unfoldable pub collect_map : Map Bytes Bencode → List (Bytes × Bencode) → Map Bytes Bencode
collect_map m [] = m
collect_map m ((k, v) ∷ kvs) = collect_map (insert k v m) kvs

unfoldable pub convert_dict_keys : DictT → Map Bytes Bencode
unfolding collect_map string_keys
convert_dict_keys eles = collect_map [] (string_keys eles)

-- `if let Some(Bencode::Int(i))` and `if let Some(Bencode::ByteString(..))`
abbrev pub get_int : Option Bencode → Option ℤ
get_int (some (int i)) = some i
get_int _ = none

abbrev pub get_bytes : Option Bencode → Option Bytes
get_bytes (some (byte_string elements)) = some elements
get_bytes _ = none

-- `as_chunks::<20>`, for as many chunks as there are.
unfoldable pub chunks : ℕ → Bytes → List V1Piece
chunks zero elements = []
chunks (suc n) elements = record { hash = take 20 elements } ∷ chunks n (drop 20 elements)

module _ (sha1 : Bytes → Bytes) where
  unfoldable pub info_hash : Bencode → Bytes
  info_hash bc = sha1 (encode bc)

  -- The checks, in their order, on what is under `length`, `piece length`, `pieces` and `name`.
  unfoldable pub info_of :
      Bytes → Option ℤ → Option ℤ → Option Bytes → Option Bytes → Outcome Error V1TorrentInfo
  unfolding chunks
  info_of hash none p s n = err (missing (text "length"))
  info_of hash (some l) none s n = err (missing (text "piece length"))
  info_of hash (some l) (some p) none n = err (missing (text "pieces"))
  info_of hash (some l) (some p) (some elements) n =
      if length elements % 20 == 0
      then elim n [
        | none ↦ err (missing (text "name"))
        | some name ↦ ok (record {
          length = l;
          piece_length = p;
          pieces = chunks (length elements / 20) elements;
          name = from_utf8_lossy name;
          info_hash = hash;
        })
      ]
      else err wrong_type

  unfoldable pub info_try_from : Bencode → Outcome Error V1TorrentInfo
  unfolding info_hash info_of convert_dict_keys
  info_try_from (dictionary eles) =
      let conv = convert_dict_keys eles in
      info_of (info_hash (dictionary eles)) (get_int (lookup (text "length") conv))
        (get_int (lookup (text "piece length") conv)) (get_bytes (lookup (text "pieces") conv))
        (get_bytes (lookup (text "name") conv))
  info_try_from _ = err wrong_type

  -- The announce list is never read.
  unfoldable pub torrent_of : Option Bencode → Option Bytes → Outcome Error V1Torrent
  unfolding info_try_from
  torrent_of none a = err (missing (text "info"))
  torrent_of (some d) a = elim (info_try_from d) [
    | err e ↦ err e
    | panic ↦ panic
    | ok info ↦ elim a [
      | none ↦ err (missing (text "announce"))
      | some elements ↦
          ok (record { info = info; announce = from_utf8_lossy elements; announce_list = [] })
    ]
  ]

  unfoldable pub torrent_try_from : Bencode → Outcome Error V1Torrent
  unfolding torrent_of convert_dict_keys
  torrent_try_from (dictionary eles) =
      let conv = convert_dict_keys eles in
      torrent_of (lookup (text "info") conv) (get_bytes (lookup (text "announce") conv))
  torrent_try_from _ = err wrong_type
