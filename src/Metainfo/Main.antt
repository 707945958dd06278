-- ===== src/Metainfo/Main.antt =====
-- src/main.rs: from the bytes of the file to the torrent that is started, and back from a torrent
-- to such a file.
use bentorrent.Prelude.{sym, ℕ, ◌^◌, ◌≤◌, ◌<◌, ◌≡◌, refl, ◌∙◌, arith, [], ◌++◌, some, All, length}
use bentorrent.Prelude.Eq.{list_eq}
use bentorrent.Outcome.{ok, err, panic}
use bentorrent.Torrent.{Bytes, V1TorrentInfo, V1Torrent}
use bentorrent.Text.{from_utf8_lossy_ascii, compare_bytes, text}
use bentorrent.Bencode.{Bencode, DictT, Error, int, byte_string, dictionary, empty, entry, encode}
use bentorrent.Bencode.Nom.{Nom, IsI64}
use bentorrent.Bencode.Dict.{dict_get}
use bentorrent.Bencode.Parser.{parse_bencode}
use bentorrent.Bencode.Valid.{Ascends, IsValid}
use bentorrent.Bencode.RoundTrip.{parse_type-encode}
use bentorrent.Metainfo.{info_try_from, torrent_of, torrent_try_from}
use bentorrent.Bencode.Ascii.{IsAscii, AsciiKeys, IsAscii-of_small}
use bentorrent.Metainfo.Keys.{lookup-convert_dict_keys}
use bentorrent.Metainfo.Reads.{concat, IsSha1, info_try_from-reads}

-- What `main` does with the file: it starts the torrent, prints the error, or panics in `unwrap`.
pub data Load : Type 0 where
  started : V1Torrent → Load
  printed : Error → Load
  panicked : Load

module _ (sha1 : Bytes → Bytes) (nom : Nom) where
  unfoldable pub load : ℕ → Bytes → Load
  load stack file = elim (parse_bencode nom stack file) [
    | ok parsed ↦ elim (torrent_try_from sha1 parsed) [
      | ok torrent ↦ started torrent
      | err e ↦ panicked
      | panic ↦ panicked
    ]
    | err e ↦ printed e
    | panic ↦ panicked
  ]

-- The dictionary that describes a torrent's info, its keys in order.
abbrev pub info_dict : V1TorrentInfo → DictT
info_dict info = entry (text "length") (int info.length) (
    entry (text "name") (byte_string info.name) (
      entry (text "piece length") (int info.piece_length)
        (entry (text "pieces") (byte_string (concat info.pieces)) empty)))

abbrev pub metainfo : V1Torrent → Bencode
metainfo torrent = dictionary (
    entry (text "announce") (byte_string torrent.announce)
      (entry (text "info") (dictionary (info_dict torrent.info)) empty))

-- What a metainfo file can say.
pub record IsDescribable (torrent : V1Torrent) : Type 0 where
  pub length_fits : IsI64 torrent.info.length
  pub piece_length_fits : IsI64 torrent.info.piece_length
  pub pieces_fit : length (concat torrent.info.pieces) < 2 ^ 32
  pub name_fits : length torrent.info.name < 2 ^ 32
  pub announce_fits : length torrent.announce < 2 ^ 32
  pub hashes : All IsSha1 torrent.info.pieces
  pub ascii_name : IsAscii torrent.info.name
  pub ascii_announce : IsAscii torrent.announce
  pub no_list : torrent.announce_list ≡ []

ascends : (info : V1TorrentInfo) → Ascends (info_dict info)
ascends info = unfold compare_bytes in (refl, (refl, (refl, tt)))

ascii_keys : (info : V1TorrentInfo) → AsciiKeys (info_dict info)
ascii_keys info = (
  IsAscii-of_small (text "length") refl,
  (
    IsAscii-of_small (text "name") refl,
    (IsAscii-of_small (text "piece length") refl, (IsAscii-of_small (text "pieces") refl, tt)),
  ),
)

module _ (sha1 : Bytes → Bytes) where
  info_try_from-info_dict :
      (torrent : V1Torrent)
      → IsDescribable torrent
      → torrent.info.info_hash ≡ sha1 (encode (dictionary (info_dict torrent.info)))
      → info_try_from sha1 (dictionary (info_dict torrent.info)) ≡ ok torrent.info
  unfolding dict_get compare_bytes
  info_try_from-info_dict torrent d h =
      let info = torrent.info in
      info_try_from-reads sha1 (info_dict info) info.length info.piece_length info.pieces info.name
        (ascends info) (ascii_keys info) refl refl refl refl d.hashes d.ascii_name
      ∙ (λ i. ok (record {
        length = info.length;
        piece_length = info.piece_length;
        pieces = info.pieces;
        name = info.name;
        info_hash = sym h i;
      }))

  of_parts :
      (torrent : V1Torrent)
      → IsDescribable torrent
      → torrent.info.info_hash ≡ sha1 (encode (dictionary (info_dict torrent.info)))
      → torrent_of sha1 (some (dictionary (info_dict torrent.info))) (some torrent.announce)
        ≡ ok torrent
  unfolding torrent_of
  of_parts torrent d h =
      rw
        (
          info_try_from-info_dict torrent d h,
          from_utf8_lossy_ascii torrent.announce d.ascii_announce,
          torrent_of,
        )
        (λ i. ok (record {
          info = torrent.info;
          announce = torrent.announce;
          announce_list = sym d.no_list i;
        }))

  torrent_try_from-metainfo :
      (torrent : V1Torrent)
      → IsDescribable torrent
      → torrent.info.info_hash ≡ sha1 (encode (dictionary (info_dict torrent.info)))
      → torrent_try_from sha1 (metainfo torrent) ≡ ok torrent
  unfolding dict_get compare_bytes torrent_try_from
  torrent_try_from-metainfo torrent d h =
      let t =
        entry (text "announce") (byte_string torrent.announce)
          (entry (text "info") (dictionary (info_dict torrent.info)) empty) in
      let sorted : Ascends t = (refl, tt) in
      let keys : AsciiKeys t =
        (IsAscii-of_small (text "announce") refl, (IsAscii-of_small (text "info") refl, tt)) in
      rw
        (
          torrent_try_from,
          lookup-convert_dict_keys (text "info") t sorted keys,
          lookup-convert_dict_keys (text "announce") t sorted keys,
        )
        (of_parts torrent d h)

  IsValid-metainfo : (torrent : V1Torrent) → IsDescribable torrent → IsValid (metainfo torrent)
  unfolding compare_bytes
  IsValid-metainfo torrent d = (
    (refl, tt),
    (
      omega arith,
      (
        d.announce_fits,
        (
          omega arith,
          (
            (
              ascends torrent.info,
              (
                omega arith,
                (
                  d.length_fits,
                  (
                    omega arith,
                    (
                      d.name_fits,
                      (omega arith, (d.piece_length_fits, (omega arith, (d.pieces_fit, tt)))),
                    ),
                  ),
                ),
              ),
            ),
            tt,
          ),
        ),
      ),
    ),
  )

  -- A torrent whose sizes are i64s, whose pieces have hashes of 20 bytes, whose name and announce
  -- address are ASCII, with strings shorter than 2^32, an empty announce list, and the SHA-1 of its
  -- encoded info dictionary as info hash, written as a metainfo file, is the torrent that `main`
  -- starts from that file, whatever follows it there, with room for three calls on the stack.
  pub load-metainfo :
      (nom : Nom) (torrent : V1Torrent) (stack : ℕ) (rest : Bytes)
      → IsDescribable torrent
      → torrent.info.info_hash ≡ sha1 (encode (dictionary (info_dict torrent.info)))
      → 3 ≤ stack
      → load sha1 nom stack (encode (metainfo torrent) ++ rest) ≡ started torrent
  unfolding load
  load-metainfo nom torrent stack rest d h k =
      let parsed =
        (parse_type-encode nom (metainfo torrent) stack rest (IsValid-metainfo torrent d) k).1 in
      rw (parsed, torrent_try_from-metainfo torrent d h, load) refl
