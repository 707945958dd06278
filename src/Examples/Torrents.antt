-- ===== src/Examples/Torrents.antt =====
-- A metainfo file and an answer of the tracker.
use bentorrent.Prelude.{
  ◌≡◌, ◌↔◌, ◌⊎◌, inr, refl, arith, pos, List, [], ◌∷◌, ◌++◌, none, some, All, replicate, take,
}
use bentorrent.Prelude.Eq.{list_eq}
use bentorrent.Prelude.Eq.{list_eq}
use bentorrent.Prelude.Maps.{lookup, insert}
use bentorrent.Outcome.{ok, err}
use bentorrent.Torrent.{Bytes, V1Piece, V1TorrentInfo, V1Torrent}
use bentorrent.Text.{compare_bytes, text}
use bentorrent.Bencode.{
  BenList, nil, cons, byte_string, DictT, missing, int, dictionary, empty, entry, encode,
}
use bentorrent.Bencode.Valid.{AllValid}
use bentorrent.Bencode.Dict.{dict_get}
use bentorrent.Bencode.Nom.Concrete.{nom}
use bentorrent.Bencode.Ascii.{IsAscii-of_small}
use bentorrent.Metainfo.Reads.{concat, IsSha1}
use bentorrent.Metainfo.{convert_dict_keys, info_try_from, get_int, get_bytes}
use bentorrent.Metainfo.Errors.{info_try_from-Sound, RefusedBy, info_try_from-err_iff}
use bentorrent.Metainfo.Main.{IsDescribable, info_dict, metainfo, load, started, load-metainfo}
use bentorrent.TrackerResponse.{IpAddr, v4}
use bentorrent.TrackerResponse.Entries.{listed, Entry, addresses, IsEntry}
use bentorrent.TrackerResponse.Reads.{answer}
use bentorrent.TrackerClient.{TrackerClient, Web, get_announce, tracker_url}
use bentorrent.TrackerClient.Announce.{get_announce-answer}

abbrev sha1 : Bytes → Bytes
sha1 bytes = take 20 (bytes ++ replicate 20 0)

abbrev piece : V1Piece
piece = record { hash = replicate 20 7 }

abbrev unhashed : V1TorrentInfo
unhashed = record {
  length = pos 40;
  piece_length = pos 32;
  pieces = piece ∷ piece ∷ [];
  name = text "a.txt";
  info_hash = [];
}

abbrev torrent : V1Torrent
torrent = record {
  info = record unhashed { info_hash = sha1 (encode (dictionary (info_dict unhashed))) };
  announce = text "http://t/a";
  announce_list = [];
}

torrent-IsDescribable : IsDescribable torrent
torrent-IsDescribable = record {
  length_fits = omega arith;
  piece_length_fits = omega arith;
  pieces_fit = omega arith;
  name_fits = omega arith;
  announce_fits = omega arith;
  hashes = (refl, (refl, tt));
  ascii_name = IsAscii-of_small (text "a.txt") refl;
  ascii_announce = IsAscii-of_small (text "http://t/a") refl;
  no_list = refl;
}

load-metainfo_example : load sha1 nom 3 (encode (metainfo torrent) ++ text "\n") ≡ started torrent
load-metainfo_example =
    load-metainfo sha1 nom torrent 3 (text "\n") torrent-IsDescribable refl (omega arith)

-- A dictionary with nothing but a length.
abbrev short_dict : DictT
short_dict = entry (text "length") (int (pos 40)) empty

info_try_from-err_iff_example :
    (info_try_from sha1 (dictionary short_dict) ≡ err (missing (text "piece length")))
    ↔ RefusedBy
        (get_int (dict_get (text "length") short_dict))
        (get_int (dict_get (text "piece length") short_dict))
        (get_bytes (dict_get (text "pieces") short_dict))
        (get_bytes (dict_get (text "name") short_dict))
        (missing (text "piece length"))
info_try_from-err_iff_example =
    info_try_from-err_iff sha1 short_dict (missing (text "piece length")) tt
      (IsAscii-of_small (text "length") refl, tt)

info_read : info_try_from sha1 (dictionary (info_dict unhashed)) ≡ ok torrent.info
unfolding info_try_from lookup insert
info_read = refl

info_try_from-Sound_example :
    (d : DictT) × ((dictionary (info_dict unhashed) ≡ dictionary d)
      × ((torrent.info.info_hash ≡ sha1 (encode (dictionary (info_dict unhashed))))
          × (All IsSha1 torrent.info.pieces
              × (get_bytes (lookup (text "pieces") (convert_dict_keys d))
                  ≡ some (concat torrent.info.pieces)))))
info_try_from-Sound_example =
    info_try_from-Sound sha1 (dictionary (info_dict unhashed)) torrent.info info_read

abbrev from_str : Bytes → Bytes ⊎ IpAddr
from_str ip = inr (v4 (127 ∷ 0 ∷ 0 ∷ 1 ∷ []))

-- A dictionary with one key more, and a port that is no u16.
abbrev peer_entry : DictT
peer_entry = entry (text "ip") (byte_string (text "127.0.0.1")) (
    entry (text "peer id") (byte_string (text "ben"))
      (entry (text "port") (int (pos 72_417)) empty))

abbrev listed_peers : BenList
listed_peers =
    cons (dictionary peer_entry)
      (cons (int (pos 5)) (cons (dictionary (entry (text "port") (int (pos 6_881)) empty)) nil))

abbrev answered : Bytes
answered = encode (dictionary (answer (pos 900) listed_peers (some (pos 3)) none))

abbrev web : Web
web = record {
  encode_binary = λ b. b;
  with_query = λ address pairs. some address;
  get = λ url. some (answered ++ text "\n");
}

abbrev client : TrackerClient
client = record {
  torrent = torrent;
  my_peer_id = replicate 20 1;
  upload_download_state = record { uploaded = 0; downloaded = 0 };
}

listed_peers-AllValid : AllValid listed_peers
unfolding compare_bytes
listed_peers-AllValid = (
  (
    (refl, (refl, tt)),
    (omega arith, (omega arith, (omega arith, (omega arith, (omega arith, (omega arith, tt)))))),
  ),
  (omega arith, ((tt, (omega arith, (omega arith, tt))), tt)),
)

get_announce-answer_example :
    (es : List Entry) × (listed es ≡ listed_peers)
    × All (IsEntry from_str) es
    × (get_announce web nom from_str 4 client
        ≡ ok (record {
          interval = pos 900;
          peers = addresses es;
          complete = some (pos 3);
          incomplete = none;
        }))
unfolding tracker_url
get_announce-answer_example =
    get_announce-answer web nom from_str client 4 _ (text "\n") (pos 900) listed_peers
      (some (pos 3)) none refl refl listed_peers-AllValid (omega arith) (omega arith) tt
      (omega arith)
