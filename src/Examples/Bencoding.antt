-- ===== src/Examples/Bencoding.antt =====
-- Runs of the parser, of the metainfo file and of the tracker's answer.
use bentorrent.Prelude.{◌<◌, ◌≡◌, ◌≢◌, refl, arith, pos, negsuc, [], ◌∷◌, ◌++◌, length, replicate}
use bentorrent.Outcome.{ok, panic}
use bentorrent.Torrent.{Bytes}
use bentorrent.Text.{text}
use bentorrent.Bencode.{
  Bencode, int, byte_string, list, dictionary, nil, cons, empty, entry, encode,
}
use bentorrent.Bencode.Nom.Concrete.{nom}
use bentorrent.Bencode.Parser.{parse_type, parse_bencode}
use bentorrent.Bencode.Valid.{IsValid}
use bentorrent.Bencode.RoundTrip.{parse_type-encode}
use bentorrent.Bencode.Total.{
  parse_type-Ensures, parse_bencode-encode-parse, parse_type-replicate_l,
}

-- d1:al i-3e 2:xy ee
abbrev sample : Bencode
sample =
    dictionary
      (entry (text "a") (list (cons (int (negsuc 2)) (cons (byte_string (text "xy")) nil))) empty)

sample-IsValid : IsValid sample
sample-IsValid = (tt, (omega arith, ((omega arith, (omega arith, tt)), tt)))

parse_type-encode_example :
    (parse_type nom 4 (encode sample ++ b'x' ∷ []) ≡ ok (b'x' ∷ [], sample))
    × (parse_bencode nom 4 (encode sample ++ b'x' ∷ []) ≡ ok sample)
parse_type-encode_example = parse_type-encode nom sample 4 (b'x' ∷ []) sample-IsValid (omega arith)

parse_type-Ensures_example :
    (parse_type nom 4 (text "i1") ≢ panic)
    × ((rest : Bytes) (b : Bencode)
        → parse_type nom 4 (text "i1") ≡ ok (rest, b)
        → IsValid b × (length rest < 2))
parse_type-Ensures_example = parse_type-Ensures nom 4 (text "i1") (omega arith)

-- Leading zeros are read.
leading_zeros : parse_type nom 6 (text "i007e") ≡ ok ([], int (pos 7))
unfolding parse_type nom
leading_zeros = refl

parse_bencode-encode-parse_example : parse_bencode nom 1 (encode (int (pos 7))) ≡ ok (int (pos 7))
parse_bencode-encode-parse_example =
    parse_bencode-encode-parse nom 6 1 (text "i007e") [] (int (pos 7)) (omega arith) leading_zeros
      (omega arith)

parse_type-replicate_l_example : parse_type nom 2 (replicate 5 b'l' ++ text "e") ≡ panic
parse_type-replicate_l_example = parse_type-replicate_l nom 2 5 (text "e") (omega arith)
