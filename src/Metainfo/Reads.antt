-- ===== src/Metainfo/Reads.antt =====
-- src/model/torrent.rs: which metainfo dictionaries are read, and what is made of them.
use bentorrent.Prelude.{
  ℕ, zero, suc, ◌+◌, ◌*◌, ◌/◌, ◌%◌, ◌==◌, ◌<◌, ◌≡◌, refl, sym, ap, ◌∙◌, arith, ℤ, List, [], ◌∷◌,
  ◌++◌, some, All, length, take, drop, length-append, take-append, drop-append, take-append-drop,
  true, length-take, length-drop,
}
use bentorrent.Prelude.Maps.{lookup}
use bentorrent.Prelude.Eq.{list_eq}
use bentorrent.Outcome.{ok}
use bentorrent.Torrent.{Bytes, V1Piece}
use bentorrent.Text.{from_utf8_lossy_ascii, text}
use bentorrent.Bencode.{Bencode, DictT, int, byte_string, dictionary, encode}
use bentorrent.Bencode.Dict.{dict_get}
use bentorrent.Bencode.Valid.{Ascends}
use bentorrent.Metainfo.{convert_dict_keys, chunks, info_hash, info_of, info_try_from}
use bentorrent.Bencode.Ascii.{IsAscii, AsciiKeys}
use bentorrent.Metainfo.Keys.{lookup-convert_dict_keys}

-- The hashes, one after the other.
abbrev pub concat : List V1Piece → Bytes
concat [] = []
concat (p ∷ ps) = p.hash ++ concat ps

abbrev pub IsSha1 : V1Piece → Type 0
IsSha1 p = length p.hash ≡ 20

length-concat : (ps : List V1Piece) → All IsSha1 ps → length (concat ps) ≡ length ps * 20
length-concat [] h = refl
length-concat (p ∷ ps) h =
    omega (arith, length-append p.hash (concat ps), h.0, length-concat ps h.1)

chunks-concat : (ps : List V1Piece) → All IsSha1 ps → chunks (length ps) (concat ps) ≡ ps
unfolding chunks
chunks-concat [] h = refl
chunks-concat (p ∷ ps) h =
    let front : take 20 (p.hash ++ concat ps) ≡ p.hash =
      (λ i. take (sym h.0 i) (p.hash ++ concat ps)) ∙ take-append p.hash (concat ps) in
    let back : drop 20 (p.hash ++ concat ps) ≡ concat ps =
      (λ i. drop (sym h.0 i) (p.hash ++ concat ps)) ∙ drop-append p.hash (concat ps) in
    (λ i. record { hash = front i } ∷ chunks (length ps) (back i))
    ∙ ap (◌∷◌ p) (chunks-concat ps h.1)

-- `n` chunks of at least 20 `n` bytes have 20 bytes each.
pub chunks-IsSha1 :
    (n : ℕ) (bytes : Bytes) → n * 20 < length bytes + 1 → All IsSha1 (chunks n bytes)
unfolding chunks
chunks-IsSha1 zero bytes h = tt
chunks-IsSha1 (suc n) bytes h = (
  omega (arith, length-take 20 bytes),
  chunks-IsSha1 n (drop 20 bytes) (omega (arith, length-drop 20 bytes)),
)

pub concat-chunks :
    (n : ℕ) (bytes : Bytes) → length bytes ≡ n * 20 → concat (chunks n bytes) ≡ bytes
unfolding chunks
concat-chunks zero [] h = refl
concat-chunks zero (b ∷ bytes) h = absurd (omega arith)
concat-chunks (suc n) bytes h =
    ap (λ x. take 20 bytes ++ x)
      (concat-chunks n (drop 20 bytes) (omega (arith, length-drop 20 bytes)))
    ∙ take-append-drop 20 bytes

convert-get :
    (k : Bytes) (d : DictT) (b : Bencode)
    → Ascends d
    → AsciiKeys d
    → dict_get k d ≡ some b
    → lookup k (convert_dict_keys d) ≡ some b
convert-get k d b a s h = lookup-convert_dict_keys k d a s ∙ h

module _ (sha1 : Bytes → Bytes) where
  info_of-reads :
      (hash : Bytes) (length' piece_length : ℤ) (pieces : List V1Piece) (name : Bytes)
      → All IsSha1 pieces
      → IsAscii name
      → info_of sha1 hash (some length') (some piece_length) (some (concat pieces)) (some name)
        ≡ ok (record {
          length = length';
          piece_length = piece_length;
          pieces = pieces;
          name = name;
          info_hash = hash;
        })
  unfolding info_of
  info_of-reads hash length' piece_length pieces name sizes ascii =
      let whole : length (concat pieces) ≡ length pieces * 20 = length-concat pieces sizes in
      let divides : (length (concat pieces) % 20 == 0) ≡ true = ground arith in
      let count : length (concat pieces) / 20 ≡ length pieces = omega arith in
      rw (divides, count, chunks-concat pieces sizes, from_utf8_lossy_ascii name ascii) refl

  -- A dictionary with sorted ASCII keys, whatever else it holds, that has an integer under `length`
  -- and under `piece length`, the hashes of the pieces, 20 bytes each, under `pieces`, and an ASCII
  -- name under `name`, is read as those values and the hash of the dictionary's encoding.
  pub info_try_from-reads :
      (d : DictT) (length' piece_length : ℤ) (pieces : List V1Piece) (name : Bytes)
      → Ascends d
      → AsciiKeys d
      → dict_get (text "length") d ≡ some (int length')
      → dict_get (text "piece length") d ≡ some (int piece_length)
      → dict_get (text "pieces") d ≡ some (byte_string (concat pieces))
      → dict_get (text "name") d ≡ some (byte_string name)
      → All IsSha1 pieces
      → IsAscii name
      → info_try_from sha1 (dictionary d)
        ≡ ok (record {
          length = length';
          piece_length = piece_length;
          pieces = pieces;
          name = name;
          info_hash = sha1 (encode (dictionary d));
        })
  unfolding info_try_from info_hash
  info_try_from-reads d length' piece_length pieces name a s hl hp hs hn sizes ascii =
      rw
        (
          info_try_from,
          convert-get (text "length") d (int length') a s hl,
          convert-get (text "piece length") d (int piece_length) a s hp,
          convert-get (text "pieces") d (byte_string (concat pieces)) a s hs,
          convert-get (text "name") d (byte_string name) a s hn,
        )
        (info_of-reads (sha1 (encode (dictionary d))) length' piece_length pieces name sizes ascii)
