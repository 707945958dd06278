-- ===== src/Metainfo/Errors.antt =====
-- src/model/torrent.rs: why a metainfo dictionary is refused, and what is known of one that is not.
use bentorrent.Prelude.{
  ◌↔◌, ◌*◌, ◌/◌, ◌%◌, ◌==◌, ◌≡◌, ◌≢◌, refl, sym, ap, arith, ℤ, Option, none, some, All, inl, inr,
  length, Bool-cases, subst, true, false,
}
use bentorrent.Prelude.Eq.{list_eq}
use bentorrent.Prelude.Maps.{lookup}
use bentorrent.Outcome.{Outcome, ok, err}
use bentorrent.Torrent.{Bytes, V1TorrentInfo}
use bentorrent.Text.{from_utf8_lossy, text}
use bentorrent.Bencode.{
  Bencode, DictT, Error, missing, wrong_type, int, byte_string, list, dictionary, encode,
}
use bentorrent.Bencode.Dict.{dict_get}
use bentorrent.Bencode.Valid.{Ascends}
use bentorrent.Metainfo.{
  chunks, get_int, get_bytes, info_hash, info_of, info_try_from, convert_dict_keys,
}
use bentorrent.Bencode.Ascii.{AsciiKeys}
use bentorrent.Metainfo.Keys.{lookup-convert_dict_keys}
use bentorrent.Metainfo.Reads.{concat, IsSha1, chunks-IsSha1, concat-chunks}

-- What holds of the info that was made with a hash and the string under `pieces`.
abbrev Sound : Bytes → Option Bytes → V1TorrentInfo → Type 0
Sound hash s info =
    (info.info_hash ≡ hash) × (All IsSha1 info.pieces × (s ≡ some (concat info.pieces)))

ok_injective : {E A : Type 0} {a b : A} → ◌≡◌ {A = Outcome E A} (ok a) (ok b) → a ≡ b
ok_injective e = cc

err_injective : {E A : Type 0} {a b : E} → ◌≡◌ {A = Outcome E A} (err a) (err b) → a ≡ b
err_injective e = cc

-- The first check that fails, for what is found under `length`, `piece length`, `pieces` and `name`.
pub data RefusedBy : Option ℤ → Option ℤ → Option Bytes → Option Bytes → Error → Type 0 where
  no_length : {p : Option ℤ} {s n : Option Bytes} → RefusedBy none p s n (missing (text "length"))
  no_piece_length :
      {l : ℤ} {s n : Option Bytes} → RefusedBy (some l) none s n (missing (text "piece length"))
  no_pieces :
      {l p : ℤ} {n : Option Bytes} → RefusedBy (some l) (some p) none n (missing (text "pieces"))
  odd_pieces :
      {l p : ℤ} {elements : Bytes} {n : Option Bytes}
      → length elements % 20 ≢ 0
      → RefusedBy (some l) (some p) (some elements) n wrong_type
  no_name :
      {l p : ℤ} {elements : Bytes}
      → length elements % 20 ≡ 0
      → RefusedBy (some l) (some p) (some elements) none (missing (text "name"))

module _ (sha1 : Bytes → Bytes) where
  info_of-Sound :
      (hash : Bytes) (l p : Option ℤ) (s n : Option Bytes) (info : V1TorrentInfo)
      → info_of sha1 hash l p s n ≡ ok info
      → Sound hash s info
  unfolding info_of
  info_of-Sound hash none p s n info h = absurd (cc)
  info_of-Sound hash (some l) none s n info h = absurd (cc)
  info_of-Sound hash (some l) (some p) none n info h = absurd (cc)
  info_of-Sound hash (some l) (some p) (some elements) none info h = absurd (ground arith)
  info_of-Sound hash (some l) (some p) (some elements) (some name) info h =
      elim (Bool-cases (length elements % 20 == 0)) [
        | inr odd ↦ absurd (let wrong = rw odd at h in cc)
        | inl whole ↦
            let made : V1TorrentInfo = record {
              length = l;
              piece_length = p;
              pieces = chunks (length elements / 20) elements;
              name = from_utf8_lossy name;
              info_hash = hash;
            } in
            let same : made ≡ info = ok_injective (rw whole at h) in
            let size : length elements ≡ length elements / 20 * 20 = ground arith in
            subst (Sound hash (some elements)) same (
              refl,
              (
                chunks-IsSha1 (length elements / 20) elements (omega (arith, size)),
                ap some (sym (concat-chunks (length elements / 20) elements size)),
              ),
            )
      ]

  -- When a value is read as a torrent's info, it is a dictionary, the info hash is the SHA-1 of its
  -- encoding, every piece has a hash of 20 bytes, and the hashes of the pieces, one after the other,
  -- are the whole string under `pieces`.
  pub info_try_from-Sound :
      (bc : Bencode) (info : V1TorrentInfo)
      → info_try_from sha1 bc ≡ ok info
      → (d : DictT) × ((bc ≡ dictionary d)
          × ((info.info_hash ≡ sha1 (encode bc))
              × (All IsSha1 info.pieces
                  × (get_bytes (lookup (text "pieces") (convert_dict_keys d))
                      ≡ some (concat info.pieces)))))
  unfolding info_try_from info_hash
  info_try_from-Sound (int i) info h = absurd (cc)
  info_try_from-Sound (byte_string bs) info h = absurd (cc)
  info_try_from-Sound (list l) info h = absurd (cc)
  info_try_from-Sound (dictionary d) info h =
      (d, (refl, info_of-Sound (sha1 (encode (dictionary d))) _ _ _ _ info h))

  RefusedBy-of_err :
      (hash : Bytes) (l p : Option ℤ) (s n : Option Bytes) (e : Error)
      → info_of sha1 hash l p s n ≡ err e
      → RefusedBy l p s n e
  unfolding info_of
  RefusedBy-of_err hash none p s n e h = subst (RefusedBy none p s n) (err_injective h) no_length
  RefusedBy-of_err hash (some l) none s n e h =
      subst (RefusedBy (some l) none s n) (err_injective h) no_piece_length
  RefusedBy-of_err hash (some l) (some p) none n e h =
      subst (RefusedBy (some l) (some p) none n) (err_injective h) no_pieces
  RefusedBy-of_err hash (some l) (some p) (some elements) none e h =
      elim (Bool-cases (length elements % 20 == 0)) [
        | inr odd ↦
            subst (RefusedBy (some l) (some p) (some elements) none) (err_injective (rw odd at h))
              (odd_pieces (ground arith))
        | inl whole ↦
            subst (RefusedBy (some l) (some p) (some elements) none) (err_injective (rw whole at h))
              (no_name (ground arith))
      ]
  RefusedBy-of_err hash (some l) (some p) (some elements) (some name) e h =
      elim (Bool-cases (length elements % 20 == 0)) [
        | inr odd ↦
            subst (RefusedBy (some l) (some p) (some elements) (some name))
              (err_injective (rw odd at h)) (odd_pieces (ground arith))
        | inl whole ↦ absurd (let fine = rw whole at h in cc)
      ]

  err-of_RefusedBy :
      (hash : Bytes) (l p : Option ℤ) (s n : Option Bytes) (e : Error)
      → RefusedBy l p s n e
      → info_of sha1 hash l p s n ≡ err e
  unfolding info_of
  err-of_RefusedBy hash _ _ _ _ _ no_length = refl
  err-of_RefusedBy hash _ _ _ _ _ no_piece_length = refl
  err-of_RefusedBy hash _ _ _ _ _ no_pieces = refl
  err-of_RefusedBy hash _ _ (some elements) _ _ (odd_pieces odd) =
      let wrong : (length elements % 20 == 0) ≡ false = ground arith in rw wrong refl
  err-of_RefusedBy hash _ _ (some elements) _ _ (no_name whole) =
      let right : (length elements % 20 == 0) ≡ true = ground arith in rw right refl

  -- A dictionary with sorted ASCII keys is refused with an error exactly if that is the error of the
  -- first check that fails: an integer under `length`, an integer under `piece length`, a string under
  -- `pieces`, its length a multiple of 20, a string under `name`. A missing or ill-typed entry is
  -- reported by its key, an uneven length as the wrong type.
  pub info_try_from-err_iff :
      (d : DictT) (e : Error)
      → Ascends d
      → AsciiKeys d
      → (info_try_from sha1 (dictionary d) ≡ err e)
        ↔ RefusedBy
            (get_int (dict_get (text "length") d))
            (get_int (dict_get (text "piece length") d))
            (get_bytes (dict_get (text "pieces") d))
            (get_bytes (dict_get (text "name") d))
            e
  unfolding info_try_from
  info_try_from-err_iff d e a s =
      rw
        (
          info_try_from,
          lookup-convert_dict_keys (text "length") d a s,
          lookup-convert_dict_keys (text "piece length") d a s,
          lookup-convert_dict_keys (text "pieces") d a s,
          lookup-convert_dict_keys (text "name") d a s,
        )
        (RefusedBy-of_err _ _ _ _ _ e, err-of_RefusedBy _ _ _ _ _ e)
