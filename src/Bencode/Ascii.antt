-- ===== src/Bencode/Ascii.antt =====
-- src/file/bencode.rs, `map_dict_keys`: ASCII keys stay as they are, so the dictionary does too.
use bentorrent.Prelude.{◌<◌, ◌≡◌, refl, ap, ◌∙◌, arith, [], ◌∷◌, Bool, true, ◌&&◌, ltb, All}
use bentorrent.Torrent.{Bytes}
use bentorrent.Text.{from_utf8_lossy_ascii}
use bentorrent.Bencode.{DictT, empty, entry}
use bentorrent.Bencode.Dict.{string_keys, entries, collect_into, map_dict_keys}
use bentorrent.Bencode.Valid.{Ascends}
use bentorrent.Bencode.Ordered.{collect_into-entries}

abbrev pub IsAscii : Bytes → Type 0
IsAscii bytes = All (λ b. b < 128) bytes

abbrev pub AsciiKeys : DictT → Type 0
AsciiKeys empty = Unit {0}
AsciiKeys (entry k v d) = IsAscii k × AsciiKeys d

abbrev pub all_small : Bytes → Bool
all_small [] = true
all_small (b ∷ bytes) = ltb b 128 && all_small bytes

pub IsAscii-of_small : (bytes : Bytes) → all_small bytes ≡ true → IsAscii bytes
IsAscii-of_small [] h = tt
IsAscii-of_small (b ∷ bytes) h = (ground arith, IsAscii-of_small bytes (ground arith))

pub string_keys_ascii : (d : DictT) → AsciiKeys d → string_keys d ≡ entries d
unfolding string_keys entries
string_keys_ascii empty s = refl
string_keys_ascii (entry k v d) s = rw (from_utf8_lossy_ascii k s.0, string_keys_ascii d s.1) refl

pub map_dict_keys_ascii : (d : DictT) → Ascends d → AsciiKeys d → map_dict_keys d ≡ d
unfolding map_dict_keys
map_dict_keys_ascii d a s =
    ap (collect_into empty) (string_keys_ascii d s) ∙ collect_into-entries d a
