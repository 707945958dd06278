-- ===== src/TrackerResponse/Reads.antt =====
-- src/model/tracker.rs: the peers of an answer.
use bentorrent.Prelude.{
  negsuc, ◌^◌, ◌<◌, ◌≡◌, refl, ap, ◌∙◌, arith, ℤ, pos, List, Option, none, some, All, inr, ◌⊎◌,
}
use bentorrent.Outcome.{ok}
use bentorrent.Torrent.{Bytes}
use bentorrent.Text.{from_utf8_lossy_ascii, compare_bytes, text}
use bentorrent.Bencode.{BenList, DictT, int, byte_string, list, dictionary, empty, entry}
use bentorrent.Bencode.Dict.{dict_get}
use bentorrent.Bencode.Valid.{Ascends}
use bentorrent.Bencode.Ascii.{IsAscii, AsciiKeys, IsAscii-of_small, map_dict_keys_ascii}
use bentorrent.Metainfo.{get_int, get_bytes}
use bentorrent.TrackerResponse.Entries.{Entry, listed, addresses, IsEntry, peers_of-listed}
use bentorrent.TrackerResponse.{
  to_u16, IpAddr, get_list, peer_of, peer_try_from, response_of, response_try_from,
}

abbrev pub peer_dict : Bytes → ℤ → DictT
peer_dict ip port = entry (text "ip") (byte_string ip) (entry (text "port") (int port) empty)

-- An optional integer in a dictionary.
abbrev pub optional : Bytes → Option ℤ → DictT → DictT
optional k none d = d
optional k (some i) d = entry k (int i) d

abbrev pub answer : ℤ → BenList → Option ℤ → Option ℤ → DictT
answer interval bs complete incomplete = optional (text "complete") complete (
    optional (text "incomplete") incomplete
      (entry (text "interval") (int interval) (entry (text "peers") (list bs) empty)))

pub answer-Ascends : (i : ℤ) (bs : BenList) (c n : Option ℤ) → Ascends (answer i bs c n)
unfolding compare_bytes
answer-Ascends i bs none none = (refl, tt)
answer-Ascends i bs none (some n) = (refl, (refl, tt))
answer-Ascends i bs (some c) none = (refl, (refl, tt))
answer-Ascends i bs (some c) (some n) = (refl, (refl, (refl, tt)))

optional-AsciiKeys :
    (k : Bytes) (o : Option ℤ) (d : DictT) → IsAscii k → AsciiKeys d → AsciiKeys (optional k o d)
optional-AsciiKeys k none d h s = s
optional-AsciiKeys k (some i) d h s = (h, s)

answer-AsciiKeys : (i : ℤ) (bs : BenList) (c n : Option ℤ) → AsciiKeys (answer i bs c n)
answer-AsciiKeys i bs c n =
    optional-AsciiKeys (text "complete") c _ (IsAscii-of_small (text "complete") refl) (
      optional-AsciiKeys (text "incomplete") n _ (IsAscii-of_small (text "incomplete") refl)
        (IsAscii-of_small (text "interval") refl, (IsAscii-of_small (text "peers") refl, tt)))

-- What is under the four keys.
answer_complete :
    (i : ℤ) (bs : BenList) (c n : Option ℤ)
    → get_int (dict_get (text "complete") (answer i bs c n)) ≡ c
unfolding dict_get compare_bytes
answer_complete i bs none none = refl
answer_complete i bs none (some n) = refl
answer_complete i bs (some c) none = refl
answer_complete i bs (some c) (some n) = refl

answer_incomplete :
    (i : ℤ) (bs : BenList) (c n : Option ℤ)
    → get_int (dict_get (text "incomplete") (answer i bs c n)) ≡ n
unfolding dict_get compare_bytes
answer_incomplete i bs none none = refl
answer_incomplete i bs none (some n) = refl
answer_incomplete i bs (some c) none = refl
answer_incomplete i bs (some c) (some n) = refl

answer_interval :
    (i : ℤ) (bs : BenList) (c n : Option ℤ)
    → get_int (dict_get (text "interval") (answer i bs c n)) ≡ some i
unfolding dict_get compare_bytes
answer_interval i bs none none = refl
answer_interval i bs none (some n) = refl
answer_interval i bs (some c) none = refl
answer_interval i bs (some c) (some n) = refl

answer_peers :
    (i : ℤ) (bs : BenList) (c n : Option ℤ)
    → get_list (dict_get (text "peers") (answer i bs c n)) ≡ some bs
unfolding dict_get compare_bytes
answer_peers i bs none none = refl
answer_peers i bs none (some n) = refl
answer_peers i bs (some c) none = refl
answer_peers i bs (some c) (some n) = refl

module _ (from_str : Bytes → Bytes ⊎ IpAddr) where
  peer_try_from-gets :
      (d : DictT)
      → Ascends d
      → AsciiKeys d
      → peer_try_from from_str (dictionary d)
        ≡ peer_of from_str (get_bytes (dict_get (text "ip") d)) (get_int (dict_get (text "port") d))
  unfolding peer_try_from
  peer_try_from-gets d a s =
      ap
        (λ m.
          peer_of from_str (get_bytes (dict_get (text "ip") m))
            (get_int (dict_get (text "port") m)))
        (map_dict_keys_ascii d a s)

  -- A dictionary with an ASCII text under `ip` that denotes an address and any i64 under `port` is
  -- read as that address with the low 16 bits of the port, which is never refused.
  pub peer_try_from-port :
      (ip : Bytes) (address : IpAddr) (port : ℤ)
      → from_str ip ≡ inr address
      → IsAscii ip
      → (peer_try_from from_str (dictionary (peer_dict ip port))
          ≡ ok (record { address = address; port = to_u16 port }))
        × (to_u16 port < 2 ^ 16)
  unfolding dict_get compare_bytes peer_of
  peer_try_from-port ip address port h ascii = (
    peer_try_from-gets (peer_dict ip port) (refl, tt)
          (IsAscii-of_small (text "ip") refl, (IsAscii-of_small (text "port") refl, tt))
        ∙ rw (from_utf8_lossy_ascii ip ascii, h, peer_of) refl,
    small port,
  )
    where
      small : (i : ℤ) → to_u16 i < 2 ^ 16
      small (pos n) = omega arith
      small (negsuc n) = omega arith

  response_try_from-gets :
      (d : DictT)
      → Ascends d
      → AsciiKeys d
      → response_try_from from_str (dictionary d)
        ≡ response_of from_str
            (get_int (dict_get (text "interval") d))
            (get_list (dict_get (text "peers") d))
            (get_int (dict_get (text "complete") d))
            (get_int (dict_get (text "incomplete") d))
  unfolding response_try_from
  response_try_from-gets d a s =
      ap
        (λ m.
          response_of from_str (get_int (dict_get (text "interval") m))
            (get_list (dict_get (text "peers") m)) (get_int (dict_get (text "complete") m))
            (get_int (dict_get (text "incomplete") m)))
        (map_dict_keys_ascii d a s)

  -- An answer with an interval, a list of entries and the optional counts is read as the interval,
  -- the counts, and the peers of those entries that give one, in their order: every other entry is
  -- passed over.
  pub response_try_from-answer :
      (interval : ℤ) (es : List Entry) (complete incomplete : Option ℤ)
      → All (IsEntry from_str) es
      → response_try_from from_str (dictionary (answer interval (listed es) complete incomplete))
        ≡ ok (record {
          interval = interval;
          peers = addresses es;
          complete = complete;
          incomplete = incomplete;
        })
  unfolding response_of
  response_try_from-answer i es c n h =
      let peers = peers_of-listed from_str es h in
      response_try_from-gets (answer i (listed es) c n) (answer-Ascends i (listed es) c n)
        (answer-AsciiKeys i (listed es) c n)
      ∙ rw
          (
            answer_interval i (listed es) c n,
            answer_peers i (listed es) c n,
            answer_complete i (listed es) c n,
            answer_incomplete i (listed es) c n,
          )
          (ap (λ ps. ok (record { interval = i; peers = ps; complete = c; incomplete = n })) peers)
