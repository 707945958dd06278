-- ===== src/TrackerClient/Announce.antt =====
-- src/peer/tracker.rs: an answer of the tracker, as the bytes that it sends, is read as its peers.
use bentorrent.Prelude.{
  sym, ap, ◌∙◌, ℕ, ◌^◌, ◌≤◌, ◌<◌, ◌≡◌, refl, arith, ℤ, List, ◌++◌, Option, none, some, All, length,
  ◌⊎◌,
}
use bentorrent.Outcome.{ok}
use bentorrent.Torrent.{Bytes}
use bentorrent.Text.{text}
use bentorrent.Bencode.{BenList, DictT, dictionary, encode}
use bentorrent.Bencode.Nom.{Nom, IsI64}
use bentorrent.Bencode.Valid.{IsValid, AllValid, EntriesValid, depth}
use bentorrent.Bencode.RoundTrip.{parse_type-encode}
use bentorrent.TrackerResponse.{IpAddr, response_try_from}
use bentorrent.TrackerResponse.Entries.{entries_of, Entry, listed, addresses, IsEntry}
use bentorrent.TrackerResponse.Reads.{optional, answer, answer-Ascends, response_try_from-answer}
use bentorrent.TrackerClient.{TrackerClient, Web, tracker_url, decode_announce, get_announce}

abbrev pub Fits : Option ℤ → Type 0
Fits none = Unit {0}
Fits (some i) = IsI64 i

optional-EntriesValid :
    (k : Bytes) (o : Option ℤ) (d : DictT)
    → length k < 2 ^ 32
    → Fits o
    → EntriesValid d
    → EntriesValid (optional k o d)
optional-EntriesValid k none d h f v = v
optional-EntriesValid k (some i) d h f v = (h, (f, v))

module _ (web : Web) (nom : Nom) (from_str : Bytes → Bytes ⊎ IpAddr) where
  -- If the address of the announce gives a request, and the answer to it begins with a dictionary of
  -- an i64 interval, a list of peers and perhaps the counts as i64s, where the list holds any values of
  -- i64 integers, byte strings shorter than 2^32 and sorted dictionaries: `get_announce`, with as much
  -- stack as the dictionary nests, gives the interval, the counts, and the peers of the list in their
  -- order: one for each dictionary that has, whatever else it holds, a text under `ip` that denotes an
  -- address and an integer under `port`, with that address and the low 16 bits of the port. Every other
  -- value of the list is passed over.
  pub get_announce-answer :
      (client : TrackerClient) (stack : ℕ) (url rest : Bytes) (interval : ℤ) (bs : BenList)
      (complete incomplete : Option ℤ)
      → tracker_url web client ≡ some url
      → web.get url ≡ some (encode (dictionary (answer interval bs complete incomplete)) ++ rest)
      → AllValid bs
      → IsI64 interval
      → Fits complete
      → Fits incomplete
      → depth (dictionary (answer interval bs complete incomplete)) ≤ stack
      → (es : List Entry) × (listed es ≡ bs)
        × All (IsEntry from_str) es
        × (get_announce web nom from_str stack client
            ≡ ok (record {
              interval = interval;
              peers = addresses es;
              complete = complete;
              incomplete = incomplete;
            }))
  unfolding get_announce decode_announce
  get_announce-answer client stack url rest i bs c n asks answers values fits cfits nfits k =
      let valid : IsValid (dictionary (answer i bs c n)) = (
        answer-Ascends i bs c n,
        optional-EntriesValid (text "complete") c _ (omega arith) cfits (
            optional-EntriesValid (text "incomplete") n _ (omega arith) nfits
              (omega arith, (fits, (omega arith, (values, tt))))),
      ) in
      let parsed = (parse_type-encode nom (dictionary (answer i bs c n)) stack rest valid k).1 in
      let (es, (same, entries)) = entries_of from_str bs values in
      let response : response_try_from from_str (dictionary (answer i bs c n))
          ≡ ok (record { interval = i; peers = addresses es; complete = c; incomplete = n }) =
        ap (λ l. response_try_from from_str (dictionary (answer i l c n))) (sym same)
        ∙ response_try_from-answer from_str i es c n entries in
      (es, same, entries, rw (asks, answers, parsed, response, get_announce, decode_announce) refl)
