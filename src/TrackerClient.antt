-- ===== src/TrackerClient.antt =====
-- src/peer/tracker.rs: the request to the tracker, and its answer. The crates `url` and
-- `urlencoding`, and the exchange over HTTP with `reqwest`, are parameters.
pub mod Announce
use bentorrent.Prelude.{ℕ, ◌⊎◌, List, [], ◌∷◌, ◌++◌, Option, none, some}
use bentorrent.Outcome.{Outcome, ok, err, panic}
use bentorrent.Torrent.{Bytes, PeerId, V1Torrent}
use bentorrent.Text.{text}
use bentorrent.Bencode.{Bencode, Error}
use bentorrent.Bencode.Decimal.{decimal, show_int}
use bentorrent.Bencode.Nom.{Nom}
use bentorrent.Bencode.Parser.{parse_bencode}
use bentorrent.TrackerResponse.{IpAddr, TrackerResponse, response_try_from}

-- The relaxed counters of the program, by their values.
pub record UploadDownloadState : Type 0 where
  pub uploaded : ℕ
  pub downloaded : ℕ

unfoldable pub new_state : UploadDownloadState
new_state = record { uploaded = 0; downloaded = 0 }

pub record TrackerClient : Type 0 where
  pub torrent : V1Torrent
  pub my_peer_id : PeerId
  pub upload_download_state : UploadDownloadState

unfoldable pub new : V1Torrent → PeerId → TrackerClient
unfolding new_state
new torrent my_peer_id = record {
  torrent = torrent;
  my_peer_id = my_peer_id;
  upload_download_state = new_state;
}

-- What `get_announce` can fail with.
pub data AnnounceError : Type 0 where
  http : AnnounceError
  bencode : Error → AnnounceError

-- `with_query` parses an address, appends the pairs to its query and prints it; it gives nothing if
-- the address does not parse. `get` is the body that a GET request brings, if it brings one.
pub record Web : Type 0 where
  pub encode_binary : Bytes → Bytes
  pub with_query : Bytes → List (Bytes × Bytes) → Option Bytes
  pub get : Bytes → Option Bytes

module _ (web : Web) where
  abbrev pub query : TrackerClient → List (Bytes × Bytes)
  query client =
      (text "port", text "6881")
      ∷ (text "uploaded", decimal client.upload_download_state.uploaded)
      ∷ (text "downloaded", decimal client.upload_download_state.downloaded)
      ∷ (text "left", show_int client.torrent.info.length)
      ∷ (text "numwant", text "100")
      ∷ []

  -- An address that does not parse is a panic.
  unfoldable pub tracker_url : TrackerClient → Option Bytes
  tracker_url client = elim (web.with_query client.torrent.announce (query client)) [
    | none ↦ none
    | some url ↦ some (
        url
        ++ (text "&info_hash="
            ++ (web.encode_binary client.torrent.info.info_hash
                ++ (text "&peer_id=" ++ web.encode_binary client.my_peer_id))))
  ]

  module _ (nom : Nom) (from_str : Bytes → Bytes ⊎ IpAddr) where
    -- The answer in a body.
    unfoldable pub decode_announce : ℕ → Bytes → Outcome AnnounceError TrackerResponse
    decode_announce stack body = elim (parse_bencode nom stack body) [
      | err e ↦ err (bencode e)
      | panic ↦ panic
      | ok decoded ↦ elim (response_try_from from_str decoded) [
        | err e ↦ err (bencode e)
        | panic ↦ panic
        | ok response ↦ ok response
      ]
    ]

    unfoldable pub get_announce : ℕ → TrackerClient → Outcome AnnounceError TrackerResponse
    unfolding tracker_url decode_announce
    get_announce stack client = elim (tracker_url client) [
      | none ↦ panic
      | some url ↦ elim (web.get url) [ none ↦ err http | some body ↦ decode_announce stack body ]
    ]
