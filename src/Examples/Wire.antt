-- ===== src/Examples/Wire.antt =====
-- src/peer/protocol.rs at concrete inputs.
use bentorrent.Prelude.{◌≡◌, arith, [], ◌∷◌, ◌++◌, take, replicate}
use bentorrent.Outcome.{ok, err, panic}
use bentorrent.BytesApi.{u32_bytes}
use bentorrent.BytesApi.Concrete.{bytes_api}
use bentorrent.Protocol.{
  Messages, piece, Handshake, encode, decode, decode_handshake, try_get_error,
}
use bentorrent.Prelude.{length, ◌<◌}
use bentorrent.Protocol.Frames.{frame, body, payload}
use bentorrent.Protocol.RoundTrip.{decode-encode}
use bentorrent.Protocol.Incomplete.{shortage, decode_incomplete, decode_short_piece}
use bentorrent.Protocol.Handshakes.{decode_handshake_panics}

abbrev three_bytes : Messages
three_bytes = piece 7 16_384 (1 ∷ 2 ∷ 3 ∷ [])

decode-encode_example :
    decode bytes_api (encode bytes_api three_bytes [] ++ 9 ∷ 9 ∷ []) ≡ ok (three_bytes, 9 ∷ 9 ∷ [])
decode-encode_example =
    decode-encode bytes_api three_bytes (9 ∷ 9 ∷ []) (omega arith, omega arith, omega arith)

three_bytes_long : 15 < length (frame three_bytes)
unfolding frame body payload u32_bytes
three_bytes_long = omega arith

decode_incomplete_example :
    decode bytes_api (take 15 (encode bytes_api three_bytes []))
    ≡ err (try_get_error (shortage three_bytes 15))
decode_incomplete_example =
    decode_incomplete bytes_api three_bytes 15 (omega arith, omega arith, omega arith)
      three_bytes_long

decode_short_piece_example :
    decode bytes_api (u32_bytes 5 ++ (7 ∷ (u32_bytes 0 ++ (u32_bytes 1 ++ [])))) ≡ panic
decode_short_piece_example =
    decode_short_piece bytes_api 5 0 1 [] (omega arith) (omega arith) (omega arith) (omega arith)

abbrev sample_handshake : Handshake
sample_handshake = record {
  peer_ctx = record { info_hash = replicate 20 1; peer_id = replicate 20 2 };
}

decode_handshake_panics_example :
    decode_handshake bytes_api (2 ∷ ((65 ∷ 66 ∷ []) ++ (0 ∷ []))) ≡ panic
decode_handshake_panics_example =
    decode_handshake_panics bytes_api (65 ∷ 66 ∷ []) (0 ∷ []) (omega arith) (omega arith)
