-- ===== src/Protocol/Frames.antt =====
-- src/peer/protocol.rs: the bytes `Messages::encode` writes, as frames of the protocol.
use bentorrent.Prelude.{
  suc, ℕ, ◌+◌, ◌^◌, ◌<◌, ◌≡◌, refl, ap, arith, [], ◌∷◌, ◌++◌, length, append_assoc, append-nil,
  length-append, to_u32, add_u32,
}
use bentorrent.Torrent.{Bytes}
use bentorrent.BytesApi.{BytesApi, u32_bytes}
use bentorrent.Protocol.{
  Messages, keep_alive, flag, have, bit_field, request, piece, cancel, flag_id, encode,
}

-- What follows the length prefix: the id and the payload.
unfoldable pub id_of : Messages → ℕ
unfolding flag_id
id_of keep_alive = 0
id_of (flag f) = flag_id f
id_of (have i) = 4
id_of (bit_field bitfield) = 5
id_of (request i b l) = 6
id_of (piece i b block) = 7
id_of (cancel i b l) = 8

unfoldable pub payload : Messages → Bytes
payload keep_alive = []
payload (flag f) = []
payload (have i) = u32_bytes i
payload (bit_field bitfield) = bitfield
payload (request i b l) = u32_bytes i ++ (u32_bytes b ++ u32_bytes l)
payload (piece i b block) = u32_bytes i ++ (u32_bytes b ++ block)
payload (cancel i b l) = u32_bytes i ++ (u32_bytes b ++ u32_bytes l)

unfoldable pub body : Messages → Bytes
unfolding id_of payload
body keep_alive = []
body m = id_of m ∷ payload m

-- The frame of a message by the protocol: its length in four bytes, then the body.
unfoldable pub frame : Messages → Bytes
frame m = u32_bytes (length (body m)) ++ body m

-- The fields are u32 values, and the body fits a u32 length.
abbrev pub IsEncodable : Messages → Type 0
IsEncodable keep_alive = Unit {0}
IsEncodable (flag f) = Unit {0}
IsEncodable (have i) = i < 2 ^ 32
IsEncodable (bit_field bitfield) = length bitfield + 1 < 2 ^ 32
IsEncodable (request i b l) = (i < 2 ^ 32) × (b < 2 ^ 32) × (l < 2 ^ 32)
IsEncodable (piece i b block) = (i < 2 ^ 32) × (b < 2 ^ 32) × (length block + 9 < 2 ^ 32)
IsEncodable (cancel i b l) = (i < 2 ^ 32) × (b < 2 ^ 32) × (l < 2 ^ 32)

pub length-u32_bytes : (x : ℕ) → length (u32_bytes x) ≡ 4
unfolding u32_bytes
length-u32_bytes x = refl

frame-piece :
    (i c : ℕ) (block : Bytes)
    → frame (piece i c block)
      ≡ u32_bytes (length block + 9) ++ (7 ∷ (u32_bytes i ++ (u32_bytes c ++ block)))
unfolding frame body
frame-piece i c block =
    ap (λ n. u32_bytes n ++ (7 ∷ (u32_bytes i ++ (u32_bytes c ++ block))))
      (omega (
        arith,
        length-append (u32_bytes i) (u32_bytes c ++ block),
        length-append (u32_bytes c) block,
        length-u32_bytes i,
        length-u32_bytes c,
      ))

module _ (api : BytesApi) where
  open api use {put_u8_appends, put_u32_appends, put_slice_appends}

  -- `encode` appends the frame.
  pub encode-eq-frame : (m : Messages) (b : Bytes) → IsEncodable m → encode api m b ≡ b ++ frame m
  unfolding encode frame body
  encode-eq-frame keep_alive b h = simp (put_u32_appends, append-nil)
  encode-eq-frame (flag f) b h = simp (put_u32_appends, put_u8_appends, append_assoc)
  encode-eq-frame (have i) b h =
      simp (put_u32_appends, put_u8_appends, append_assoc, length-u32_bytes)
  encode-eq-frame (bit_field bitfield) b h =
      let prefix : add_u32 1 (to_u32 (length bitfield)) ≡ suc (length bitfield) = omega arith in
      rw (prefix, encode) (simp (put_u32_appends, put_u8_appends, put_slice_appends, append_assoc))
  encode-eq-frame (request i c l) b h =
      simp (put_u32_appends, put_u8_appends, append_assoc, length-append, length-u32_bytes)
  encode-eq-frame (piece i c block) b h =
      let prefix : add_u32 9 (to_u32 (length block)) ≡ length block + 9 = omega arith in
      rw (prefix, encode, frame-piece i c block)
        (simp (put_u32_appends, put_u8_appends, put_slice_appends, append_assoc))
  encode-eq-frame (cancel i c l) b h =
      simp (put_u32_appends, put_u8_appends, append_assoc, length-append, length-u32_bytes)
