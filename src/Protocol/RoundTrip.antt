-- ===== src/Protocol/RoundTrip.antt =====
-- src/peer/protocol.rs: every message decodes to itself, from the front of whatever follows it.
use bentorrent.Prelude.{
  inr, inl, [], ◌⊎◌, sub_usize, ◌≢◌, false, ltb, ◌==◌, ◌∙◌, suc, ℕ, ◌+◌, ◌*◌, ◌/◌, ◌%◌, ◌^◌, ◌≤◌,
  ◌<◌, ◌≡◌, refl, ap, arith, ◌∷◌, ◌++◌, length, append_assoc, length-append, take-append,
  drop-append,
}
use bentorrent.Outcome.{ok}
use bentorrent.Torrent.{Bytes}
use bentorrent.BytesApi.{BytesApi, u32_bytes}
use bentorrent.Protocol.Binds.{bind_ok}
use bentorrent.Protocol.{
  encode, decode_piece, decode_bit_field, decode_have, flag_of_id, decode_flag, check_remaining,
  decode_cancel, decode_request, decode_frame, decode_body, decode, zeroed, Messages, keep_alive,
  flag, have, bit_field, request, piece, cancel, get_u8, get_u32, get_vec, lift,
}
use bentorrent.Protocol.Frames.{
  encode-eq-frame, frame, id_of, payload, body, IsEncodable, length-u32_bytes,
}
use bentorrent.Protocol.{choke, unchoke, interested, not_interested}

zeroed-small : (n : ℕ) (b : Bytes) → n < 2 ^ 63 → zeroed n b ≡ ok (tt, b)
unfolding zeroed
zeroed-small n b h = ground arith

module _ (api : BytesApi) where
  open api use {try_get_u8_takes, try_get_u32_takes, try_copy_to_slice_takes}

  pub get_u8-cons : (x : ℕ) (rest : Bytes) → get_u8 api (x ∷ rest) ≡ ok (x, rest)
  unfolding get_u8
  get_u8-cons x rest = rw (try_get_u8_takes x rest, get_u8, lift)

  pub get_u32-bytes :
      (x : ℕ) (rest : Bytes) → x < 2 ^ 32 → get_u32 api (u32_bytes x ++ rest) ≡ ok (x, rest)
  unfolding get_u32 u32_bytes
  get_u32-bytes x rest h =
      let takes =
        try_get_u32_takes (x / 2 ^ 24 % 256) (x / 2 ^ 16 % 256) (x / 2 ^ 8 % 256) (x % 256) rest in
      let value : x / 2 ^ 24 % 256 * 2 ^ 24
            + (x / 2 ^ 16 % 256 * 2 ^ 16 + (x / 2 ^ 8 % 256 * 2 ^ 8 + x % 256))
          ≡ x =
        omega arith in
      rw (takes, lift) (ap (λ y. ok (y, rest)) value)

  pub get_vec-append :
      (xs rest : Bytes) (n : ℕ)
      → n ≡ length xs
      → length xs < 2 ^ 32
      → get_vec api n (xs ++ rest) ≡ ok (xs, rest)
  unfolding get_vec
  get_vec-append xs rest n e h =
      let enough : length xs ≤ length (xs ++ rest) = omega (arith, length-append xs rest) in
      let takes = try_copy_to_slice_takes (xs ++ rest) (length xs) enough in
      rw e (
        bind_ok (zeroed (length xs)) _ (xs ++ rest)
          (zeroed-small (length xs) (xs ++ rest) (omega arith))
        ∙ rw (takes, lift, take-append xs rest, drop-append xs rest))

  -- One run of the decoder: the length, then the id, then the payload.
  pub decode_zero : (rest : Bytes) → decode api (u32_bytes 0 ++ rest) ≡ ok (keep_alive, rest)
  unfolding decode
  decode_zero rest =
      bind_ok (get_u32 api) _ (u32_bytes 0 ++ rest) (get_u32-bytes 0 rest (omega arith)) ∙ refl

  pub decode_length :
      (n : ℕ) (rest : Bytes)
      → 0 < n
      → n < 2 ^ 32
      → decode api (u32_bytes n ++ rest) ≡ decode_frame api n rest
  unfolding decode
  decode_length n rest p h =
      let nonzero : (n == 0) ≡ false = ground arith in
      bind_ok (get_u32 api) _ (u32_bytes n ++ rest) (get_u32-bytes n rest h) ∙ rw nonzero

  pub decode_frame_body :
      (n id : ℕ) (rest : Bytes)
      → n ≤ length rest + 1
      → decode_frame api n (id ∷ rest) ≡ decode_body api n id rest
  unfolding decode_frame check_remaining
  decode_frame_body n id rest h =
      let enough : ltb (suc (length rest)) n ≡ false = ground arith in
      bind_ok (check_remaining api n) _ (id ∷ rest) (rw enough)
      ∙ bind_ok (get_u8 api) _ (id ∷ rest) (get_u8-cons id rest)

  three_u32 :
      (i b l : ℕ) (rest : Bytes)
      → i < 2 ^ 32
      → b < 2 ^ 32
      → l < 2 ^ 32
      → (decode_request api (u32_bytes i ++ (u32_bytes b ++ (u32_bytes l ++ rest)))
          ≡ ok (request i b l, rest))
        × (decode_cancel api (u32_bytes i ++ (u32_bytes b ++ (u32_bytes l ++ rest)))
            ≡ ok (cancel i b l, rest))
  unfolding decode_request decode_cancel
  three_u32 i b l rest hi hb hl =
      let gi = get_u32-bytes i (u32_bytes b ++ (u32_bytes l ++ rest)) hi in
      let gb = get_u32-bytes b (u32_bytes l ++ rest) hb in
      let gl = get_u32-bytes l rest hl in
      (
        bind_ok (get_u32 api) _ _ gi ∙ bind_ok (get_u32 api) _ _ gb ∙ bind_ok (get_u32 api) _ _ gl,
        bind_ok (get_u32 api) _ _ gi ∙ bind_ok (get_u32 api) _ _ gb ∙ bind_ok (get_u32 api) _ _ gl,
      )

  piece_length :
      (i b : ℕ) (block : Bytes)
      → length block + 9 < 2 ^ 32
      → sub_usize (length (u32_bytes i ++ (u32_bytes b ++ block)) + 1) 9 ≡ length block
  piece_length i b block h = omega (
    arith,
    length-append (u32_bytes i) (u32_bytes b ++ block),
    length-append (u32_bytes b) block,
    length-u32_bytes i,
    length-u32_bytes b,
  )

  -- The decoder reads the payload, and what follows stays.
  decode_payload :
      (m : Messages) (rest : Bytes)
      → m ≢ keep_alive
      → IsEncodable m
      → decode_body api (length (payload m) + 1) (id_of m) (payload m ++ rest) ≡ ok (m, rest)
  unfolding id_of payload decode_body
  decode_payload keep_alive rest ne h = absurd (ne refl)
  decode_payload (flag choke) rest ne h = unfold decode_flag flag_of_id in refl
  decode_payload (flag unchoke) rest ne h = unfold decode_flag flag_of_id in refl
  decode_payload (flag interested) rest ne h = unfold decode_flag flag_of_id in refl
  decode_payload (flag not_interested) rest ne h = unfold decode_flag flag_of_id in refl
  decode_payload (have i) rest ne h =
      unfold decode_have in bind_ok (get_u32 api) _ _ (get_u32-bytes i rest h)
  decode_payload (bit_field bitfield) rest ne h =
      unfold decode_bit_field in
      bind_ok (get_vec api (sub_usize (length bitfield + 1) 1)) _ _
        (get_vec-append bitfield rest _ (omega arith) (omega arith))
  decode_payload (request i b l) rest ne h =
      rw (append_assoc (u32_bytes i), append_assoc (u32_bytes b))
        (three_u32 i b l rest h.0 h.1 h.2).0
  decode_payload (piece i b block) rest ne h =
      unfold decode_piece in
      rw (append_assoc (u32_bytes i), append_assoc (u32_bytes b))
        (bind_ok (get_u32 api) _ _ (get_u32-bytes i (u32_bytes b ++ (block ++ rest)) h.0)
          ∙ bind_ok (get_u32 api) _ _ (get_u32-bytes b (block ++ rest) h.1)
          ∙ bind_ok (get_vec api _) _ _
              (get_vec-append block rest _ (piece_length i b block h.2) (omega arith)))
  decode_payload (cancel i b l) rest ne h =
      rw (append_assoc (u32_bytes i), append_assoc (u32_bytes b))
        (three_u32 i b l rest h.0 h.1 h.2).1

  pub body-size : (m : Messages) → m ≢ keep_alive → body m ≡ id_of m ∷ payload m
  unfolding body
  body-size keep_alive ne = absurd (ne refl)
  body-size (flag f) ne = refl
  body-size (have i) ne = refl
  body-size (bit_field bitfield) ne = refl
  body-size (request i b l) ne = refl
  body-size (piece i b block) ne = refl
  body-size (cancel i b l) ne = refl

  pub payload-fits : (m : Messages) → IsEncodable m → length (payload m) + 1 < 2 ^ 32
  unfolding payload
  payload-fits keep_alive h = omega arith
  payload-fits (flag f) h = omega arith
  payload-fits (have i) h = omega (arith, length-u32_bytes i)
  payload-fits (bit_field bitfield) h = h
  payload-fits (request i b l) h = simp (length-append, length-u32_bytes) (omega arith)
  payload-fits (piece i b block) h =
      rw
        (
          length-append (u32_bytes i) (u32_bytes b ++ block),
          length-append (u32_bytes b) block,
          length-u32_bytes i,
          length-u32_bytes b,
        )
        (omega arith)
  payload-fits (cancel i b l) h = simp (length-append, length-u32_bytes) (omega arith)

  pub keep_alive-or : (m : Messages) → (m ≡ keep_alive) ⊎ (m ≢ keep_alive)
  keep_alive-or keep_alive = inl refl
  keep_alive-or (flag f) = inr (λ e. cc)
  keep_alive-or (have i) = inr (λ e. cc)
  keep_alive-or (bit_field bitfield) = inr (λ e. cc)
  keep_alive-or (request i b l) = inr (λ e. cc)
  keep_alive-or (piece i b block) = inr (λ e. cc)
  keep_alive-or (cancel i b l) = inr (λ e. cc)

  decode_framed :
      (m : Messages) (rest : Bytes)
      → IsEncodable m
      → m ≢ keep_alive
      → decode api (frame m ++ rest) ≡ ok (m, rest)
  unfolding frame
  decode_framed m rest h ne =
      let fits = payload-fits m h in
      let n = suc (length (payload m)) in
      let size : suc (length (payload m)) ≡ length (payload m) + 1 = omega arith in
      let enough : suc (length (payload m)) ≤ length (payload m ++ rest) + 1 =
        omega (arith, length-append (payload m) rest) in
      rw (body-size m ne, append_assoc (u32_bytes (length (id_of m ∷ payload m))))
        (decode_length n (id_of m ∷ (payload m ++ rest)) (omega arith) (omega arith)
          ∙ decode_frame_body n (id_of m) (payload m ++ rest) enough
          ∙ rw size (decode_payload m rest ne h))

  -- A message whose fields fit their u32s, encoded into an empty buffer and followed by any bytes,
  -- decodes to itself and leaves exactly those bytes.
  pub decode-encode :
      (m : Messages) (rest : Bytes)
      → IsEncodable m
      → decode api (encode api m [] ++ rest) ≡ ok (m, rest)
  unfolding u32_bytes
  decode-encode m rest h = rw (encode-eq-frame api m [] h) (elim (keep_alive-or m) [
    | inl e ↦ rw e (unfold frame body in decode_zero rest)
    | inr ne ↦ decode_framed m rest h ne
  ])
