-- ===== src/Connection/Reassembly.antt =====
-- src/peer/net.rs, `Connection::read_msg`: a message arrives however the stream is cut.
use bentorrent.Prelude.{
  subst, append-nil, length-append, ℕ, ◌+◌, ◌<◌, ◌≤◌, ◌≡◌, refl, sym, ap, ◌∙◌, arith, leb, true,
  false, lt-or-le, inl, inr, Bool-cases, List, [], ◌∷◌, ◌++◌, length, is_empty, take, All,
  append_assoc,
}
use bentorrent.Outcome.{ok, err}
use bentorrent.Torrent.{Bytes}
use bentorrent.BytesApi.{BytesApi, u32_bytes}
use bentorrent.Protocol.{Messages, encode, decode, try_get_error}
use bentorrent.Protocol.Frames.{frame, body, IsEncodable, encode-eq-frame, length-u32_bytes}
use bentorrent.Protocol.RoundTrip.{decode-encode}
use bentorrent.Protocol.Incomplete.{shortage, decode_incomplete}
use bentorrent.Connection.{
  end_of_stream, Read, message, attempt, parsed, waits, read_loop, read_msg,
}

abbrev pub concat : List Bytes → Bytes
concat [] = []
concat (chunk ∷ chunks) = chunk ++ concat chunks

-- A read that is not the last delivers something.
abbrev pub IsChunk : Bytes → Type 0
IsChunk chunk = is_empty chunk ≡ false

-- A list that begins with `fs`, once it is long enough.
pub long_prefix :
    (xs ys fs more : Bytes)
    → xs ++ ys ≡ fs ++ more
    → length fs ≤ length xs
    → (rest : Bytes) × (xs ≡ fs ++ rest) × (rest ++ ys ≡ more)
long_prefix xs ys [] more e h = (xs, refl, e)
long_prefix [] ys (f ∷ fs) more e h = absurd (omega arith)
long_prefix (x ∷ xs) ys (f ∷ fs) more e h =
    let (rest, p, q) = long_prefix xs ys fs more (cc) (omega arith) in
    let same : x ≡ f = cc in (rest, ap (λ zs. x ∷ zs) p ∙ ap (λ y. y ∷ (fs ++ rest)) same, q)

pub short_prefix :
    (xs ys fs more : Bytes)
    → xs ++ ys ≡ fs ++ more
    → length xs ≤ length fs
    → xs ≡ take (length xs) fs
short_prefix [] ys fs more e h = refl
short_prefix (x ∷ xs) ys [] more e h = absurd (omega arith)
short_prefix (x ∷ xs) ys (f ∷ fs) more e h =
    let rest = short_prefix xs ys fs more (cc) (omega arith) in
    let same : x ≡ f = cc in rw same (ap (λ zs. f ∷ zs) rest)

pub frame-length : (m : Messages) → length (frame m) ≡ length (body m) + 4
unfolding frame
frame-length m = omega (
  arith,
  length-append (u32_bytes (length (body m))) (body m),
  length-u32_bytes (length (body m)),
)

-- What the decoder asks for lies within the message.
shortage-requested : (m : Messages) (k : ℕ) → (shortage m k).requested ≤ length (frame m)
unfolding shortage
shortage-requested m k = ground (arith, frame-length m)

-- What a read returns: the message, and the rest of the stream in the buffer and the chunks left.
abbrev pub Returns : Messages → Bytes → Read Messages → Type 0
Returns m more r =
    (buffer : Bytes) × (chunks : List Bytes) × (r ≡ message m buffer chunks)
    × (buffer ++ concat chunks ≡ more)

module _ (api : BytesApi) (m : Messages) (h : IsEncodable m) where
  decode-frame : (rest : Bytes) → decode api (frame m ++ rest) ≡ ok (m, rest)
  decode-frame rest =
      ap (λ b. decode api (b ++ rest)) (sym (encode-eq-frame api m [] h))
      ∙ decode-encode api m rest h

  pub decode-prefix :
      (k : ℕ)
      → k < length (frame m)
      → decode api (take k (frame m)) ≡ err (try_get_error (shortage m k))
  decode-prefix k short =
      ap (λ b. decode api (take k b)) (sym (encode-eq-frame api m [] h))
      ∙ decode_incomplete api m k h short

  -- A buffer that holds the message.
  pub attempt_long :
      (buffer rest : Bytes) (needs : ℕ)
      → needs ≤ length (frame m)
      → buffer ≡ frame m ++ rest
      → attempt (decode api) buffer needs ≡ parsed m rest
  unfolding attempt
  attempt_long buffer rest needs few e =
      let enough : leb needs (length (frame m ++ rest)) ≡ true =
        ground (arith, few, length-append (frame m) rest) in
      rw (e, enough, decode-frame rest) refl

  -- A buffer that holds less.
  pub attempt_short :
      (buffer : Bytes) (needs : ℕ)
      → needs ≤ length (frame m)
      → length buffer < length (frame m)
      → buffer ≡ take (length buffer) (frame m)
      → (n : ℕ) × (attempt (decode api) buffer needs ≡ waits n) × (n ≤ length (frame m))
  unfolding attempt
  attempt_short buffer needs few short e = elim (Bool-cases (leb needs (length buffer))) [
    | inl tries ↦
        let result : decode api buffer ≡ err (try_get_error (shortage m (length buffer))) =
          ap (decode api) e ∙ decode-prefix (length buffer) short in
        (
          (shortage m (length buffer)).requested,
          rw (tries, result, attempt) refl,
          shortage-requested m (length buffer),
        )
    | inr waits_on ↦ (needs, rw (waits_on, attempt) refl, few)
  ]

  -- A turn that waits reads the next chunk.
  read_loop-wait :
      (chunk : Bytes) (chunks : List Bytes) (buffer : Bytes) (needs n : ℕ)
      → IsChunk chunk
      → attempt (decode api) buffer needs ≡ waits n
      → read_loop (decode api) buffer needs (chunk ∷ chunks)
        ≡ read_loop (decode api) (buffer ++ chunk) n chunks
  unfolding read_loop
  read_loop-wait [] chunks buffer needs n full a = absurd (ground arith)
  read_loop-wait (x ∷ xs) chunks buffer needs n full a = rw (a, read_loop) refl

  read_loop-Returns :
      (chunks : List Bytes) (buffer : Bytes) (needs : ℕ) (more : Bytes)
      → All IsChunk chunks
      → needs ≤ length (frame m)
      → buffer ++ concat chunks ≡ frame m ++ more
      → Returns m more (read_loop (decode api) buffer needs chunks)
  unfolding read_loop
  read_loop-Returns [] buffer needs more full few e =
      let total : buffer ++ [] ≡ frame m ++ more = e in
      let size : length (buffer ++ []) ≡ length (frame m ++ more) = ap length total in
      let enough : length (frame m) ≤ length buffer =
        omega (arith, size, length-append buffer [], length-append (frame m) more) in
      let (rest, p, q) = long_prefix buffer [] (frame m) more e enough in
      (rest, [], rw (attempt_long buffer rest needs few p, read_loop) refl, q)
  read_loop-Returns (chunk ∷ chunks) buffer needs more full few e =
      elim (lt-or-le (length buffer) (length (frame m))) [
        | inr enough ↦
            let (rest, p, q) =
              long_prefix buffer (concat (chunk ∷ chunks)) (frame m) more e enough in
            (rest, chunk ∷ chunks, rw (attempt_long buffer rest needs few p, read_loop) refl, q)
        | inl short ↦
            let prefix =
              short_prefix buffer (concat (chunk ∷ chunks)) (frame m) more e (omega arith) in
            let (n, a, few') = attempt_short buffer needs few short prefix in
            let rest =
              read_loop-Returns chunks (buffer ++ chunk) n more full.1 few'
                (append_assoc buffer chunk (concat chunks) ∙ e) in
            subst (Returns m more) (sym (read_loop-wait chunk chunks buffer needs n full.0 a)) rest
      ]

  read_loop-end :
      (chunks : List Bytes) (buffer : Bytes) (needs : ℕ) (more : Bytes)
      → All IsChunk chunks
      → needs ≤ length (frame m)
      → 0 < length more
      → buffer ++ (concat chunks ++ more) ≡ frame m
      → read_loop (decode api) buffer needs chunks ≡ end_of_stream (buffer ++ concat chunks)
  unfolding read_loop
  read_loop-end [] buffer needs more full few lacks e =
      let size : length (buffer ++ more) ≡ length (frame m) = ap length e in
      let short : length buffer < length (frame m) =
        omega (arith, size, length-append buffer more) in
      let prefix =
        short_prefix buffer more (frame m) [] (e ∙ sym (append-nil (frame m))) (omega arith) in
      let (n, a, few') = attempt_short buffer needs few short prefix in
      rw (a, read_loop, append-nil buffer) refl
  read_loop-end (chunk ∷ chunks) buffer needs more full few lacks e =
      let tail = (chunk ++ concat chunks) ++ more in
      let size : length (buffer ++ tail) ≡ length (frame m) = ap length e in
      let short : length buffer < length (frame m) =
        omega
          (arith, size, length-append buffer tail, length-append (chunk ++ concat chunks) more) in
      let prefix =
        short_prefix buffer tail (frame m) [] (e ∙ sym (append-nil (frame m))) (omega arith) in
      let (n, a, few') = attempt_short buffer needs few short prefix in
      let moved : (buffer ++ chunk) ++ (concat chunks ++ more) ≡ buffer ++ tail =
        append_assoc buffer chunk (concat chunks ++ more)
        ∙ ap (λ zs. buffer ++ zs) (sym (append_assoc chunk (concat chunks) more)) in
      read_loop-wait chunk chunks buffer needs n full.0 a
      ∙ read_loop-end chunks (buffer ++ chunk) n more full.1 few' lacks (moved ∙ e)
      ∙ ap end_of_stream (append_assoc buffer chunk (concat chunks))

-- A message whose fields fit their u32s arrives however the stream is cut into chunks that are not
-- empty, and whatever part of it is in the buffer: the read returns it, and what follows it in the
-- stream stays in the buffer and the chunks that are left.
pub read_msg-encode :
    (api : BytesApi) (m : Messages) (buffer : Bytes) (chunks : List Bytes) (more : Bytes)
    → IsEncodable m
    → All IsChunk chunks
    → buffer ++ concat chunks ≡ encode api m [] ++ more
    → Returns m more (read_msg (decode api) buffer chunks)
unfolding read_msg
read_msg-encode api m buffer chunks more h full e =
    read_loop-Returns api m h chunks buffer 0 more full (omega arith)
      (e ∙ ap (λ b. b ++ more) (encode-eq-frame api m [] h))

-- A stream that ends inside a message: the read reports a closed connection if nothing of the
-- message has arrived, and a reset otherwise.
pub read_msg-end :
    (api : BytesApi) (m : Messages) (buffer : Bytes) (chunks : List Bytes) (more : Bytes)
    → IsEncodable m
    → All IsChunk chunks
    → 0 < length more
    → buffer ++ (concat chunks ++ more) ≡ encode api m []
    → read_msg (decode api) buffer chunks ≡ end_of_stream (buffer ++ concat chunks)
unfolding read_msg
read_msg-end api m buffer chunks more h full lacks e =
    read_loop-end api m h chunks buffer 0 more full (omega arith) lacks
      (e ∙ encode-eq-frame api m [] h)
