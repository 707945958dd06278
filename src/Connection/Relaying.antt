-- ===== src/Connection/Relaying.antt =====
-- src/peer/net.rs, `run_connection`: what a peer sends reaches the processor, whatever the order in
-- which the loop polls, and though a message to be written drops the read that is under way.
use bentorrent.Prelude.{
  leb, ◌+◌, Bool-cases, length-append, ℕ, zero, suc, ◌<◌, ◌≤◌, ◌≡◌, refl, ap, ◌∙◌, arith, lt-or-le,
  inl, inr, ◌⊎◌, List, [], ◌∷◌, ◌++◌, length, All, append_assoc,
}
use bentorrent.Torrent.{Bytes}
use bentorrent.BytesApi.{BytesApi}
use bentorrent.Protocol.{keep_alive, Messages, decode}
use bentorrent.Protocol.Incomplete.{shortage}
use bentorrent.Protocol.Frames.{frame, IsEncodable}
use bentorrent.Connection.{attempt, parsed, waits}
use bentorrent.Connection.Reassembly.{
  frame-length, decode-prefix, concat, IsChunk, long_prefix, short_prefix, attempt_long,
  attempt_short,
}
use bentorrent.Connection.Running.{Polled, gives, pending, over, panics, poll_read}

-- What a poll of the read may give while the stream holds a message and then `more`, with at most
-- `later` reads that have not arrived, and at most `total` chunks in all.
abbrev pub IsProgress : (total later : ℕ) → Messages → Bytes → Polled Messages → Type 0
IsProgress total later m more (gives msg buffer chunks) =
    (msg ≡ m) × (buffer ++ concat chunks ≡ more) × All IsChunk chunks × (length chunks ≤ total)
IsProgress total later m more (pending buffer needs chunks) =
    (buffer ++ concat chunks ≡ frame m ++ more)
    × (needs ≤ length (frame m))
    × All IsChunk chunks
    × (0 < length chunks)
    × (length chunks ≤ later)
IsProgress total later m more (over buffer chunks) = ⊥
IsProgress total later m more panics = ⊥

module _ (api : BytesApi) (m : Messages) (h : IsEncodable m) where
  attempt-cases :
      (buffer tail : Bytes) (needs : ℕ) (more : Bytes)
      → needs ≤ length (frame m)
      → buffer ++ tail ≡ frame m ++ more
      → ((rest : Bytes) × (attempt (decode api) buffer needs ≡ parsed m rest)
          × (rest ++ tail ≡ more))
        ⊎ ((n : ℕ) × (attempt (decode api) buffer needs ≡ waits n)
            × (n ≤ length (frame m))
            × (length buffer < length (frame m)))
  attempt-cases buffer tail needs more few e = elim (lt-or-le (length buffer) (length (frame m))) [
    | inr enough ↦
        let (rest, p, q) = long_prefix buffer tail (frame m) more e enough in
        inl (rest, attempt_long api m h buffer rest needs few p, q)
    | inl short ↦
        let prefix = short_prefix buffer tail (frame m) more e (omega arith) in
        let (n, a, few') = attempt_short api m h buffer needs few short prefix in
        inr (n, a, few', short)
  ]

  -- A buffer that lacks a part of the message has it to come.
  more_to_come :
      (buffer : Bytes) (chunks : List Bytes) (more : Bytes)
      → buffer ++ concat chunks ≡ frame m ++ more
      → length buffer < length (frame m)
      → 0 < length chunks
  more_to_come buffer (chunk ∷ chunks) more e short = omega arith
  more_to_come buffer [] more e short =
      let size : length (buffer ++ []) ≡ length (frame m ++ more) = ap length e in
      absurd (omega (arith, size, short, length-append buffer [], length-append (frame m) more))

  pub poll_read-IsProgress :
      (total later arrived : ℕ) (chunks : List Bytes) (buffer : Bytes) (needs : ℕ) (more : Bytes)
      → All IsChunk chunks
      → needs ≤ length (frame m)
      → buffer ++ concat chunks ≡ frame m ++ more
      → length chunks ≤ arrived + later
      → length chunks ≤ total
      → IsProgress total later m more (poll_read (decode api) buffer needs arrived chunks)
  unfolding poll_read
  poll_read-IsProgress total later zero chunks buffer needs more full few e all size =
      elim (attempt-cases buffer (concat chunks) needs more few e) [
        | inl (rest, a, q) ↦ rw (a, poll_read, IsProgress) (refl, q, full, size)
        | inr (n, a, few', short) ↦
            let left = more_to_come buffer chunks more e short in
            rw (a, poll_read, IsProgress) (e, few', full, left, omega (arith, all))
      ]
  poll_read-IsProgress total later (suc arrived) [] buffer needs more full few e all size =
      elim (attempt-cases buffer [] needs more few e) [
        | inl (rest, a, q) ↦ rw (a, poll_read, IsProgress) (refl, q, tt, size)
        | inr (n, a, few', short) ↦
            let left = more_to_come buffer [] more e short in absurd (omega (arith, left))
      ]
  poll_read-IsProgress total later (suc arrived) ([] ∷ chunks) buffer needs more full few e all
        size =
      absurd (ground (arith, full.0))
  poll_read-IsProgress total later (suc arrived) ((x ∷ xs) ∷ chunks) buffer needs more full few e
        all size =
      elim (attempt-cases buffer (concat ((x ∷ xs) ∷ chunks)) needs more few e) [
        | inl (rest, a, q) ↦ rw (a, poll_read, IsProgress) (refl, q, full, size)
        | inr (n, a, few', short) ↦
            rw (a, poll_read)
              (poll_read-IsProgress total later arrived chunks (buffer ++ x ∷ xs) n more full.1 few'
                (append_assoc buffer (x ∷ xs) (concat chunks) ∙ e) (omega arith)
                (omega (arith, size)))
      ]

-- At the end of the stream a poll gives no message.
abbrev pub IsIdle : Polled Messages → Type 0
IsIdle (gives msg buffer chunks) = ⊥
IsIdle (pending buffer needs chunks) = (buffer ≡ []) × (chunks ≡ [])
IsIdle (over buffer chunks) = (buffer ≡ []) × (chunks ≡ [])
IsIdle panics = ⊥

module _ (api : BytesApi) where
  pub attempt_nothing : (needs : ℕ) → (n : ℕ) × (attempt (decode api) [] needs ≡ waits n)
  unfolding attempt
  attempt_nothing needs = elim (Bool-cases (leb needs 0)) [
    | inl tries ↦
        let cut = decode-prefix api keep_alive tt 0 (omega (arith, frame-length keep_alive)) in
        ((shortage keep_alive 0).requested, rw (tries, cut, attempt) refl)
    | inr waits_on ↦ (needs, rw (waits_on, attempt) refl)
  ]

  pub poll_read-IsIdle : (needs arrived : ℕ) → IsIdle (poll_read (decode api) [] needs arrived [])
  unfolding poll_read
  poll_read-IsIdle needs zero =
      let (n, a) = attempt_nothing needs in rw (a, poll_read, IsIdle) (refl, refl)
  poll_read-IsIdle needs (suc arrived) =
      let (n, a) = attempt_nothing needs in rw (a, poll_read, IsIdle) (refl, refl)
