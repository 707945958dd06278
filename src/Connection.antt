-- ===== src/Connection.antt =====
-- src/peer/net.rs, `Connection::read_msg`: messages reassembled from what the stream delivers, one
-- chunk for each read. A read of no bytes, like the end of the chunks, is the end of the stream. An
-- I/O error of a read, which `read_msg` passes on, is not modelled.
pub mod Reassembly
pub mod Peering
pub mod Handshaking
pub mod Limit
pub mod Running
pub mod Relaying
pub mod Keeping
pub mod Delivery
pub mod Draining
pub mod Ending
pub mod Outgoing
use bentorrent.Prelude.{ℕ, leb, if◌then◌else◌, List, [], ◌∷◌, ◌++◌, length, is_empty}
use bentorrent.Outcome.{Outcome, ok, err, panic}
use bentorrent.Torrent.{Bytes}
use bentorrent.Protocol.{ProtocolError, try_get_error, bad_id, Decoder}

-- A message with the buffer and the chunks that are left, or why there is none.
pub data Read (T : Type 0) : Type 0 where
  message : T → (buffer : Bytes) (chunks : List Bytes) → Read T
  closed reset panicked : Read T
  failed : ProtocolError → Read T

-- One turn of the loop before it reads: a message, or the number of bytes to wait for.
pub data Attempt (T : Type 0) : Type 0 where
  parsed : T → (rest : Bytes) → Attempt T
  waits : (needs : ℕ) → Attempt T
  broken : ProtocolError → Attempt T
  crashed : Attempt T

abbrev pub end_of_stream : {T : Type 0} → Bytes → Read T
end_of_stream buffer = if is_empty buffer then closed else reset

abbrev pub attempt_of : {T : Type 0} → Outcome ProtocolError (T × Bytes) → Attempt T
attempt_of (ok r) = parsed r.0 r.1
attempt_of (err (try_get_error e)) = waits e.requested
attempt_of (err bad_id) = broken bad_id
attempt_of panic = crashed

module _ {T : Type 0} (decode : Decoder T) where
  unfoldable pub attempt : Bytes → ℕ → Attempt T
  attempt buffer needs =
      if leb needs (length buffer) then attempt_of (decode buffer) else waits needs

  unfoldable pub read_loop : Bytes → ℕ → List Bytes → Read T
  unfolding attempt
  read_loop buffer needs [] = elim (attempt buffer needs) [
    | parsed m rest ↦ message m rest []
    | waits n ↦ end_of_stream buffer
    | broken e ↦ failed e
    | crashed ↦ panicked
  ]
  read_loop buffer needs (chunk ∷ chunks) = elim (attempt buffer needs) [
    | parsed m rest ↦ message m rest (chunk ∷ chunks)
    | waits n ↦ elim chunk [
      | [] ↦ end_of_stream buffer
      | x ∷ xs ↦ read_loop (buffer ++ x ∷ xs) n chunks
    ]
    | broken e ↦ failed e
    | crashed ↦ panicked
  ]

  unfoldable pub read_msg : Bytes → List Bytes → Read T
  unfolding read_loop
  read_msg buffer chunks = read_loop buffer 0 chunks
