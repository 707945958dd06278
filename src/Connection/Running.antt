-- ===== src/Connection/Running.antt =====
-- src/peer/net.rs, `run_connection`: the select loop that passes messages between the socket of a
-- peer and the processor. The loop is followed poll by poll of its `select!`.
use bentorrent.Prelude.{ℕ, zero, suc, Bool, true, false, ◌&&◌, if◌then◌else◌, List, [], ◌∷◌, ◌++◌}
use bentorrent.Outcome.{Outcome, ok, err, panic}
use bentorrent.Torrent.{Bytes}
use bentorrent.BytesApi.{BytesApi}
use bentorrent.Protocol.{Decoder, Messages, decode}
use bentorrent.Connection.{attempt, parsed, waits, broken, crashed}
use bentorrent.Connection.Peering.{Connection, ConnError, channel_closed, with_input, write_msg}

-- What a poll of `read_msg` gives. `over` is the end of the stream or an error.
pub data Polled (T : Type 0) : Type 0 where
  gives : T → (buffer : Bytes) (chunks : List Bytes) → Polled T
  pending : (buffer : Bytes) (needs : ℕ) (chunks : List Bytes) → Polled T
  over : (buffer : Bytes) (chunks : List Bytes) → Polled T
  panics : Polled T

-- A read that finds nothing after the chunks, or an empty one, is the end of the stream.
module _ {T : Type 0} (decoder : Decoder T) where
  -- A poll of `read_msg` while the stream has `arrived` reads ready.
  unfoldable pub poll_read : Bytes → (needs arrived : ℕ) → List Bytes → Polled T
  unfolding attempt
  poll_read buffer needs zero chunks = elim (attempt decoder buffer needs) [
    | parsed m rest ↦ gives m rest chunks
    | waits n ↦ pending buffer n chunks
    | broken e ↦ over buffer chunks
    | crashed ↦ panics
  ]
  poll_read buffer needs (suc arrived) [] = elim (attempt decoder buffer needs) [
    | parsed m rest ↦ gives m rest []
    | waits n ↦ over buffer []
    | broken e ↦ over buffer []
    | crashed ↦ panics
  ]
  poll_read buffer needs (suc arrived) (chunk ∷ chunks) = elim (attempt decoder buffer needs) [
    | parsed m rest ↦ gives m rest (chunk ∷ chunks)
    | waits n ↦ elim chunk [
      | [] ↦ over buffer ([] ∷ chunks)
      | x ∷ xs ↦ poll_read (buffer ++ x ∷ xs) n arrived chunks
    ]
    | broken e ↦ over buffer (chunk ∷ chunks)
    | crashed ↦ panics
  ]

-- Whether the loop goes on, or what `run_connection` has returned.
pub data Status : Type 0 where
  running : Status
  returned : Outcome ConnError (Unit {0}) → Status

-- A connection that is run. `needs` and `read_over` belong to the read of the present `select!`;
-- `outbox` holds what the processor has sent and the loop has not taken, `inbox` what the processor
-- was sent, `hung_up` says that the processor has dropped its sender, `accepting` that it still has
-- its receiver.
pub record Link : Type 0 where
  pub conn : Connection
  pub needs : ℕ
  pub read_over : Bool
  pub outbox : List Messages
  pub inbox : List Messages
  pub hung_up : Bool
  pub accepting : Bool
  pub status : Status

-- The state at the loop's start.
abbrev pub link : Connection → Link
link conn = record {
  conn = conn;
  needs = 0;
  read_over = false;
  outbox = [];
  inbox = [];
  hung_up = false;
  accepting = true;
  status = running;
}

-- The announcement of the connection to the processor, which may be gone.
unfoldable pub run_connection : Connection → (announced : Bool) → Link
run_connection conn true = link conn
run_connection conn false = record (link conn) { status = returned (err channel_closed) }

-- The read has given a message, which goes to the processor; the next `select!` begins.
unfoldable pub deliver : Link → Messages → Bytes → List Bytes → Link
deliver l msg buffer chunks =
    let l' = record l { conn = with_input l.conn buffer chunks; needs = 0; read_over = false } in
    if l.accepting
    then record l' { inbox = l.inbox ++ msg ∷ [] }
    else record l' { status = returned (err channel_closed) }

-- The read goes on after this poll, or its branch is disabled.
abbrev pub still_reading : Link → Bytes → ℕ → List Bytes → Link
still_reading l buffer needs chunks = record l {
  conn = with_input l.conn buffer chunks;
  needs = needs;
}

abbrev pub no_longer_reading : Link → Bytes → List Bytes → Link
no_longer_reading l buffer chunks = record l {
  conn = with_input l.conn buffer chunks;
  read_over = true;
}

-- How a write ends the turn.
abbrev pub after_send : Link → Outcome ConnError (Unit {0}) → Link
after_send l (ok u) = l
after_send l (err e) = record l { status = returned (err e) }
after_send l panic = record l { status = returned panic }

module _ (api : BytesApi) where
  -- A message of the processor is written, and the read is dropped; the next `select!` begins.
  unfoldable pub send_out : Link → Messages → List Messages → Link
  unfolding write_msg
  send_out l msg outbox =
      let w = write_msg api l.conn msg in
      after_send (record l { conn = w.0; needs = 0; read_over = false; outbox = outbox }) w.1

  -- The poll of `recv` after that of the read has given no message. With both branches disabled the
  -- loop breaks.
  unfoldable pub poll_recv : Link → Link
  unfolding send_out
  poll_recv l = elim l.outbox [
    | [] ↦ if l.hung_up && l.read_over then record l { status = returned (ok tt) } else l
    | msg ∷ outbox ↦ send_out l msg outbox
  ]

  unfoldable pub after_read : Link → Polled Messages → Link
  unfolding deliver poll_recv
  after_read l (gives msg buffer chunks) = deliver l msg buffer chunks
  after_read l (pending buffer needs chunks) = poll_recv (still_reading l buffer needs chunks)
  after_read l (over buffer chunks) = poll_recv (no_longer_reading l buffer chunks)
  after_read l panics = record l { status = returned panic }

  -- A read that has ended is not polled again by the same `select!`.
  unfoldable pub poll_read_branch : Link → (arrived : ℕ) → Link
  unfolding poll_read after_read
  poll_read_branch l arrived =
      if l.read_over
      then poll_recv l
      else after_read l (poll_read (decode api) l.conn.buffer l.needs arrived l.conn.chunks)

  -- A poll of `select!`, which polls its branches in a random order.
  unfoldable pub poll : Link → (read_first : Bool) (arrived : ℕ) → Link
  unfolding poll_read_branch send_out
  poll l true arrived = poll_read_branch l arrived
  poll l false arrived = elim l.outbox [
    | [] ↦ poll_read_branch l arrived
    | msg ∷ outbox ↦ send_out l msg outbox
  ]

-- What happens to a connection: a poll, and what the processor does.
pub data Event : Type 0 where
  polls : (read_first : Bool) (arrived : ℕ) → Event
  sends : Messages → Event
  hangs_up stops : Event

module _ (api : BytesApi) where
  unfoldable pub step : Link → Event → Link
  unfolding poll
  step l (polls read_first arrived) = elim l.status [
    | running ↦ poll api l read_first arrived
    | returned r ↦ l
  ]
  step l (sends msg) = if l.hung_up then l else record l { outbox = l.outbox ++ msg ∷ [] }
  step l hangs_up = record l { hung_up = true }
  step l stops = record l { accepting = false }

  unfoldable pub run : Link → List Event → Link
  unfolding step
  run l [] = l
  run l (e ∷ events) = run (step l e) events
