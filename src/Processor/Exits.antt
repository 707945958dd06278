-- ===== src/Processor/Exits.antt =====
-- src/peer/state/mod.rs, `dequeue_requests`, over the memory store (src/peer/io/mod.rs) and its task
-- (src/peer/io/state.rs): what a request that does not fit its piece does to the others.
use bentorrent.Prelude.{
  sym, subst, ◌∙◌, ap, ℕ, ◌+◌, ◌<◌, ◌≡◌, refl, none, some, List, [], ◌∷◌, length, u32_mod,
  Option-cases, inl, inr,
}
use bentorrent.Prelude.Eq.{list_eq}
use bentorrent.Prelude.Maps.{lookup}
use bentorrent.Outcome.{panic, err}
use bentorrent.Torrent.{Bytes, PeerRequestedPiece}
use bentorrent.Io.{TorrentIo}
use bentorrent.Handler.{answered, IoHandler, handler_exits}
use bentorrent.Handler
use bentorrent.Memory.{read_piece, MemoryTorrentIo, memory_io}
use bentorrent.Memory.Bytewise.{piece_size, read_piece_panics}
use bentorrent.Processor.{InnerTorrentState, PeerToSender, Sender, serve, dequeue, dequeue_requests}

-- No write and no read of any piece is answered, and no peer is served.
abbrev pub IsGone : {S : Type 0} → TorrentIo S → IoHandler S → Type 0
IsGone io h =
    ((index begin : ℕ) (block : Bytes)
      → Handler.write io h index begin block ≡ (h, err handler_exits))
    × ((index begin len : ℕ) → Handler.read io h index begin len ≡ (h, err handler_exits))
    × ((peer_to_tx : PeerToSender) (requests : List PeerRequestedPiece)
        → ((serve io h peer_to_tx requests).0 ≡ h) × ((serve io h peer_to_tx requests).1 ≡ []))

module _ {S : Type 0} (io : TorrentIo S) where
  abbrev stopped : IoHandler S
  stopped = record { store = none }

  serve-stopped :
      (peer_to_tx : PeerToSender) (requests : List PeerRequestedPiece)
      → ((serve io stopped peer_to_tx requests).0 ≡ stopped)
        × ((serve io stopped peer_to_tx requests).1 ≡ [])
  unfolding serve Handler.read
  serve-stopped peer_to_tx [] = (refl, refl)
  serve-stopped peer_to_tx (dq ∷ requests) = elim (Option-cases (lookup dq.peer_id peer_to_tx)) [
    | inl e ↦ rw (e, serve) (serve-stopped peer_to_tx requests)
    | inr (tx, e) ↦ rw (e, serve) (refl, refl)
  ]

  stopped-IsGone : IsGone io stopped
  unfolding Handler.write Handler.read
  stopped-IsGone = ((λ index begin block. refl), (λ index begin len. refl), serve-stopped)

module _ (m : MemoryTorrentIo) (peer_to_tx : PeerToSender) (dq : PeerRequestedPiece) where
  abbrev running : IoHandler MemoryTorrentIo
  running = record { store = some m }

  read-stops :
      read_piece m dq.index dq.begin dq.length ≡ panic
      → Handler.read memory_io running dq.index dq.begin dq.length
        ≡ (stopped memory_io, err handler_exits)
  unfolding Handler.read
  read-stops panics = ap (answered m) panics

  serve-stops :
      (tx : Sender) (requests : List PeerRequestedPiece)
      → lookup dq.peer_id peer_to_tx ≡ some tx
      → read_piece m dq.index dq.begin dq.length ≡ panic
      → serve memory_io running peer_to_tx (dq ∷ requests)
        ≡ (stopped memory_io, [], some handler_exits)
  unfolding serve
  serve-stops tx requests connected panics =
      let stops = read-stops panics in
      rw (connected, serve, stops) (ap (λ r. (r.0, [], some handler_exits)) stops)

-- The memory store runs, and the first request of the queue is one of a connected peer that does not
-- fit its piece (with an end below 2^32): serving the queue sends nothing to anyone and stops the
-- store's task, so that from then on every write, every read and every request of any peer fails.
pub dequeue_requests-IsGone :
    (s : InnerTorrentState) (peer_to_tx : PeerToSender) (m : MemoryTorrentIo)
    (dq : PeerRequestedPiece) (queue : List PeerRequestedPiece) (tx : Sender)
    → s.torrent_state.outstanding_peer_requests ≡ dq ∷ queue
    → lookup dq.peer_id peer_to_tx ≡ some tx
    → dq.index < length m.memory
    → piece_size m dq.index < dq.begin + dq.length
    → dq.begin + dq.length < u32_mod
    → let served = (dequeue_requests memory_io s peer_to_tx (record { store = some m })).1 in
      (served.1 ≡ []) × IsGone memory_io served.0
unfolding dequeue_requests dequeue
dequeue_requests-IsGone s peer_to_tx m dq queue tx queued connected exists beyond small =
    let panics = read_piece_panics m dq.index dq.begin dq.length exists beyond small in
    let stops = serve-stops m peer_to_tx dq tx (dequeue 1 queue).1 connected panics in
    let served : (dequeue_requests memory_io s peer_to_tx (running m peer_to_tx dq)).1
        ≡ (stopped memory_io, [], some handler_exits) =
      ap (λ q. serve memory_io (running m peer_to_tx dq) peer_to_tx (dequeue 0 q).1) queued
      ∙ stops in
    subst (λ r. (r.1 ≡ []) × IsGone memory_io r.0) (sym served) (refl, stopped-IsGone memory_io)
