-- ===== src/Handler.antt =====
-- src/peer/io/state.rs: the task that owns the store and answers one message after the other, and
-- the handle by which the others call it.
use bentorrent.Prelude.{ℕ, Bool, Option, none, some, [], ◌∷◌}
use bentorrent.Outcome.{Outcome, ok, err, panic}
use bentorrent.Torrent.{Bytes}
use bentorrent.Io.{PeerError, other, TorrentIo}

-- The store, while its task runs.
pub record IoHandler (S : Type 0) : Type 0 where
  pub store : Option S

-- "file handler exits..."
abbrev pub handler_exits : PeerError
handler_exits = other (
    102 ∷ 105 ∷ 108 ∷ 101 ∷ 32 ∷ 104 ∷ 97 ∷ 110 ∷ 100 ∷ 108 ∷ 101 ∷ 114 ∷ 32 ∷ 101 ∷ 120 ∷ 105 ∷ 116
    ∷ 115 ∷ 46 ∷ 46 ∷ 46 ∷ [])

-- A panic of the store ends the task, and the caller is told that it has gone.
abbrev pub answered : {S A : Type 0} → S → Outcome PeerError A → IoHandler S × Outcome PeerError A
answered s panic = (record { store = none }, err handler_exits)
answered s (ok a) = (record { store = some s }, ok a)
answered s (err e) = (record { store = some s }, err e)

module _ {S : Type 0} (io : TorrentIo S) where
  open io use {write_piece, read_piece}

  unfoldable pub write :
      IoHandler S → (index begin : ℕ) (block : Bytes) → IoHandler S × Outcome PeerError Bool
  write h index begin block = elim h.store [
    | none ↦ (h, err handler_exits)
    | some s ↦ let r = write_piece s index begin block in answered r.0 r.1
  ]

  unfoldable pub read : IoHandler S → (index begin len : ℕ) → IoHandler S × Outcome PeerError Bytes
  read h index begin len = elim h.store [
    | none ↦ (h, err handler_exits)
    | some s ↦ answered s (read_piece s index begin len)
  ]
