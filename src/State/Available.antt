-- ===== src/State/Available.antt =====
-- src/peer/state/mod.rs, `TorrentState`.
-- Which pieces are offered for download, and by whom.
use bentorrent.Prelude.{ℕ, Bool, false, ◌||◌, none, some, List}
use bentorrent.Prelude.Eq.{nat_eq, list_eq}
use bentorrent.Prelude.Sets.{contains}
use bentorrent.Prelude.Maps.{contains_key, Map, lookup}
use bentorrent.Torrent.{PeerId}
use bentorrent.Piece.Tracker.{PieceBlockTracker, started}

-- Peer `q` is offered for piece `x`.
abbrev pub offers : Map ℕ (List PeerId) → ℕ → PeerId → Bool
offers m x q = elim (lookup x m) [ none ↦ false | some peers ↦ contains q peers ]

-- A block of the piece is in flight or done.
abbrev pub is_started : PieceBlockTracker → ℕ → Bool
is_started t x = contains_key x (started t).downloading || contains_key x (started t).done
