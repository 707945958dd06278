-- ===== src/Processor/Serving.antt =====
-- src/peer/state/mod.rs, `dequeue_requests`: which requests of the peers are answered.
use bentorrent.Prelude.{
  take_nil, drop_nil, lt-or-le, inl, inr, ℕ, suc, ◌-◌, ◌≤◌, ◌≡◌, refl, arith, leb, true, false,
  List, [], ◌∷◌, take, drop,
}
use bentorrent.Torrent.{PeerRequestedPiece}
use bentorrent.Processor.{dequeue}

dequeue_from :
    (n : ℕ) (queue : List PeerRequestedPiece)
    → n ≤ 4
    → dequeue n queue ≡ (drop (5 - n) queue, take (4 - n) queue)
unfolding dequeue
dequeue_from n [] h = rw (drop_nil (5 - n), take_nil (4 - n)) refl
dequeue_from n (dq ∷ queue) h = elim (lt-or-le n 4) [
  | inl more ↦
      let under : leb 4 n ≡ false = ground arith in
      let left : 5 - n ≡ suc (5 - suc n) = omega arith in
      let taken : 4 - n ≡ suc (4 - suc n) = omega arith in
      rw (under, left, taken, dequeue_from (suc n) queue more) refl
  | inr full ↦
      let over : leb 4 n ≡ true = ground arith in
      let left : 5 - n ≡ 1 = omega arith in
      let taken : 4 - n ≡ 0 = omega arith in rw (over, left, taken) refl
]

-- Of the queue of the peers' requests the first four are taken to be answered, and what stays is
-- the queue without its first five.
pub dequeue_drops_fifth :
    (queue : List PeerRequestedPiece) → dequeue 0 queue ≡ (drop 5 queue, take 4 queue)
dequeue_drops_fifth queue = dequeue_from 0 queue (omega arith)
