-- ===== src/Processor/Announcing.antt =====
-- src/peer/state/mod.rs: the bit field by which one client tells another what it has, sent by
-- `init_connection` and read by `inner_handle_peer_msgs`.
use bentorrent.Prelude.{
  ◌^◌, ap, sym, ◌∙◌, ==_iff, lt-or-le, ◌||◌, not, inr, ◌%◌, inl, get_elem?-some, Bool-cases,
  get_elem?-none, ℕ, zero, suc, ◌+◌, ◌*◌, ◌/◌, ◌<◌, ◌≤◌, ◌≡◌, refl, arith, leb, ltb, ◌&&◌, ◌==◌,
  Bool, true, false, Option, none, some, List, ◌∷◌, length, to_u32, u32_mod, if◌then◌else◌,
}
use bentorrent.Prelude.Eq.{nat_eq}
use bentorrent.Prelude.Sets.{contains}
use bentorrent.Torrent.{Bytes}
use bentorrent.BitField.{checked_shr, get_bit, next}
use bentorrent.Prelude.Bits.{land}
use bentorrent.BitField.Holding.{reader}
use bentorrent.BitField.RoundTrip.{get_bit-put_bit_set}
use bentorrent.Processor.{InnerTorrentState, completed_bit_field}
use bentorrent.Processor.Handling.{pieces_present, collect_pieces}

abbrev is_set : Option Bool → Bool
is_set none = false
is_set (some b) = b

get_bit-inside :
    (bytes : Bytes) (i : ℕ)
    → i < 8 * length bytes
    → (b : Bool) × (get_bit (reader bytes) i ≡ some b)
unfolding get_bit checked_shr
get_bit-inside bytes i h =
    let (byte, e) = get_elem?-some bytes (i / 8) (omega arith) in
    let pos : to_u32 i % 8 < 8 = omega arith in
    let low : ltb (to_u32 i % 8) 8 ≡ true = ground arith in
    (not (land 8 (128 / 2 ^ (to_u32 i % 8)) byte == 0), rw (e, low) (ground arith))

get_bit-outside : (bytes : Bytes) (i : ℕ) → 8 * length bytes ≤ i → get_bit (reader bytes) i ≡ none
unfolding get_bit
get_bit-outside bytes i h = rw (get_elem?-none bytes (i / 8) (omega arith)) refl

collect_pieces_step :
    (bytes : Bytes) (n pos : ℕ) (b : Bool)
    → get_bit (reader bytes) pos ≡ some b
    → let rest = collect_pieces n (record { reader = reader bytes; pos = suc pos }) in
      collect_pieces (suc n) (record { reader = reader bytes; pos = pos })
      ≡ (if b then to_u32 pos ∷ rest else rest)
unfolding collect_pieces next
collect_pieces_step bytes n pos b e = rw (e, collect_pieces) refl

contains-if :
    (b : Bool) (x y : ℕ) (rest : List ℕ)
    → contains x (if b then y ∷ rest else rest) ≡ ((b && (y == x)) || contains x rest)
unfolding contains
contains-if true x y rest = refl
contains-if false x y rest = refl

collect_pieces-contains :
    (bytes : Bytes) (x n pos : ℕ)
    → pos + n ≤ 8 * length bytes
    → 8 * length bytes < u32_mod
    → contains x (collect_pieces n (record { reader = reader bytes; pos = pos }))
      ≡ (leb pos x && ltb x (pos + n) && is_set (get_bit (reader bytes) x))
unfolding collect_pieces contains
collect_pieces-contains bytes x zero pos h small = ground arith
collect_pieces-contains bytes x (suc n) pos h small =
    let (b, e) = get_bit-inside bytes pos (omega arith) in
    let rest = collect_pieces-contains bytes x n (suc pos) (omega arith) small in
    let index : to_u32 pos ≡ pos = omega arith in
    rw
      (
        collect_pieces_step bytes n pos b e,
        contains-if b x (to_u32 pos)
            (collect_pieces n (record { reader = reader bytes; pos = suc pos })),
        rest,
        index,
      )
      (elim (Bool-cases (pos == x)) [
        | inl here ↦
            let e' : get_bit (reader bytes) x ≡ some b =
              ap (get_bit (reader bytes)) (sym ((==_iff pos x).0 here)) ∙ e in
            rw e' (ground (arith, here))
        | inr other ↦ ground (arith, other)
      ])

-- The pieces that are read from a bit field of fewer than 2^29 bytes are those whose bits are set.
contains-pieces_present :
    (bytes : Bytes) (x : ℕ)
    → 8 * length bytes < u32_mod
    → contains x (pieces_present bytes) ≡ is_set (get_bit (reader bytes) x)
unfolding pieces_present
contains-pieces_present bytes x small =
    let found = collect_pieces-contains bytes x (8 * length bytes) 0 (omega arith) small in
    elim (lt-or-le x (8 * length bytes)) [
      | inl inside ↦ found ∙ ground arith
      | inr outside ↦ found ∙ rw (get_bit-outside bytes x outside) (ground arith)
    ]

-- The bit field that is sent to a new peer, for a torrent of fewer than 2^32 - 7 pieces, is made
-- without a panic, and the pieces that a receiver reads from it are the completed ones below the
-- number of pieces.
pub pieces_present-completed_bit_field :
    (s : InnerTorrentState)
    → length s.torrent.info.pieces + 7 < u32_mod
    → (bitfield : Bytes) × (completed_bit_field s ≡ some bitfield)
      × ((x : ℕ)
          → contains x (pieces_present bitfield) ≡ (
              ltb x (length s.torrent.info.pieces)
              && contains x s.torrent_state.piece_block_tracking.pieces_completed))
unfolding completed_bit_field
pieces_present-completed_bit_field s h =
    let completed = s.torrent_state.piece_block_tracking.pieces_completed in
    let n = length s.torrent.info.pieces in
    let (w, e, size, reads) = get_bit-put_bit_set completed n (omega arith) in
    (
      w.bytes,
      rw (e, completed_bit_field) refl,
      λ x.
          contains-pieces_present w.bytes x (omega (arith, size))
          ∙ elim (lt-or-le (x / 8) (length w.bytes)) [
            | inl inside ↦ rw (reads x inside) refl
            | inr outside ↦ rw (get_bit-outside w.bytes x (omega arith)) (ground (arith, size))
          ],
    )
