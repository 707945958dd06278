-- ===== src/BitField.antt =====
-- src/peer/bitfield.rs: bit sets as bytes, the highest bit of a byte first.
pub mod Holding
pub mod RoundTrip
use bentorrent.Prelude.{
  ℕ, zero, suc, ◌+◌, ◌/◌, ◌%◌, ◌^◌, ◌==◌, ltb, if◌then◌else◌, Bool, true, false, Option, none, some,
  List, [], ◌∷◌, ◌++◌, length, get_elem?, set, to_u32, add_u32, sub_usize,
}
use bentorrent.Prelude.Eq.{nat_eq}
use bentorrent.Prelude.Sets.{contains}
use bentorrent.Prelude.Bits.{land, lor}
use bentorrent.Torrent.{Bytes}

pub record BitFieldReader : Type 0 where
  pub bytes : Bytes

abbrev pub mask : ℕ
mask = 128

-- `checked_shr` of a u8.
unfoldable pub checked_shr : ℕ → ℕ → Option ℕ
checked_shr v pos = if ltb pos 8 then some (v / 2 ^ pos) else none

unfoldable pub get_bit : BitFieldReader → ℕ → Option Bool
unfolding checked_shr
get_bit r bit_num = elim (get_elem? r.bytes (bit_num / 8)) [
  | none ↦ none
  | some byte ↦ elim (checked_shr mask (to_u32 bit_num % 8)) [
    | none ↦ none
    | some m ↦ if land 8 m byte == 0 then some false else some true
  ]
]

pub record BitFieldReaderIter : Type 0 where
  pub reader : BitFieldReader
  pub pos : ℕ

abbrev pub iter_of : BitFieldReader → BitFieldReaderIter
iter_of reader = record { reader = reader; pos = 0 }

unfoldable pub next : BitFieldReaderIter → BitFieldReaderIter × Option Bool
next it = (record it { pos = suc it.pos }, get_bit it.reader it.pos)

pub record BitFieldWriter : Type 0 where
  pub bytes : Bytes
  pub bits_written : ℕ

abbrev pub new : Bytes → BitFieldWriter
new bytes = record { bytes = bytes; bits_written = 0 }

-- The byte in which the next bit lies is the last.
unfoldable pub grown : BitFieldWriter → Bytes
grown w = if w.bits_written % 8 == 0 then w.bytes ++ 0 ∷ [] else w.bytes

-- `none` is the panic of an index into no bytes.
unfoldable pub put_bit : BitFieldWriter → Bool → Option BitFieldWriter
unfolding grown
put_bit w bit =
    let bytes = grown w in
    let last_byte_pos = sub_usize (length bytes) 1 in
    elim (get_elem? bytes last_byte_pos) [
      | none ↦ none
      | some last_byte ↦ some (record {
        bytes =
            if bit
            then set bytes last_byte_pos (lor 8 last_byte (mask / 2 ^ (w.bits_written % 8)))
            else bytes;
        bits_written = add_u32 w.bits_written 1;
      })
    ]

-- The loop from `i` on, `n` times.
unfoldable pub put_bits_from : BitFieldWriter → List ℕ → ℕ → ℕ → Option BitFieldWriter
put_bits_from w bits i zero = some w
put_bits_from w bits i (suc n) = elim (put_bit w (contains i bits)) [
  | none ↦ none
  | some w' ↦ put_bits_from w' bits (suc i) n
]

unfoldable pub put_bit_set : BitFieldWriter → List ℕ → ℕ → Option BitFieldWriter
unfolding put_bits_from
put_bit_set w bits len = put_bits_from w bits 0 (to_u32 len)
