-- ===== src/BitField/Holding.antt =====
-- src/peer/bitfield.rs: the bytes of a bit field, and one more bit.
use bentorrent.Prelude.{
  ap, ==_iff, get_elem?-set_ne, get_elem?-set_self, get_elem?-append_end, length-append, sym, ◌∙◌,
  length-set, get_elem?-append_left, ◌^◌, inr, inl, Bool-cases, ◌*◌, lt-or-le, get_elem?-some, set,
  ltb, to_u32, ◌&&◌, ℕ, zero, suc, ◌+◌, ◌-◌, ◌/◌, ◌%◌, ◌<◌, ◌≤◌, ◌≡◌, refl, arith, some, Bool, true,
  false, List, [], ◌∷◌, ◌++◌, length, get_elem?, ◌==◌,
}
use bentorrent.Prelude.Eq.{nat_eq}
use bentorrent.Prelude.Bits.{
  test_bit-power, power, test_bit-zero, test_bit-lor, test_bit, land-power, mask_shr,
}
use bentorrent.Torrent.{Bytes}
use bentorrent.BitField.{lor, grown, checked_shr, BitFieldReader, BitFieldWriter, get_bit}

-- Bit `i` of what was written, and false after that.
unfoldable pub nth : List Bool → ℕ → Bool
nth [] i = false
nth (b ∷ bs) zero = b
nth (b ∷ bs) (suc i) = nth bs i

nth-append_left : (bs cs : List Bool) (i : ℕ) → i < length bs → nth (bs ++ cs) i ≡ nth bs i
unfolding nth
nth-append_left [] cs i h = absurd (omega arith)
nth-append_left (b ∷ bs) cs zero h = refl
nth-append_left (b ∷ bs) cs (suc i) h = nth-append_left bs cs i (omega arith)

nth-append_end :
    (bs : List Bool) (c : Bool) (i : ℕ)
    → length bs ≤ i
    → nth (bs ++ c ∷ []) i ≡ ((i == length bs) && c)
unfolding nth
nth-append_end [] c zero h = ground arith
nth-append_end [] c (suc i) h = ground arith
nth-append_end (b ∷ bs) c zero h = absurd (omega arith)
nth-append_end (b ∷ bs) c (suc i) h = ground (arith, nth-append_end bs c i)

nth_beyond : (bs : List Bool) (i : ℕ) → length bs ≤ i → nth bs i ≡ false
unfolding nth
nth_beyond [] i h = refl
nth_beyond (b ∷ bs) zero h = absurd (omega arith)
nth_beyond (b ∷ bs) (suc i) h = nth_beyond bs i (omega arith)

abbrev pub reader : Bytes → BitFieldReader
reader bytes = record { bytes = bytes }

-- A bit is read from its byte, the highest first.
get_bit-byte :
    (bytes : Bytes) (i byte : ℕ)
    → get_elem? bytes (i / 8) ≡ some byte
    → get_bit (reader bytes) i ≡ some (test_bit (7 - i % 8) byte)
unfolding get_bit checked_shr
get_bit-byte bytes i byte e =
    let pos : to_u32 i % 8 ≡ i % 8 = omega arith in
    let low : ltb (i % 8) 8 ≡ true = ground arith in
    let test = land-power 8 (7 - i % 8) byte (omega arith) in
    rw (e, pos, low, mask_shr (i % 8) (omega arith)) (ground (arith, test))

-- The bytes hold the bits, and false after them.
pub record Holds (bits : List Bool) (bytes : Bytes) : Type 0 where
  pub reads : (i : ℕ) → i / 8 < length bytes → get_bit (reader bytes) i ≡ some (nth bits i)

pub record IsWritten (bits : List Bool) (w : BitFieldWriter) : Type 0 where
  pub count : w.bits_written ≡ length bits
  pub size : length w.bytes ≡ (length bits + 7) / 8
  pub holds : Holds bits w.bytes

byte_of :
    (bytes : Bytes) (i : ℕ) → i / 8 < length bytes → (b : ℕ) × (get_elem? bytes (i / 8) ≡ some b)
byte_of bytes i h = get_elem?-some bytes (i / 8) h

-- One more byte of zeros.
append-Holds :
    (bits : List Bool) (bytes : Bytes)
    → length bits ≤ 8 * length bytes
    → Holds bits bytes
    → Holds bits (bytes ++ 0 ∷ [])
append-Holds bits bytes full v = record {
  reads = λ i h. elim (lt-or-le (i / 8) (length bytes)) [
    | inl old ↦
        let (b, e) = byte_of bytes i old in
        get_bit-byte (bytes ++ 0 ∷ []) i b (get_elem?-append_left bytes (0 ∷ []) (i / 8) old ∙ e)
        ∙ sym (get_bit-byte bytes i b e)
        ∙ v.reads i old
    | inr fresh ↦
        let here : i / 8 ≡ length bytes = omega (arith, length-append bytes (0 ∷ [])) in
        get_bit-byte (bytes ++ 0 ∷ []) i 0
          (ap (get_elem? (bytes ++ 0 ∷ [])) here ∙ get_elem?-append_end bytes [] 0)
        ∙ rw (test_bit-zero (7 - i % 8), nth_beyond bits i (omega arith)) refl
  ];
}

-- The byte of the next bit, once the bit is set.
set_bit :
    (bits : List Bool) (i last : ℕ)
    → i / 8 ≡ length bits / 8
    → some (test_bit (7 - i % 8) last) ≡ some (nth bits i)
    → some (test_bit (7 - i % 8) (lor 8 last (128 / 2 ^ (length bits % 8))))
      ≡ some (nth (bits ++ true ∷ []) i)
set_bit bits i last here old =
    let n = length bits in
    let k = 7 - i % 8 in
    rw
      (
        mask_shr (n % 8) (omega arith),
        test_bit-lor 8 k last (power (7 - n % 8)) (omega arith),
        test_bit-power k (7 - n % 8),
      )
      (elim (lt-or-le i n) [
        | inl before ↦ rw (nth-append_left bits (true ∷ []) i before) (ground (arith, old))
        | inr beyond ↦
            rw (nth-append_end bits true i beyond) (ground (arith, old, nth_beyond bits i beyond))
      ])

-- The next bit, set in the last byte.
pub set-Holds :
    (bits : List Bool) (bytes : Bytes) (last : ℕ)
    → length bytes ≡ length bits / 8 + 1
    → get_elem? bytes (length bits / 8) ≡ some last
    → Holds bits bytes
    → Holds
        (bits ++ true ∷ [])
        (set bytes (length bits / 8) (lor 8 last (128 / 2 ^ (length bits % 8))))
set-Holds bits bytes last size e v = record {
  reads = λ i h.
      let n = length bits in
      let inside : i / 8 < length bytes =
        omega (arith, length-set bytes (n / 8) (lor 8 last (128 / 2 ^ (n % 8)))) in
      elim (lt-or-le (i / 8) (n / 8)) [
        | inl before ↦
            let (b, e') = byte_of bytes i inside in
            get_bit-byte _ i b (get_elem?-set_ne bytes (n / 8) (i / 8) _ (λ q. omega arith) ∙ e')
            ∙ sym (get_bit-byte bytes i b e')
            ∙ v.reads i inside
            ∙ ap some (sym (nth-append_left bits (true ∷ []) i (omega arith)))
        | inr there ↦
            let here : i / 8 ≡ n / 8 = omega arith in
            let old : some (test_bit (7 - i % 8) last) ≡ some (nth bits i) =
              sym (get_bit-byte bytes i last (ap (get_elem? bytes) here ∙ e)) ∙ v.reads i inside in
            get_bit-byte _ i (lor 8 last (128 / 2 ^ (n % 8)))
              (ap (get_elem? _) here ∙ get_elem?-set_self bytes (n / 8) _ (omega arith))
            ∙ set_bit bits i last here old
      ];
}

pub skip-Holds :
    (bits : List Bool) (bytes : Bytes) → Holds bits bytes → Holds (bits ++ false ∷ []) bytes
skip-Holds bits bytes v = record {
  reads = λ i h. elim (lt-or-le i (length bits)) [
    | inl old ↦ rw (nth-append_left bits (false ∷ []) i old) (v.reads i h)
    | inr beyond ↦
        v.reads i h
        ∙ rw (nth_beyond bits i beyond, nth-append_end bits false i beyond) (ground arith)
  ];
}

pub grown-Holds :
    (bits : List Bool) (w : BitFieldWriter)
    → IsWritten bits w
    → (length (grown w) ≡ length bits / 8 + 1) × Holds bits (grown w)
unfolding grown
grown-Holds bits w v = elim (Bool-cases (w.bits_written % 8 == 0)) [
  | inl new_byte ↦
      rw (new_byte, grown)
        (
          omega (
            arith,
            length-append w.bytes (0 ∷ []),
            v.size,
            v.count,
            (==_iff (w.bits_written % 8) 0).0 new_byte,
          ),
          append-Holds bits w.bytes (omega (arith, v.size)) v.holds,
        )
  | inr old_byte ↦ rw (old_byte, grown) (ground (arith, v.size, v.count), v.holds)
]
