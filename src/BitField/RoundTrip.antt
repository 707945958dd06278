-- ===== src/BitField/RoundTrip.antt =====
-- src/peer/bitfield.rs: what is written bit by bit reads back.
use bentorrent.Prelude.{
  append_assoc, append-nil, sub_usize, add_u32, if◌then◌else◌, u32_mod, ap, length-append, sym, ◌∙◌,
  length-set, ◌^◌, get_elem?-some, set, ltb, to_u32, ◌&&◌, ℕ, zero, suc, ◌+◌, ◌/◌, ◌%◌, ◌<◌, ◌≡◌,
  refl, arith, some, Bool, true, false, List, [], ◌∷◌, ◌++◌, length, get_elem?,
}
use bentorrent.Prelude.Eq.{nat_eq}
use bentorrent.Torrent.{Bytes}
use bentorrent.BitField.{
  put_bits_from, put_bit_set, contains, new, put_bit, lor, grown, BitFieldWriter, get_bit,
}
use bentorrent.BitField.Holding.{nth, reader, Holds, IsWritten, set-Holds, skip-Holds, grown-Holds}

-- The bytes after the bit.
abbrev put_byte : Bytes → Bool → ℕ → ℕ → Bytes
put_byte bytes bit last n =
    if bit then set bytes (n / 8) (lor 8 last (128 / 2 ^ (n % 8))) else bytes

put_byte-IsWritten :
    (bits : List Bool) (bytes : Bytes) (bit : Bool) (last written : ℕ)
    → written ≡ length (bits ++ bit ∷ [])
    → length bytes ≡ length bits / 8 + 1
    → get_elem? bytes (length bits / 8) ≡ some last
    → Holds bits bytes
    → IsWritten
        (bits ++ bit ∷ [])
        (record { bytes = put_byte bytes bit last (length bits); bits_written = written })
put_byte-IsWritten bits bytes true last written count size e v = record {
  count = count;
  size = omega (
    arith,
    length-set bytes (length bits / 8) (lor 8 last (128 / 2 ^ (length bits % 8))),
    length-append bits (true ∷ []),
  );
  holds = set-Holds bits bytes last size e v;
}
put_byte-IsWritten bits bytes false last written count size e v = record {
  count = count;
  size = omega (arith, length-append bits (false ∷ []));
  holds = skip-Holds bits bytes v;
}

put_bit-last :
    (w : BitFieldWriter) (bit : Bool) (last : ℕ)
    → sub_usize (length (grown w)) 1 ≡ w.bits_written / 8
    → get_elem? (grown w) (w.bits_written / 8) ≡ some last
    → put_bit w bit
      ≡ some (record {
        bytes = put_byte (grown w) bit last w.bits_written;
        bits_written = add_u32 w.bits_written 1;
      })
unfolding put_bit
put_bit-last w bit last pos e =
    rw (ap (get_elem? (grown w)) pos ∙ e, put_bit)
      (ap
        (λ k. some (record {
          bytes =
              if bit
              then set (grown w) k (lor 8 last (128 / 2 ^ (w.bits_written % 8)))
              else grown w;
          bits_written = add_u32 w.bits_written 1;
        }))
        pos)

put_bit-IsWritten :
    (bits : List Bool) (w : BitFieldWriter) (bit : Bool)
    → length bits + 1 < u32_mod
    → IsWritten bits w
    → (w' : BitFieldWriter) × (put_bit w bit ≡ some w') × IsWritten (bits ++ bit ∷ []) w'
put_bit-IsWritten bits w bit h v =
    let n = length bits in
    let g = grown-Holds bits w v in
    let pos : sub_usize (length (grown w)) 1 ≡ n / 8 = omega (arith, g.0) in
    let (last, e) = get_elem?-some (grown w) (n / 8) (omega (arith, g.0)) in
    let count : add_u32 w.bits_written 1 ≡ length (bits ++ bit ∷ []) =
      omega (arith, v.count, length-append bits (bit ∷ [])) in
    (
      record { bytes = put_byte (grown w) bit last n; bits_written = add_u32 w.bits_written 1 },
      put_bit-last w bit last (pos ∙ ap (λ k. k / 8) (sym v.count))
            (ap (λ k. get_elem? (grown w) (k / 8)) v.count ∙ e)
          ∙ ap
              (λ k. some (record {
                bytes = put_byte (grown w) bit last k;
                bits_written = add_u32 w.bits_written 1;
              }))
              v.count,
      put_byte-IsWritten bits (grown w) bit last (add_u32 w.bits_written 1) count g.0 e g.1,
    )

-- The bits `i`, `i + 1`, ... of a set, as many as `n`.
unfoldable pub bits_from : List ℕ → ℕ → ℕ → List Bool
bits_from bits i zero = []
bits_from bits i (suc n) = contains i bits ∷ bits_from bits (suc i) n

put_bits_from_next :
    (w : BitFieldWriter) (bits : List ℕ) (i n : ℕ) (w' : BitFieldWriter)
    → put_bit w (contains i bits) ≡ some w'
    → put_bits_from w bits i (suc n) ≡ put_bits_from w' bits (suc i) n
unfolding put_bits_from
put_bits_from_next w bits i n w' e = rw (e, put_bits_from) refl

put_bits_from-IsWritten :
    (done : List Bool) (w : BitFieldWriter) (bits : List ℕ) (i n : ℕ)
    → length done + n < u32_mod
    → IsWritten done w
    → (w' : BitFieldWriter) × (put_bits_from w bits i n ≡ some w')
      × IsWritten (done ++ bits_from bits i n) w'
unfolding put_bits_from bits_from
put_bits_from-IsWritten done w bits i zero h v = (w, refl, rw (append-nil done) v)
put_bits_from-IsWritten done w bits i (suc n) h v =
    let (w1, e, v1) = put_bit-IsWritten done w (contains i bits) (omega arith) v in
    let (w2, e2, v2) =
      put_bits_from-IsWritten (done ++ contains i bits ∷ []) w1 bits (suc i) n
        (omega (arith, length-append done (contains i bits ∷ []))) v1 in
    (
      w2,
      put_bits_from_next w bits i n w1 e ∙ e2,
      rw (← append_assoc done (contains i bits ∷ []) (bits_from bits (suc i) n)) v2,
    )

nth-bits_from :
    (bits : List ℕ) (i n k : ℕ) → nth (bits_from bits i n) k ≡ (ltb k n && contains (i + k) bits)
unfolding nth bits_from
nth-bits_from bits i zero k = ground arith
nth-bits_from bits i (suc n) zero = ground arith
nth-bits_from bits i (suc n) (suc k) = ground (arith, nth-bits_from bits (suc i) n k)

length-bits_from : (bits : List ℕ) (i n : ℕ) → length (bits_from bits i n) ≡ n
unfolding bits_from
length-bits_from bits i zero = refl
length-bits_from bits i (suc n) = omega (arith, length-bits_from bits (suc i) n)

new-IsWritten : IsWritten [] (new [])
new-IsWritten = record {
  count = refl;
  size = refl;
  holds = record { reads = λ i h. absurd (omega arith) };
}

-- A set of pieces written as a bit field of n < 2^32 bits into no bytes: the writer does not
-- panic, takes (n + 7) / 8 bytes, and every bit of them reads back as membership in the set, the
-- bits from n on as false.
pub get_bit-put_bit_set :
    (pieces : List ℕ) (n : ℕ)
    → n < u32_mod
    → (w : BitFieldWriter) × (put_bit_set (new []) pieces n ≡ some w)
      × (length w.bytes ≡ (n + 7) / 8)
      × ((i : ℕ)
          → i / 8 < length w.bytes
          → get_bit (reader w.bytes) i ≡ some (ltb i n && contains i pieces))
unfolding put_bit_set
get_bit-put_bit_set pieces n h =
    let small : to_u32 n ≡ n = omega arith in
    let (w, e, v) = put_bits_from-IsWritten [] (new []) pieces 0 n (omega arith) new-IsWritten in
    (
      w,
      ap (put_bits_from (new []) pieces 0) small ∙ e,
      omega (arith, v.size, length-bits_from pieces 0 n),
      λ i k.
          v.holds.reads i k
          ∙ ap some
              (nth-bits_from pieces 0 n i ∙ ap (λ k. ltb i n && contains k pieces) (omega arith)),
    )
