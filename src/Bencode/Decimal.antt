-- ===== src/Bencode/Decimal.antt =====
-- How `format!` writes an integer: decimal digits, with a minus sign in front of a negative one.
use bentorrent.Prelude.{
  refl, All-append, inr, inl, arith, true, ◌<◌, Bool-cases, All, ◌≡◌, ℕ, zero, suc, ◌+◌, ◌-◌, ◌*◌,
  ◌/◌, ◌%◌, ltb, [], ◌∷◌, ◌++◌, ℤ, pos, negsuc, if◌then◌else◌, Bool, ◌&&◌, leb,
}
use bentorrent.Torrent.{Bytes}

abbrev pub is_digit : ℕ → Bool
is_digit c = leb b'0' c && leb c b'9'

-- At most `f` digits.
unfoldable pub digits : ℕ → ℕ → Bytes
digits zero n = []
digits (suc f) n =
    let front = digits f (n / 10) in
    if ltb n 10 then (b'0' + n) ∷ [] else front ++ (b'0' + n % 10) ∷ []

-- A number has no more digits than one more than itself.
unfoldable pub decimal : ℕ → Bytes
unfolding digits
decimal n = digits (suc n) n

unfoldable pub show_int : ℤ → Bytes
unfolding decimal
show_int (pos n) = decimal n
show_int (negsuc n) = b'-' ∷ decimal (suc n)

-- The number that a string of digits denotes, after `acc`.
unfoldable pub number : ℕ → Bytes → ℕ
number acc [] = acc
number acc (d ∷ ds) = number (acc * 10 + (d - b'0')) ds

number-append :
    (acc d : ℕ) (ds : Bytes) → number acc (ds ++ d ∷ []) ≡ number acc ds * 10 + (d - b'0')
unfolding number
number-append acc d [] = refl
number-append acc d (e ∷ ds) = number-append (acc * 10 + (e - b'0')) d ds

number-digits : (f n : ℕ) → n < f → number 0 (digits f n) ≡ n
unfolding number digits
number-digits zero n h = absurd (omega arith)
number-digits (suc f) n h = elim (Bool-cases (ltb n 10)) [
  | inl small ↦ rw small (omega arith)
  | inr large ↦
      let shorter : n / 10 < f = ground arith in
      rw
        (
          large,
          number-append 0 (b'0' + n % 10) (digits f (n / 10)),
          number-digits f (n / 10) shorter,
        )
        (omega arith)
]

-- Reading the digits of a number gives the number.
pub number-decimal : (n : ℕ) → number 0 (decimal n) ≡ n
unfolding decimal
number-decimal n = number-digits (suc n) n (omega arith)

abbrev pub AllDigits : Bytes → Type 0
AllDigits ds = All (λ d. is_digit d ≡ true) ds

digits-AllDigits : (f n : ℕ) → AllDigits (digits f n)
unfolding digits
digits-AllDigits zero n = tt
digits-AllDigits (suc f) n = elim (Bool-cases (ltb n 10)) [
  | inl small ↦ rw small (ground arith, tt)
  | inr large ↦
      rw large (All-append _ (digits f (n / 10)) _ (digits-AllDigits f (n / 10)) (ground arith, tt))
]

pub decimal-AllDigits : (n : ℕ) → AllDigits (decimal n)
unfolding decimal
decimal-AllDigits n = digits-AllDigits (suc n) n

-- There is at least one digit.
pub decimal-cons : (n : ℕ) → (d : ℕ) × ((ds : Bytes) × (decimal n ≡ d ∷ ds))
unfolding decimal digits
decimal-cons n = elim (Bool-cases (ltb n 10)) [
  | inl small ↦ (b'0' + n, ([], rw small refl))
  | inr large ↦ rw large (append-cons (digits n (n / 10)) (b'0' + n % 10))
]
  where
    append-cons : (xs : Bytes) (y : ℕ) → (d : ℕ) × ((ds : Bytes) × (xs ++ y ∷ [] ≡ d ∷ ds))
    append-cons [] y = (y, ([], refl))
    append-cons (x ∷ xs) y = (x, (xs ++ y ∷ [], refl))
