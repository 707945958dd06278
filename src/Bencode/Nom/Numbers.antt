-- ===== src/Bencode/Nom/Numbers.antt =====
-- The number parsers of the `nom` parameters.
use bentorrent.Prelude.{
  false, ℕ, zero, suc, ◌+◌, ◌-◌, ◌*◌, ◌^◌, ◌<◌, ◌≤◌, ◌≡◌, ◌≢◌, refl, arith, [], ◌∷◌, ◌++◌, length,
  ℤ, pos, negsuc, true, ltb, ◌==◌, if◌then◌else◌, inl, inr, Bool-cases, ap, ◌∙◌, subst, sym,
}
use bentorrent.Outcome.{Outcome-cases, Outcome, ok, err, panic}
use bentorrent.Torrent.{Bytes}
use bentorrent.Bencode.Decimal.{
  show_int, is_digit, decimal, number, AllDigits, number-decimal, decimal-AllDigits, decimal-cons,
}
use bentorrent.Bencode.Nom.{IsI64, NomError, ErrorKind, bind, EndsNumber}

abbrev pub error_at : Bytes → ErrorKind → NomError
error_at i kind = record { input = i; code = kind }

-- The digits at the front, as long as the number stays below `limit`.
unfoldable pub digits_loop : Bytes → ℕ → ℕ → Bytes → Outcome NomError (Bytes × ℕ)
digits_loop whole limit acc [] = ok ([], acc)
digits_loop whole limit acc (c ∷ i) =
    let next = acc * 10 + (c - b'0') in
    let rest = digits_loop whole limit next i in
    if is_digit c
    then if ltb next limit then rest else err (error_at whole ErrorKind.digit)
    else ok (c ∷ i, acc)

unfoldable pub unsigned : ℕ → Bytes → Outcome NomError (Bytes × ℕ)
unfolding digits_loop
unsigned limit [] = err (error_at [] ErrorKind.digit)
unsigned limit (c ∷ i) =
    if is_digit c
    then digits_loop (c ∷ i) limit 0 (c ∷ i)
    else err (error_at (c ∷ i) ErrorKind.digit)

abbrev negate : ℕ → ℤ
negate zero = pos 0
negate (suc n) = negsuc n

unfoldable pub signed : Bytes → Outcome NomError (Bytes × ℤ)
unfolding unsigned
signed [] = err (error_at [] ErrorKind.digit)
signed (c ∷ i) =
    if c == b'-'
    then bind (unsigned (2 ^ 63 + 1) i) (λ r. ok (r.0, negate r.1))
    else if c == b'+'
    then bind (unsigned (2 ^ 63) i) (λ r. ok (r.0, pos r.1))
    else bind (unsigned (2 ^ 63) (c ∷ i)) (λ r. ok (r.0, pos r.1))

-- Digits only make a number larger.
le-number : (acc : ℕ) (ds : Bytes) → acc ≤ number acc ds
unfolding number
le-number acc [] = omega arith
le-number acc (d ∷ ds) = omega (arith, le-number (acc * 10 + (d - b'0')) ds)

digits_loop_stops :
    (whole : Bytes) (limit acc : ℕ) (rest : Bytes)
    → EndsNumber rest
    → digits_loop whole limit acc rest ≡ ok (rest, acc)
unfolding digits_loop
digits_loop_stops whole limit acc [] h = refl
digits_loop_stops whole limit acc (c ∷ rest) h = rw h refl

digits_loop_reads :
    (whole : Bytes) (limit acc : ℕ) (ds rest : Bytes)
    → AllDigits ds
    → EndsNumber rest
    → number acc ds < limit
    → digits_loop whole limit acc (ds ++ rest) ≡ ok (rest, number acc ds)
unfolding digits_loop number
digits_loop_reads whole limit acc [] rest a e h = digits_loop_stops whole limit acc rest e
digits_loop_reads whole limit acc (d ∷ ds) rest a e h =
    let next = acc * 10 + (d - b'0') in
    let below : ltb next limit ≡ true = ground (arith, le-number next ds) in
    rw (a.0, below) (digits_loop_reads whole limit next ds rest a.1 e h)

unsigned_digit :
    (limit d : ℕ) (i : Bytes)
    → is_digit d ≡ true
    → unsigned limit (d ∷ i) ≡ digits_loop (d ∷ i) limit 0 (d ∷ i)
unfolding unsigned
unsigned_digit limit d i h = rw (h, unsigned) refl

pub unsigned_reads :
    (limit n : ℕ) (rest : Bytes)
    → n < limit
    → EndsNumber rest
    → unsigned limit (decimal n ++ rest) ≡ ok (rest, n)
unsigned_reads limit n rest h e =
    let digits = decimal-AllDigits n in
    let value = number-decimal n in
    let (d, shaped) = decimal-cons n in
    let (ds, shape) = shaped in
    let all : AllDigits (d ∷ ds) = subst AllDigits shape digits in
    let n_is : number 0 (d ∷ ds) ≡ n = ap (number 0) (sym shape) ∙ value in
    rw shape (
      unsigned_digit limit d (ds ++ rest) all.0
      ∙ digits_loop_reads (d ∷ (ds ++ rest)) limit 0 (d ∷ ds) rest all e (omega (arith, n_is))
      ∙ ap (λ v. ok (rest, v)) n_is)

digits_loop_consumes :
    (whole : Bytes) (limit acc : ℕ) (i rest : Bytes) (n : ℕ)
    → acc < limit
    → digits_loop whole limit acc i ≡ ok (rest, n)
    → (n < limit) × (length rest ≤ length i)
unfolding digits_loop
digits_loop_consumes whole limit acc [] rest n a h = ground arith
digits_loop_consumes whole limit acc (c ∷ i) rest n a h =
    ground (arith, digits_loop_consumes whole limit (acc * 10 + (c - b'0')) i rest n)

digits_loop_returns :
    (whole : Bytes) (limit acc : ℕ) (i : Bytes) → digits_loop whole limit acc i ≢ panic
unfolding digits_loop
digits_loop_returns whole limit acc [] h = cc
digits_loop_returns whole limit acc (c ∷ i) h =
    ground (arith, digits_loop_returns whole limit (acc * 10 + (c - b'0')) i)

pub unsigned_consumes :
    (limit : ℕ) (i rest : Bytes) (n : ℕ)
    → unsigned limit i ≡ ok (rest, n)
    → (n < limit) × (length rest < length i)
unfolding unsigned digits_loop
unsigned_consumes limit [] rest n h = cc
unsigned_consumes limit (c ∷ i) rest n h =
    ground (arith, digits_loop_consumes (c ∷ i) limit (0 * 10 + (c - b'0')) i rest n)

pub unsigned_returns : (limit : ℕ) (i : Bytes) → unsigned limit i ≢ panic
unfolding unsigned
unsigned_returns limit [] h = cc
unsigned_returns limit (c ∷ i) h = ground (arith, digits_loop_returns (c ∷ i) limit 0 (c ∷ i))

signed_plain :
    (c : ℕ) (i : Bytes)
    → is_digit c ≡ true
    → signed (c ∷ i) ≡ bind (unsigned (2 ^ 63) (c ∷ i)) (λ r. ok (r.0, pos r.1))
unfolding signed
signed_plain c i h =
    let no_minus : (c == b'-') ≡ false = ground arith in
    let no_plus : (c == b'+') ≡ false = ground arith in rw (no_minus, no_plus, signed) refl

pub signed_reads :
    (n : ℤ) (rest : Bytes) → IsI64 n → EndsNumber rest → signed (show_int n ++ rest) ≡ ok (rest, n)
unfolding show_int
signed_reads (pos n) rest h e =
    let (d, shaped) = decimal-cons n in
    let (ds, shape) = shaped in
    let all : AllDigits (d ∷ ds) = subst AllDigits shape (decimal-AllDigits n) in
    let reads : unsigned (2 ^ 63) (d ∷ ds ++ rest) ≡ ok (rest, n) =
      subst (λ ds'. unsigned (2 ^ 63) (ds' ++ rest) ≡ ok (rest, n)) shape
        (unsigned_reads (2 ^ 63) n rest h e) in
    rw shape (signed_plain d (ds ++ rest) all.0 ∙ rw reads refl)
signed_reads (negsuc n) rest h e =
    unfold signed in rw (unsigned_reads (2 ^ 63 + 1) (suc n) rest (omega arith) e) refl

negate-IsI64 : (m : ℕ) → m < 2 ^ 63 + 1 → IsI64 (negate m)
negate-IsI64 zero h = omega arith
negate-IsI64 (suc m) h = omega arith

bound_consumes :
    (limit : ℕ) (f : ℕ → ℤ) (i rest : Bytes) (n : ℤ)
    → ((m : ℕ) → m < limit → IsI64 (f m))
    → bind {B = Bytes × ℤ} (unsigned limit i) (λ r. ok (r.0, f r.1)) ≡ ok (rest, n)
    → IsI64 n × (length rest < length i)
bound_consumes limit f i rest n small h = elim (Outcome-cases (unsigned limit i)) [
  | inl (r, e) ↦
      let read = unsigned_consumes limit i r.0 r.1 e in
      let same : ◌≡◌ {A = Outcome NomError (Bytes × ℤ)} (ok (r.0, f r.1)) (ok (rest, n)) =
        rw e at h in
      let rest_is : r.0 ≡ rest = cc in
      let n_is : f r.1 ≡ n = cc in (subst IsI64 n_is (small r.1 read.0), rw rest_is at read.1)
  | inr (inl (x, e)) ↦ absurd (let no = rw e at h in cc)
  | inr (inr e) ↦ absurd (let no = rw e at h in cc)
]

pub signed_consumes :
    (i rest : Bytes) (n : ℤ) → signed i ≡ ok (rest, n) → IsI64 n × (length rest < length i)
unfolding signed
signed_consumes [] rest n h = cc
signed_consumes (c ∷ i) rest n h = elim (Bool-cases (c == b'-')) [
  | inl minus ↦
      let read = bound_consumes (2 ^ 63 + 1) negate i rest n negate-IsI64 (rw minus at h) in
      (read.0, omega (arith, read.1))
  | inr no_minus ↦ elim (Bool-cases (c == b'+')) [
    | inl plus ↦
        let read =
          bound_consumes (2 ^ 63) pos i rest n (λ m small. small) (rw (no_minus, plus) at h) in
        (read.0, omega (arith, read.1))
    | inr no_plus ↦
        bound_consumes (2 ^ 63) pos (c ∷ i) rest n (λ m small. small) (rw (no_minus, no_plus) at h)
  ]
]

pub signed_returns : (i : Bytes) → signed i ≢ panic
unfolding signed
signed_returns [] h = cc
signed_returns (c ∷ i) h = ground (
  arith,
  unsigned_returns (2 ^ 63 + 1) i,
  unsigned_returns (2 ^ 63) i,
  unsigned_returns (2 ^ 63) (c ∷ i),
)
