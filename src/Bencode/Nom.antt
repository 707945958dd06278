-- ===== src/Bencode/Nom.antt =====
-- The `nom` crate as far as the parser uses it. Its parsers and combinators are parameters, with
-- what the crate documents of each. A parser gives the input that is left and its value, or an
-- error. `panic` stands for a call stack that is used up, which ends every parser that waits on it.
use bentorrent.Prelude.{
  ℕ, zero, suc, ◌+◌, ◌*◌, ◌^◌, ◌<◌, ◌≤◌, ◌≡◌, ◌≢◌, refl, List, [], ◌∷◌, ◌++◌, length, ℤ, pos,
  negsuc, drop, Bool, true, false, Option, none, some, map,
}
pub mod Numbers
pub mod Concrete
use bentorrent.Prelude
use bentorrent.Outcome.{Outcome, ok, err, panic}
use bentorrent.Torrent.{Bytes}
use bentorrent.Bencode.Decimal.{is_digit, decimal, show_int}

pub data ErrorKind : Type 0 where
  tag eof digit many_till : ErrorKind

-- `nom::error::Error`
pub record NomError : Type 0 where
  pub input : Bytes
  pub code : ErrorKind

-- `IResult`, after its input.
abbrev pub Parser : Type 0 → Type 0
Parser A = Bytes → Outcome NomError (Bytes × A)

-- Rust's `?`.
abbrev pub bind :
    {A B : Type 0} → Outcome NomError A → (A → Outcome NomError B) → Outcome NomError B
bind (ok a) f = f a
bind (err e) f = err e
bind panic f = panic

-- Puts a value that was read in front of the values that follow it.
abbrev pub prepend :
    {A B : Type 0}
    → A
    → Outcome NomError (Bytes × (List A × B))
    → Outcome NomError (Bytes × (List A × B))
prepend x r = bind r (λ s. ok (s.0, (x ∷ s.1.0, s.1.1)))

-- The next byte, if there is one, is no digit.
abbrev pub EndsNumber : Bytes → Type 0
EndsNumber [] = Unit {0}
EndsNumber (c ∷ rest) = is_digit c ≡ false

abbrev pub IsI64 : ℤ → Type 0
IsI64 (pos n) = n < 2 ^ 63
IsI64 (negsuc n) = n < 2 ^ 63

pub record Nom : Type 1 where
  pub tag : Bytes → Parser Bytes
  pub take : ℕ → Parser Bytes
  pub u32 : Parser ℕ
  pub i64 : Parser ℤ
  pub delimited : {A B C : Type 0} → Parser A → Parser B → Parser C → Parser B
  pub alt : {A : Type 0} → List (Parser A) → Parser A
  pub many_till : {A B : Type 0} → Parser A → Parser B → Parser (List A × B)
  -- `impl Display for Err`
  pub to_string : NomError → Bytes
  pub tag_takes : (t rest : Bytes) → tag t (t ++ rest) ≡ ok (rest, t)
  pub tag_sound : (t i rest x : Bytes) → tag t i ≡ ok (rest, x) → i ≡ t ++ rest
  pub tag_returns : (t i : Bytes) → tag t i ≢ panic
  pub take_takes : (n : ℕ) (i : Bytes) → n ≤ length i → take n i ≡ ok (drop n i, Prelude.take n i)
  pub take_short : (n : ℕ) (i : Bytes) → length i < n → (e : NomError) × (take n i ≡ err e)
  pub u32_reads :
      (n : ℕ) (rest : Bytes) → n < 2 ^ 32 → EndsNumber rest → u32 (decimal n ++ rest) ≡ ok (rest, n)
  pub u32_consumes :
      (i rest : Bytes) (n : ℕ) → u32 i ≡ ok (rest, n) → (n < 2 ^ 32) × (length rest < length i)
  pub u32_returns : (i : Bytes) → u32 i ≢ panic
  pub i64_reads :
      (n : ℤ) (rest : Bytes) → IsI64 n → EndsNumber rest → i64 (show_int n ++ rest) ≡ ok (rest, n)
  pub i64_consumes :
      (i rest : Bytes) (n : ℤ) → i64 i ≡ ok (rest, n) → IsI64 n × (length rest < length i)
  pub i64_returns : (i : Bytes) → i64 i ≢ panic
  pub delimited_lem :
      {A B C : Type 0} (first : Parser A) (second : Parser B) (third : Parser C) (i : Bytes)
      → delimited first second third i
        ≡ bind (first i) (λ a. bind (second a.0) (λ b. bind (third b.0) (λ c. ok (c.0, b.1))))
  pub alt_ok :
      {A : Type 0} (p : Parser A) (ps : List (Parser A)) (i : Bytes) (r : Bytes × A)
      → p i ≡ ok r
      → alt (p ∷ ps) i ≡ ok r
  pub alt_err :
      {A : Type 0} (p q : Parser A) (ps : List (Parser A)) (i : Bytes) (e : NomError)
      → p i ≡ err e
      → alt (p ∷ q ∷ ps) i ≡ alt (q ∷ ps) i
  pub alt_panic :
      {A : Type 0} (p : Parser A) (ps : List (Parser A)) (i : Bytes)
      → p i ≡ panic
      → alt (p ∷ ps) i ≡ panic
  pub alt_last :
      {A : Type 0} (p : Parser A) (i : Bytes) (e : NomError) → p i ≡ err e → alt (p ∷ []) i ≡ err e
  pub many_till_ends :
      {A B : Type 0} (p : Parser A) (end : Parser B) (i : Bytes) (r : Bytes × B)
      → end i ≡ ok r
      → many_till p end i ≡ ok (r.0, ([], r.1))
  pub many_till_step :
      {A B : Type 0} (p : Parser A) (end : Parser B) (i : Bytes) (e : NomError) (r : Bytes × A)
      → end i ≡ err e
      → p i ≡ ok r
      → length r.0 < length i
      → many_till p end i ≡ prepend r.1 (many_till p end r.0)
  pub many_till_err :
      {A B : Type 0} (p : Parser A) (end : Parser B) (i : Bytes) (e e' : NomError)
      → end i ≡ err e
      → p i ≡ err e'
      → many_till p end i ≡ err e'
  pub many_till_panic :
      {A B : Type 0} (p : Parser A) (end : Parser B) (i : Bytes) (e : NomError)
      → end i ≡ err e
      → p i ≡ panic
      → many_till p end i ≡ panic
