-- ===== src/Bencode/Nom/Concrete.antt =====
-- An implementation of the `nom` parameters, which shows that what is assumed can be met.
use bentorrent.Prelude
use bentorrent.Prelude.{
  drop, false, ℕ, zero, suc, ◌+◌, ◌-◌, ◌*◌, ◌^◌, ◌<◌, ◌≤◌, ◌≡◌, ◌≢◌, refl, arith, List, [], ◌∷◌,
  ◌++◌, length, ℤ, pos, negsuc, true, ltb, ◌==◌, if◌then◌else◌, inl, inr, Bool-cases, ap, ◌∙◌,
  subst, sym,
}
use bentorrent.Outcome.{Outcome-cases, Outcome, ok, err, panic}
use bentorrent.Torrent.{Bytes}
use bentorrent.Bencode.Nom.{Nom, NomError, ErrorKind, Parser, bind, prepend}
use bentorrent.Bencode.Nom.Numbers.{
  error_at, unsigned, unsigned_reads, unsigned_consumes, unsigned_returns, signed, signed_reads,
  signed_consumes, signed_returns,
}

-- The bytes after `t`; the error is at the whole input.
unfoldable pub after : Bytes → Bytes → Bytes → Bytes → Outcome NomError (Bytes × Bytes)
after whole all [] i = ok (i, all)
after whole all (c ∷ t) [] = err (error_at whole ErrorKind.tag)
after whole all (c ∷ t) (d ∷ i) =
    let rest = after whole all t i in if c == d then rest else err (error_at whole ErrorKind.tag)

unfoldable pub first_of : {A : Type 0} → List (Parser A) → Parser A
first_of [] i = err (error_at i ErrorKind.eof)
first_of (p ∷ []) i = p i
first_of (p ∷ q ∷ ps) i = elim (p i) [ ok r ↦ ok r | err e ↦ first_of (q ∷ ps) i | panic ↦ panic ]

-- An element that reads nothing is an error, so the input's length bounds the rounds.
unfoldable pub till : {A B : Type 0} → ℕ → Parser A → Parser B → Parser (List A × B)
till zero p end i = err (error_at i ErrorKind.many_till)
till (suc f) p end i = elim (end i) [
  | ok r ↦ ok (r.0, ([], r.1))
  | err e ↦ elim (p i) [
    | ok r ↦
        if ltb (length r.0) (length i)
        then prepend r.1 (till f p end r.0)
        else err (error_at i ErrorKind.many_till)
    | err e' ↦ err e'
    | panic ↦ panic
  ]
  | panic ↦ panic
]

abbrev pub many_till : {A B : Type 0} → Parser A → Parser B → Parser (List A × B)
many_till p end i = till (suc (length i)) p end i

till_fuel :
    {A B : Type 0} (f g : ℕ) (p : Parser A) (end : Parser B) (i : Bytes)
    → length i < f
    → length i < g
    → till f p end i ≡ till g p end i
unfolding till
till_fuel zero g p end i h k = absurd (omega arith)
till_fuel (suc f) zero p end i h k = absurd (omega arith)
till_fuel (suc f) (suc g) p end i h k = elim (Outcome-cases (end i)) [
  | inl (r, e) ↦ rw (e, till) refl
  | inr (inr e) ↦ rw (e, till) refl
  | inr (inl (x, e)) ↦
      rw (e, till)
        (elim (Outcome-cases (p i)) [
          | inr (inl (y, e')) ↦ rw (e', till) refl
          | inr (inr e') ↦ rw (e', till) refl
          | inl (r, e') ↦
              rw (e', till)
                (elim (Bool-cases (ltb (length r.0) (length i))) [
                  | inr large ↦ rw (large, till) refl
                  | inl small ↦
                      rw (small, till_fuel f g p end r.0 (ground arith) (ground arith), till) refl
                ])
        ])
]

pub many_till_step :
    {A B : Type 0} (p : Parser A) (end : Parser B) (i : Bytes) (e : NomError) (r : Bytes × A)
    → end i ≡ err e
    → p i ≡ ok r
    → length r.0 < length i
    → many_till p end i ≡ prepend r.1 (many_till p end r.0)
unfolding till
many_till_step p end i e r he hp h =
    let small : ltb (length r.0) (length i) ≡ true = ground arith in
    rw
      (
        he,
        hp,
        small,
        till,
        many_till,
        till_fuel (length i) (suc (length r.0)) p end r.0 h (omega arith),
      )
      refl

pub after_takes : (whole all t rest : Bytes) → after whole all t (t ++ rest) ≡ ok (rest, all)
unfolding after
after_takes whole all [] rest = refl
after_takes whole all (c ∷ t) rest = ground (arith, after_takes whole all t rest)

pub after_sound :
    (whole all t i rest x : Bytes) → after whole all t i ≡ ok (rest, x) → i ≡ t ++ rest
unfolding after
after_sound whole all [] i rest x h = cc
after_sound whole all (c ∷ t) [] rest x h = cc
after_sound whole all (c ∷ t) (d ∷ i) rest x h = ground (arith, after_sound whole all t i rest x)

pub after_returns : (whole all t i : Bytes) → after whole all t i ≢ panic
unfolding after
after_returns whole all [] i h = cc
after_returns whole all (c ∷ t) [] h = cc
after_returns whole all (c ∷ t) (d ∷ i) h = ground (arith, after_returns whole all t i)

unfoldable pub take : ℕ → Parser Bytes
take n i =
    if ltb (length i) n then err (error_at i ErrorKind.eof) else ok (drop n i, Prelude.take n i)

pub first_of_ok :
    {A : Type 0} (p : Parser A) (ps : List (Parser A)) (i : Bytes) (r : Bytes × A)
    → p i ≡ ok r
    → first_of (p ∷ ps) i ≡ ok r
unfolding first_of
first_of_ok p [] i r h = h
first_of_ok p (q ∷ ps) i r h = rw (h, first_of) refl

pub first_of_panic :
    {A : Type 0} (p : Parser A) (ps : List (Parser A)) (i : Bytes)
    → p i ≡ panic
    → first_of (p ∷ ps) i ≡ panic
unfolding first_of
first_of_panic p [] i h = h
first_of_panic p (q ∷ ps) i h = rw (h, first_of) refl

pub take_short : (n : ℕ) (i : Bytes) → length i < n → (e : NomError) × (take n i ≡ err e)
unfolding take
take_short n i h = (error_at i ErrorKind.eof, ground arith)

pub take_takes : (n : ℕ) (i : Bytes) → n ≤ length i → take n i ≡ ok (drop n i, Prelude.take n i)
unfolding take
take_takes n i h = ground arith

pub first_of_last :
    {A : Type 0} (p : Parser A) (i : Bytes) (e : NomError)
    → p i ≡ err e
    → first_of (p ∷ []) i ≡ err e
unfolding first_of
first_of_last p i e h = h

unfoldable pub nom : Nom
unfolding first_of till after unsigned signed take
nom = record {
  tag = λ t i. after i t t i;
  take = take;
  u32 = unsigned (2 ^ 32);
  i64 = signed;
  delimited = λ first second third i.
      bind (first i) (λ a. bind (second a.0) (λ b. bind (third b.0) (λ c. ok (c.0, b.1))));
  alt = first_of;
  many_till = many_till;
  to_string = λ e. e.input;
  tag_takes = λ t rest. after_takes (t ++ rest) t t rest;
  tag_sound = λ t i rest x. after_sound i t t i rest x;
  tag_returns = λ t i. after_returns i t t i;
  take_takes = take_takes;
  take_short = take_short;
  u32_reads = unsigned_reads (2 ^ 32);
  u32_consumes = unsigned_consumes (2 ^ 32);
  u32_returns = unsigned_returns (2 ^ 32);
  i64_reads = signed_reads;
  i64_consumes = signed_consumes;
  i64_returns = signed_returns;
  delimited_lem = λ first second third i. refl;
  alt_ok = first_of_ok;
  alt_err = λ p q ps i e h. rw (h, first_of) refl;
  alt_panic = first_of_panic;
  alt_last = first_of_last;
  many_till_ends = λ p end i r h. rw (h, many_till, till) refl;
  many_till_step = many_till_step;
  many_till_err = λ p end i e e' h k. rw (h, k, many_till, till) refl;
  many_till_panic = λ p end i e h k. rw (h, k, many_till, till) refl;
}
