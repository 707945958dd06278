-- ===== src/Bencode/Ensures.antt =====
-- What a parser of `nom` ensures of the value it gives, and that it does not use up the stack.
use bentorrent.Prelude.{
  ℕ, zero, suc, ◌^◌, ◌≤◌, ◌<◌, ◌≡◌, ◌≢◌, refl, subst, ap, arith, List, [], ◌∷◌, length, inl, inr,
  All, length-drop, length-take, lt-or-le,
}
use bentorrent.Outcome.{Outcome, Outcome-cases, ok, err, panic}
use bentorrent.Torrent.{Bytes}
use bentorrent.Bencode.Nom.{Nom, NomError, Parser, bind, IsI64}

pub data Ensures {A : Type 0} (P : A → Type 0) : Outcome NomError A → Type 0 where
  holds : {a : A} → P a → Ensures P (ok a)
  refused : {e : NomError} → Ensures P (err e)

module _ {A : Type 0} {P : A → Type 0} where
  pub Ensures-ok : {r : Outcome NomError A} {a : A} → Ensures P r → r ≡ ok a → P a
  Ensures-ok (holds h) e = subst P (cc) h
  Ensures-ok refused e = cc

  pub Ensures-panic : {r : Outcome NomError A} → Ensures P r → r ≢ panic
  Ensures-panic (holds h) = cc
  Ensures-panic refused = cc

  pub Ensures-of : (r : Outcome NomError A) → r ≢ panic → ((a : A) → r ≡ ok a → P a) → Ensures P r
  Ensures-of (ok a) ne k = holds (k a refl)
  Ensures-of (err e) ne k = refused
  Ensures-of panic ne k = absurd (ne refl)

  pub Ensures-mono :
      {Q : A → Type 0} {r : Outcome NomError A} → Ensures P r → ((a : A) → P a → Q a) → Ensures Q r
  Ensures-mono (holds {a} h) k = holds (k a h)
  Ensures-mono refused k = refused

  pub Ensures-bind :
      {B : Type 0} {Q : B → Type 0} {r : Outcome NomError A} {f : A → Outcome NomError B}
      → Ensures P r
      → ((a : A) → P a → Ensures Q (f a))
      → Ensures Q (bind r f)
  Ensures-bind (holds {a} h) k = k a h
  Ensures-bind refused k = refused

module _ (nom : Nom) where
  -- What is read is in front of what is left.
  abbrev pub Shorter : {A : Type 0} → (A → Type 0) → Bytes → Bytes × A → Type 0
  Shorter P i r = (length r.0 < length i) × P r.1

  pub tag-Ensures : (c : ℕ) (i : Bytes) → Ensures (λ r. length r.0 < length i) (nom.tag (c ∷ []) i)
  tag-Ensures c i =
      Ensures-of _ (nom.tag_returns (c ∷ []) i)
        λ r e. omega (arith, ap length (nom.tag_sound (c ∷ []) i r.0 r.1 e))

  pub take-Ensures :
      (n : ℕ) (i : Bytes) → Ensures (λ r. (length r.0 ≤ length i) × (length r.1 ≡ n)) (nom.take n i)
  take-Ensures n i = elim (lt-or-le (length i) n) [
    | inl short ↦ let (e, h) = nom.take_short n i short in rw h refused
    | inr enough ↦
        rw (nom.take_takes n i enough)
          (holds (omega (arith, length-drop n i), omega (arith, length-take n i)))
  ]

  pub u32-Ensures : (i : Bytes) → Ensures (Shorter (λ n. n < 2 ^ 32) i) (nom.u32 i)
  u32-Ensures i =
      Ensures-of _ (nom.u32_returns i)
        λ r e. let read = nom.u32_consumes i r.0 r.1 e in (read.1, read.0)

  pub i64-Ensures : (i : Bytes) → Ensures (Shorter IsI64 i) (nom.i64 i)
  i64-Ensures i =
      Ensures-of _ (nom.i64_returns i)
        λ r e. let read = nom.i64_consumes i r.0 r.1 e in (read.1, read.0)

  pub alt-Ensures :
      {A : Type 0} (P : Bytes × A → Type 0) (i : Bytes) (p : Parser A) (ps : List (Parser A))
      → All (λ q. Ensures P (q i)) (p ∷ ps)
      → Ensures P (nom.alt (p ∷ ps) i)
  alt-Ensures P i p [] h = elim (Outcome-cases (p i)) [
    | inl (r, e) ↦ rw (nom.alt_ok p [] i r e) (holds (Ensures-ok h.0 e))
    | inr (inr e) ↦ absurd (Ensures-panic h.0 e)
    | inr (inl (x, e)) ↦ rw (nom.alt_last p i x e) refused
  ]
  alt-Ensures P i p (q ∷ qs) h = elim (Outcome-cases (p i)) [
    | inl (r, e) ↦ rw (nom.alt_ok p (q ∷ qs) i r e) (holds (Ensures-ok h.0 e))
    | inr (inr e) ↦ absurd (Ensures-panic h.0 e)
    | inr (inl (x, e)) ↦ rw (nom.alt_err p q qs i x e) (alt-Ensures P i q qs h.1)
  ]

  module _ {A : Type 0} (P : A → Type 0) (n : ℕ) (p : Parser A)
      (each : (i : Bytes) → length i < n → Ensures (Shorter P i) (p i)) (c : ℕ) where
    abbrev end : Parser Bytes
    end = nom.tag (c ∷ [])

    till_within :
        (m : ℕ) (i : Bytes)
        → length i < m
        → length i < n
        → Ensures (Shorter (λ s. All P s.0) i) (nom.many_till p end i)
    till_within zero i h k = absurd (omega arith)
    till_within (suc m) i h k = elim (Outcome-cases (end i)) [
      | inl (r, e) ↦
          rw (nom.many_till_ends p end i r e) (holds (Ensures-ok (tag-Ensures c i) e, tt))
      | inr (inr e) ↦ absurd (Ensures-panic (tag-Ensures c i) e)
      | inr (inl (x, e)) ↦ elim (Outcome-cases (p i)) [
        | inl (r, e') ↦
            let read = Ensures-ok (each i k) e' in
            rw (nom.many_till_step p end i x r e e' read.0) (
              Ensures-bind (till_within m r.0 (omega (arith, read.0)) (omega (arith, read.0)))
                λ s rest. holds (omega (arith, read.0, rest.0), (read.1, rest.1)))
        | inr (inl (y, e')) ↦ rw (nom.many_till_err p end i x y e e') refused
        | inr (inr e') ↦ absurd (Ensures-panic (each i k) e')
      ]
    ]

    pub many_till-Ensures :
        (i : Bytes) → length i < n → Ensures (Shorter (λ s. All P s.0) i) (nom.many_till p end i)
    many_till-Ensures i k = till_within (suc (length i)) i (omega arith) k
