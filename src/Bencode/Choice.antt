-- ===== src/Bencode/Choice.antt =====
-- src/file/bencode.rs, `parse_type`: the first byte decides which parser reads the value.
use bentorrent.Prelude.{sym, ℕ, suc, ◌≡◌, ◌≢◌, refl, [], ◌∷◌, inl, inr, ◌∙◌}
use bentorrent.Outcome.{Outcome-cases, ok, err}
use bentorrent.Torrent.{Bytes}
use bentorrent.Bencode.{Bencode}
use bentorrent.Bencode.Nom.{Nom, NomError, Parser}
use bentorrent.Bencode.Parser.{
  parse_int, parse_list, parse_dictionary, parse_bytestring, parse_type,
}

module _ (nom : Nom) where
  open nom use {tag, alt_ok, alt_err, alt_last, alt_panic, tag_sound, tag_returns, delimited_lem}

  pub tag-refuses : (c d : ℕ) (i : Bytes) → c ≢ d → (e : NomError) × (tag (c ∷ []) (d ∷ i) ≡ err e)
  tag-refuses c d i ne = elim (Outcome-cases (tag (c ∷ []) (d ∷ i))) [
    | inl (r, e) ↦ absurd (
        let same = tag_sound (c ∷ []) (d ∷ i) r.0 r.1 e in let heads : d ≡ c = cc in ne (sym heads))
    | inr (inl (x, e)) ↦ (x, e)
    | inr (inr e) ↦ absurd (tag_returns (c ∷ []) (d ∷ i) e)
  ]

  pub parse_int-refuses :
      (d : ℕ) (i : Bytes) → b'i' ≢ d → (e : NomError) × (parse_int nom (d ∷ i) ≡ err e)
  unfolding parse_int
  parse_int-refuses d i ne =
      let (e, h) = tag-refuses b'i' d i ne in
      (e, rw (delimited_lem (tag (b'i' ∷ [])) nom.i64 (tag (b'e' ∷ [])) (d ∷ i), h) refl)

  module _ (element : Parser Bencode) where
    pub parse_list-refuses :
        (d : ℕ) (i : Bytes) → b'l' ≢ d → (e : NomError) × (parse_list nom element (d ∷ i) ≡ err e)
    unfolding parse_list
    parse_list-refuses d i ne = let (e, h) = tag-refuses b'l' d i ne in (e, rw h refl)

    pub parse_dictionary-refuses :
        (d : ℕ) (i : Bytes)
        → b'd' ≢ d
        → (e : NomError) × (parse_dictionary nom element (d ∷ i) ≡ err e)
    unfolding parse_dictionary
    parse_dictionary-refuses d i ne = let (e, h) = tag-refuses b'd' d i ne in (e, rw h refl)

  module _ (depth : ℕ) where
    pub parse_type-int :
        (i : Bytes) (r : Bytes × Bencode)
        → parse_int nom i ≡ ok r
        → parse_type nom (suc depth) i ≡ ok r
    unfolding parse_type
    parse_type-int i r h = alt_ok (parse_int nom) _ i r h

    pub parse_type-list :
        (d : ℕ) (i : Bytes)
        → b'i' ≢ d
        → (r : Bytes × Bencode) → parse_list nom (parse_type nom depth) (d ∷ i) ≡ ok r
        → parse_type nom (suc depth) (d ∷ i) ≡ ok r
    unfolding parse_type
    parse_type-list d i ne r h =
        let (e, no_int) = parse_int-refuses d i ne in
        alt_err _ _ _ (d ∷ i) e no_int ∙ alt_ok _ _ (d ∷ i) r h

    pub parse_type-dictionary :
        (d : ℕ) (i : Bytes)
        → b'i' ≢ d
        → b'l' ≢ d
        → (r : Bytes × Bencode) → parse_dictionary nom (parse_type nom depth) (d ∷ i) ≡ ok r
        → parse_type nom (suc depth) (d ∷ i) ≡ ok r
    unfolding parse_type
    parse_type-dictionary d i ne ne' r h =
        let (e, no_int) = parse_int-refuses d i ne in
        let (e', no_list) = parse_list-refuses (parse_type nom depth) d i ne' in
        alt_err _ _ _ (d ∷ i) e no_int ∙ alt_err _ _ _ (d ∷ i) e' no_list ∙ alt_ok _ _ (d ∷ i) r h

    pub parse_type-bytestring :
        (d : ℕ) (i : Bytes)
        → b'i' ≢ d
        → b'l' ≢ d
        → b'd' ≢ d
        → (r : Bytes × Bencode) → parse_bytestring nom (d ∷ i) ≡ ok r
        → parse_type nom (suc depth) (d ∷ i) ≡ ok r
    unfolding parse_type
    parse_type-bytestring d i ne ne' ne'' r h =
        let (e, no_int) = parse_int-refuses d i ne in
        let (e', no_list) = parse_list-refuses (parse_type nom depth) d i ne' in
        let (e'', no_dict) = parse_dictionary-refuses (parse_type nom depth) d i ne'' in
        alt_err _ _ _ (d ∷ i) e no_int
        ∙ alt_err _ _ _ (d ∷ i) e' no_list
        ∙ alt_err _ _ _ (d ∷ i) e'' no_dict
        ∙ alt_ok _ _ (d ∷ i) r h
