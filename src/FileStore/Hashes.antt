-- ===== src/FileStore/Hashes.antt =====
-- src/peer/io/file.rs: what the check of a complete piece finds out, and what follows from it.
use bentorrent.Prelude.{
  arith, ltb, Option-cases, add_usize, set, to_u32, ◌+◌, ◌≤◌, ℕ, if◌then◌else◌, Bool, true, false,
  List, some, length, get_elem?, ◌≡◌, refl, sym, ap, ◌∙◌, take, drop, Bool-cases, inl, inr,
  get_elem?-none, lt-or-le, ◌<◌, subst,
}
use bentorrent.Prelude.Eq.{list_eq}
use bentorrent.Outcome.{Outcome, Outcome-cases, ok, err}
use bentorrent.Torrent.{Bytes}
use bentorrent.Slices
use bentorrent.Io.{PeerError, piece_hash_mismatch}
use bentorrent.Memory.{copy_block}
use bentorrent.FileStore.{piece_len, FilePieceState}
use bentorrent.FileStore.FileApi.{FileApi}
use bentorrent.FileStore.Store.{
  write_piece, seek_offset, write_block, FileTorrentIo, compute_file_sha1_hash, check_hash,
}

-- The answers that no failure of the file gives.
abbrev pub is_answer : Outcome PeerError Bool → Bool
is_answer (ok b) = true
is_answer (err (piece_hash_mismatch i c e)) = true
is_answer _ = false

pub get_elem?-lt :
    {A : Type 0} (xs : List A) (i : ℕ) (x : A) → get_elem? xs i ≡ some x → i < length xs
get_elem?-lt xs i x e = elim (lt-or-le i (length xs)) [
  | inl less ↦ less
  | inr beyond ↦ absurd (let nothing = get_elem?-none xs i beyond in cc)
]

ok_injective : {E A : Type 0} {a b : A} → ◌≡◌ {A = Outcome E A} (ok a) (ok b) → a ≡ b
ok_injective e = cc

module _ {F : Type 0} (api : FileApi F) (sha1 hex : Bytes → Bytes) where
  -- The hash of the bytes of a piece, as they are in the file.
  abbrev pub hash_in : F → FilePieceState → Bytes
  hash_in file piece = sha1 (take piece.size (drop piece.start_idx (api.bytes file)))

  compute-hash_in :
      (piece : FilePieceState) (file : F) (c : Bytes)
      → (compute_file_sha1_hash api sha1 hex piece file).1 ≡ ok c
      → (c ≡ hash_in file piece)
        × (api.bytes (compute_file_sha1_hash api sha1 hex piece file).0 ≡ api.bytes file)
  unfolding compute_file_sha1_hash
  compute-hash_in piece file c h = elim (Outcome-cases (api.seek file piece.start_idx).1) [
    | inl (u, e) ↦
        elim (Outcome-cases (api.read_exact (api.seek file piece.start_idx).0 piece.size).1) [
          | inl (buf, e') ↦
              let moved = api.seek_moves file piece.start_idx e in
              let read = api.read_exact_reads _ piece.size buf e' in
              let same : sha1 buf ≡ c = ok_injective (rw (e, e', compute_file_sha1_hash) at h) in
              let buf_is : buf ≡ take piece.size (drop piece.start_idx (api.bytes file)) =
                read.1.0 ∙ (λ i. take piece.size (drop (moved.1 i) (moved.0 i))) in
              (sym same ∙ ap sha1 buf_is, rw (e, e', compute_file_sha1_hash) (read.0 ∙ moved.0))
          | inr (inl (x, e')) ↦ absurd (let no_read = rw (e, e', compute_file_sha1_hash) at h in cc)
          | inr (inr e') ↦ absurd (let no_read = rw (e, e', compute_file_sha1_hash) at h in cc)
        ]
    | inr (inl (x, e)) ↦ absurd (let no_seek = rw (e, compute_file_sha1_hash) at h in cc)
    | inr (inr e) ↦ absurd (let no_seek = rw (e, compute_file_sha1_hash) at h in cc)
  ]

  -- The verdict on a complete piece.
  abbrev pub verdict : ℕ → Bytes → Bytes → Outcome PeerError Bool
  verdict index computed expected =
      if list_eq.beq computed expected
      then ok true
      else err (piece_hash_mismatch index (hex computed) (hex expected))

  check_hash-verdict :
      (io : FileTorrentIo F) (index : ℕ) (piece : FilePieceState)
      → is_answer (check_hash api sha1 hex io index piece).1 ≡ true
      → let r = check_hash api sha1 hex io index piece in
        (r.0.piece_to_file ≡ io.piece_to_file)
        × ((r.0.allocation ≡ io.allocation)
            × ((api.bytes r.0.file ≡ api.bytes io.file)
                × (r.1 ≡ verdict index (hash_in io.file piece) piece.hash)))
  unfolding check_hash
  check_hash-verdict io index piece h =
      elim (Outcome-cases (compute_file_sha1_hash api sha1 hex piece io.file).1) [
        | inr (inl (x, e)) ↦ absurd (let failed = rw (e, check_hash) at h in cc)
        | inr (inr e) ↦ absurd (let failed = rw (e, check_hash) at h in cc)
        | inl (c, e) ↦
            let computed = compute-hash_in piece io.file c e in
            elim (Bool-cases (list_eq.beq c piece.hash)) [
              | inl same ↦
                  let agrees : list_eq.beq (hash_in io.file piece) piece.hash ≡ true =
                    subst (λ x. list_eq.beq x piece.hash ≡ true) computed.0 same in
                  rw (e, same, agrees, check_hash) (refl, (refl, (computed.1, refl)))
              | inr differs ↦
                  let disagrees : list_eq.beq (hash_in io.file piece) piece.hash ≡ false =
                    subst (λ x. list_eq.beq x piece.hash ≡ false) computed.0 differs in
                  rw (e, differs, disagrees, check_hash)
                    (
                      refl,
                      (
                        refl,
                        (
                          computed.1,
                          ap (λ x. err (piece_hash_mismatch index (hex x) (hex piece.hash)))
                              computed.0,
                        ),
                      ),
                    )
            ]
      ]

  -- The piece with the written range recorded.
  abbrev pub recorded : FilePieceState → ℕ → Bytes → FilePieceState
  recorded piece begin block = record piece {
    slices = (Slices.insert piece.slices begin (to_u32 (length block))).0;
  }

  -- What a block that was written leaves, and what is answered.
  abbrev pub Written :
      FileTorrentIo F
      → ℕ
      → FilePieceState
      → ℕ
      → Bytes
      → FileTorrentIo F × Outcome PeerError Bool
      → Type 0
  Written io index piece begin block r =
      let piece' = recorded piece begin block in
      (r.0.piece_to_file ≡ set io.piece_to_file index piece')
      × ((r.0.allocation ≡ io.allocation)
          × ((add_usize piece.start_idx begin + length block ≤ length (api.bytes io.file)
                → api.bytes r.0.file
                  ≡ copy_block (api.bytes io.file) (add_usize piece.start_idx begin) block)
              × (r.1 ≡ (
                  if Slices.is_complete piece'.slices
                  then verdict index (hash_in r.0.file piece') piece.hash
                  else ok false))))

  write_block-Written :
      (io : FileTorrentIo F) (index : ℕ) (piece : FilePieceState) (begin : ℕ) (block : Bytes)
      → is_answer (write_block api sha1 hex io index piece begin block).1 ≡ true
      → Written io index piece begin block (write_block api sha1 hex io index piece begin block)
  unfolding write_block seek_offset Slices.insert
  write_block-Written io index piece begin block h =
      let at' = add_usize piece.start_idx begin in
      let s = api.seek io.file at' in
      elim (Outcome-cases s.1) [
        | inr (inl (x, e)) ↦ absurd (let failed = rw (e, write_block) at h in cc)
        | inr (inr e) ↦ absurd (let failed = rw (e, write_block) at h in cc)
        | inl (u, e) ↦ elim (Outcome-cases (api.write_all s.0 block).1) [
          | inr (inl (x, e')) ↦ absurd (let failed = rw (e, e', write_block) at h in cc)
          | inr (inr e') ↦ absurd (let failed = rw (e, e', write_block) at h in cc)
          | inl (v, e') ↦
              let moved = api.seek_moves io.file at' e in
              let writes : at' + length block ≤ length (api.bytes io.file)
                  → api.bytes (api.write_all s.0 block).0
                    ≡ copy_block (api.bytes io.file) at' block =
                λ inside.
                  api.write_all_writes s.0 block e' (rw (moved.0, moved.1) inside)
                  ∙ (λ i. copy_block (moved.0 i) (moved.1 i) block) in
              elim (Bool-cases (Slices.is_complete (recorded piece begin block).slices)) [
                | inr open' ↦ rw (e, e', open', write_block) (refl, (refl, (writes, refl)))
                | inl full ↦
                    let piece' = recorded piece begin block in
                    let io' : FileTorrentIo F = record io {
                      file = (api.write_all s.0 block).0;
                      piece_to_file = set io.piece_to_file index piece';
                    } in
                    let checks : write_block api sha1 hex io index piece begin block
                        ≡ check_hash api sha1 hex io' index piece' =
                      rw (e, e', full, write_block) refl in
                    let v =
                      check_hash-verdict io' index piece'
                        (subst (λ r. is_answer r.1 ≡ true) checks h) in
                    subst (Written io index piece begin block) (sym checks) (
                      v.0,
                      (
                        v.1.0,
                        (
                          (λ inside. v.1.1.0 ∙ writes inside),
                          rw full (
                              v.1.1.1 ∙ (λ i.
                                verdict index
                                  (sha1 (take piece.size (drop piece.start_idx (sym v.1.1.0 i))))
                                  piece.hash)),
                        ),
                      ),
                    )
              ]
        ]
      ]

  -- What a block that was accepted leaves: the piece was there and not complete, the block fits it.
  pub data Accepted (io : FileTorrentIo F) (index begin : ℕ) (block : Bytes)
      (r : FileTorrentIo F × Outcome PeerError Bool) : Type 0 where
    accepted :
        (piece : FilePieceState)
        → get_elem? io.piece_to_file index ≡ some piece
        → Slices.is_complete piece.slices ≡ false
        → add_usize begin (length block) ≤ piece_len io.allocation index
        → Written io index piece begin block r
        → Accepted io index begin block r

  pub write_piece-Accepted :
      (io : FileTorrentIo F) (index begin : ℕ) (block : Bytes)
      → is_answer (write_piece api sha1 hex io index begin block).1 ≡ true
      → Accepted io index begin block (write_piece api sha1 hex io index begin block)
  unfolding write_piece
  write_piece-Accepted io index begin block h =
      let end_pos = add_usize begin (length block) in
      elim (Option-cases (get_elem? io.piece_to_file index)) [
        | inl e ↦ absurd (let no_piece = rw (e, write_piece) at h in cc)
        | inr (piece, e) ↦ elim (Bool-cases (Slices.is_complete piece.slices)) [
          | inl full ↦ absurd (let no_write = rw (e, full, write_piece) at h in cc)
          | inr open' ↦ elim (Bool-cases (ltb (piece_len io.allocation index) end_pos)) [
            | inl beyond ↦ absurd (let no_write = rw (e, open', beyond, write_piece) at h in cc)
            | inr within ↦
                let writes : write_piece api sha1 hex io index begin block
                    ≡ write_block api sha1 hex io index piece begin block =
                  rw (e, open', within, write_piece) refl in
                let answers = subst (λ r. is_answer r.1 ≡ true) writes h in
                subst (Accepted io index begin block) (sym writes) (
                  accepted piece e open' (ground arith)
                    (write_block-Written io index piece begin block answers))
          ]
        ]
      ]
