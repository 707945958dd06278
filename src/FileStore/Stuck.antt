-- ===== src/FileStore/Stuck.antt =====
-- src/peer/io/file.rs: a piece whose ranges are all recorded as written stays as it is.
use bentorrent.Prelude.{
  ℕ, ltb, true, List, [], ◌∷◌, some, length, get_elem?, set, add_usize, ◌≡◌, ◌≢◌, refl, sym, ap,
  ◌∙◌, Bool-cases, Option-cases, inl, inr, ◌⊎◌, get_elem?-set_ne,
}
use bentorrent.Prelude.Eq.{list_eq}
use bentorrent.Outcome.{Outcome-cases, err}
use bentorrent.Torrent.{Bytes, piece_len}
use bentorrent.Slices
use bentorrent.Io.{file_already_complete, piece_hash_mismatch}
use bentorrent.FileStore.{FilePieceState}
use bentorrent.FileStore.FileApi.{FileApi}
use bentorrent.FileStore.Store.{
  FileTorrentIo, seek_offset, compute_file_sha1_hash, check_hash, write_block, read_block,
  write_piece, read_piece,
}
use bentorrent.FileStore.Hashes.{recorded, accepted, write_piece-Accepted}
use bentorrent.FileStore.Contents.{piece_after}

-- What is asked of a store.
pub data Operation : Type 0 where
  writes : (index begin : ℕ) (block : Bytes) → Operation
  reads : (index begin len : ℕ) → Operation

-- Every range of the piece is recorded as written.
abbrev pub IsStuck : {F : Type 0} → FileTorrentIo F → ℕ → Type 0
IsStuck io index =
    (piece : FilePieceState) × (get_elem? io.piece_to_file index ≡ some piece)
    × (Slices.is_complete piece.slices ≡ true)

module _ {F : Type 0} (api : FileApi F) (sha1 hex : Bytes → Bytes) where
  -- The store after some operations, whatever they answer.
  unfoldable pub run_store : FileTorrentIo F → List Operation → FileTorrentIo F
  run_store io [] = io
  run_store io (writes index begin block ∷ ops) =
      run_store (write_piece api sha1 hex io index begin block).0 ops
  run_store io (reads index begin len ∷ ops) =
      run_store (read_piece api sha1 hex io index begin len).0 ops

  check_hash-pieces :
      (io : FileTorrentIo F) (index : ℕ) (piece : FilePieceState)
      → (check_hash api sha1 hex io index piece).0.piece_to_file ≡ io.piece_to_file
  unfolding check_hash
  check_hash-pieces io index piece =
      elim (Outcome-cases (compute_file_sha1_hash api sha1 hex piece io.file).1) [
        | inr (inl (x, e)) ↦ rw (e, check_hash) refl
        | inr (inr e) ↦ rw (e, check_hash) refl
        | inl (c, e) ↦ elim (Bool-cases (list_eq.beq c piece.hash)) [
          | inl same ↦ rw (e, same, check_hash) refl
          | inr differs ↦ rw (e, differs, check_hash) refl
        ]
      ]

  -- A write changes the entry of its own piece at most.
  write_block-pieces :
      (io : FileTorrentIo F) (index : ℕ) (piece : FilePieceState) (begin : ℕ) (block : Bytes)
      → let r = write_block api sha1 hex io index piece begin block in
        (r.0.piece_to_file ≡ io.piece_to_file)
        ⊎ (r.0.piece_to_file ≡ set io.piece_to_file index (recorded api sha1 hex piece begin block))
  unfolding write_block seek_offset Slices.insert
  write_block-pieces io index piece begin block =
      let s = api.seek io.file (add_usize piece.start_idx begin) in
      elim (Outcome-cases s.1) [
        | inr (inl (x, e)) ↦ inl (rw (e, write_block) refl)
        | inr (inr e) ↦ inl (rw (e, write_block) refl)
        | inl (u, e) ↦ elim (Outcome-cases (api.write_all s.0 block).1) [
          | inr (inl (x, e')) ↦ inl (rw (e, e', write_block) refl)
          | inr (inr e') ↦ inl (rw (e, e', write_block) refl)
          | inl (v, e') ↦
              let piece' = recorded api sha1 hex piece begin block in
              let io' : FileTorrentIo F = record io {
                file = (api.write_all s.0 block).0;
                piece_to_file = set io.piece_to_file index piece';
              } in
              elim (Bool-cases (Slices.is_complete piece'.slices)) [
                | inr open' ↦ inr (rw (e, e', open', write_block) refl)
                | inl full ↦
                    inr (rw (e, e', full, write_block) (check_hash-pieces io' index piece'))
              ]
        ]
      ]

  read_block-pieces :
      (io : FileTorrentIo F) (piece : FilePieceState) (begin len : ℕ)
      → (read_block api sha1 hex io piece begin len).0.piece_to_file ≡ io.piece_to_file
  unfolding read_block seek_offset
  read_block-pieces io piece begin len =
      let s = api.seek io.file (add_usize piece.start_idx begin) in
      elim (Outcome-cases s.1) [
        | inr (inl (x, e)) ↦ rw (e, read_block) refl
        | inr (inr e) ↦ rw (e, read_block) refl
        | inl (u, e) ↦ elim (Outcome-cases (api.read_exact s.0 len).1) [
          | inr (inl (x, e')) ↦ rw (e, e', read_block) refl
          | inr (inr e') ↦ rw (e, e', read_block) refl
          | inl (block, e') ↦ rw (e, e', read_block) refl
        ]
      ]

  read_piece-pieces :
      (io : FileTorrentIo F) (index begin len : ℕ)
      → (read_piece api sha1 hex io index begin len).0.piece_to_file ≡ io.piece_to_file
  unfolding read_piece
  read_piece-pieces io index begin len = elim (Option-cases (get_elem? io.piece_to_file index)) [
    | inl e ↦ rw (e, read_piece) refl
    | inr (piece, e) ↦
        elim (Bool-cases (ltb (piece_len io.allocation index) (add_usize begin len))) [
          | inl beyond ↦ rw (e, beyond, read_piece) refl
          | inr within ↦ elim (Bool-cases (Slices.is_complete piece.slices)) [
            | inr open' ↦ rw (e, within, open', read_piece) refl
            | inl full ↦ rw (e, within, full, read_piece) (read_block-pieces io piece begin len)
          ]
        ]
  ]

  write_piece-stuck :
      (io : FileTorrentIo F) (index begin : ℕ) (block : Bytes)
      → IsStuck io index
      → write_piece api sha1 hex io index begin block ≡ (io, err (file_already_complete index))
  unfolding write_piece
  write_piece-stuck io index begin block (piece, e, full) = rw (e, full, write_piece) refl

  write_piece-IsStuck :
      (io : FileTorrentIo F) (stuck index begin : ℕ) (block : Bytes)
      → IsStuck io stuck
      → IsStuck (write_piece api sha1 hex io index begin block).0 stuck
  unfolding write_piece
  write_piece-IsStuck io stuck index begin block (p, at', full) =
      elim (Option-cases (get_elem? io.piece_to_file index)) [
        | inl e ↦ rw (e, write_piece) (p, at', full)
        | inr (piece, e) ↦ elim (Bool-cases (Slices.is_complete piece.slices)) [
          | inl done ↦ rw (e, done, write_piece) (p, at', full)
          | inr open' ↦
              let end_pos = add_usize begin (length block) in
              elim (Bool-cases (ltb (piece_len io.allocation index) end_pos)) [
                | inl beyond ↦ rw (e, open', beyond, write_piece) (p, at', full)
                | inr within ↦
                    let other_piece : index ≢ stuck =
                      λ same. let both : piece ≡ p = cc in let no = rw both at open' in cc in
                    let there : get_elem?
                          (write_block api sha1 hex io index piece begin block).0.piece_to_file
                          stuck
                        ≡ some p =
                      elim (write_block-pieces io index piece begin block) [
                        | inl same ↦ ap (λ ps. get_elem? ps stuck) same ∙ at'
                        | inr changed ↦
                            ap (λ ps. get_elem? ps stuck) changed
                            ∙ get_elem?-set_ne io.piece_to_file index stuck _ other_piece
                            ∙ at'
                      ] in
                    rw (e, open', within, write_piece) (p, there, full)
              ]
        ]
      ]

  run_store-IsStuck :
      (ops : List Operation) (io : FileTorrentIo F) (stuck : ℕ)
      → IsStuck io stuck
      → IsStuck (run_store io ops) stuck
  unfolding run_store
  run_store-IsStuck [] io stuck s = s
  run_store-IsStuck (writes index begin block ∷ ops) io stuck s =
      run_store-IsStuck ops (write_piece api sha1 hex io index begin block).0 stuck
        (write_piece-IsStuck io stuck index begin block s)
  run_store-IsStuck (reads index begin len ∷ ops) io stuck (p, at', full) =
      run_store-IsStuck ops (read_piece api sha1 hex io index begin len).0 stuck
        (p, ap (λ ps. get_elem? ps stuck) (read_piece-pieces io index begin len) ∙ at', full)

  -- After a piece fails its check, and whatever is written to the store and read from it since, with
  -- whatever results: every write to the piece is refused as already complete and changes nothing,
  -- so the piece cannot be downloaded again.
  pub write_piece_mismatch :
      (io : FileTorrentIo F) (index begin i : ℕ) (block computed expected : Bytes)
      (ops : List Operation) (begin' : ℕ) (block' : Bytes)
      → (write_piece api sha1 hex io index begin block).1
        ≡ err (piece_hash_mismatch i computed expected)
      → let later = run_store (write_piece api sha1 hex io index begin block).0 ops in
        write_piece api sha1 hex later index begin' block'
        ≡ (later, err (file_already_complete index))
  write_piece_mismatch io index begin i block computed expected ops begin' block' h =
      elim (write_piece-Accepted api sha1 hex io index begin block (rw h refl)) [
        | accepted piece e open' fits w ↦
            let piece' = recorded api sha1 hex piece begin block in
            let answer = sym w.1.1.1 ∙ h in
            elim (Bool-cases (Slices.is_complete piece'.slices)) [
              | inr not_full ↦ absurd (let no_error = rw not_full at answer in cc)
              | inl full ↦
                  let there = piece_after api sha1 hex io index piece piece' _ e w.0 in
                  write_piece-stuck _ index begin' block'
                    (run_store-IsStuck ops _ index (piece', there, full))
            ]
      ]
