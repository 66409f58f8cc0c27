-- ===== src/Io/Blocks.antt =====
-- The file of src/backend/IOHandler.cpp as a sequence of blocks.
use kndb.Base.{
  ℕ, ◌+◌, ◌*◌, ◌%◌, ◌^◌, ◌<◌, ◌≤◌, ◌≡◌, refl, ap, ◌∙◌, List, ◌++◌, none, some, ok, throws,
  runtime_error, ltb, ◌==◌, if◌then◌else◌, length, take, drop, arith, inl, inr, ◌⊎◌, Bool-cases,
  Option-cases, ltb→lt, length-append, length-take, length-drop, append-nil, drop_all,
}
use kndb.Constants.{pg_sz}
use kndb.Posix.{Posix, PosixLaws}
use kndb.Io.{IoHandler, write_block, read_block}
use kndb.Io.Splice.{chunk, splice}

module _ (os : Posix) where
  -- Block `m` of the file.
  abbrev pub block : IoHandler os → ℕ → List ℕ
  block h m = chunk pg_sz (os.content h.file) m

  -- The file holds all its blocks, and they are so few that no size overflows 32 bits.
  pub record IsValid (h : IoHandler os) : Type 0 where
    pub covers : h.blocks * pg_sz ≤ length (os.content h.file)
    pub few : h.blocks * pg_sz < 2 ^ 32

  -- The ends of `writeBlock`, all with the same blocks but for block `n`. It throws with the object as it
  -- was, if the number is out of range or `pwrite` fails; else the block holds what was written, and it
  -- returns, or throws where `fsync` fails.
  abbrev pub WriteEnds : List ℕ → ℕ → IoHandler os → Type 0
  WriteEnds arr n h =
      ((write_block os arr n h ≡ throws runtime_error h)
        × ((h.blocks ≤ n) ⊎ (os.pwrite h.file arr (n * pg_sz) ≡ none)))
      ⊎ ((h' : IoHandler os) × (write_block os arr n h
            ≡ (if os.fsync h'.file then ok tt h' else throws runtime_error h'))
          × (n < h.blocks)
          × IsValid h'
          × (h'.blocks ≡ h.blocks)
          × ((m : ℕ) → block h' m ≡ (if m == n then arr else block h m)))

  -- The ends of `readBlock`: the block, or an exception if the number is out of range or `pread` fails.
  abbrev pub ReadEnds : List ℕ → ℕ → IoHandler os → Type 0
  ReadEnds arr n h =
      ((n < h.blocks) × (read_block os arr n h ≡ ok (block h n) h))
      ⊎ ((read_block os arr n h ≡ throws runtime_error h)
          × ((h.blocks ≤ n) ⊎ (os.pread h.file pg_sz (n * pg_sz) ≡ none)))

module _ (os : Posix) (laws : PosixLaws os) (h : IoHandler os) (v : IsValid os h) where
  module _ (arr : List ℕ) (n : ℕ) (e : length arr ≡ pg_sz) (inside : n < h.blocks) (f : os.File)
      (written : os.pwrite h.file arr (n * pg_sz % 2 ^ 32) ≡ some f) where
    written_content :
        os.content f
        ≡ take (n * pg_sz) (os.content h.file)
          ++ (arr ++ drop (n * pg_sz + pg_sz) (os.content h.file))
    written_content =
        let place : n * pg_sz % 2 ^ 32 ≡ n * pg_sz = omega (arith, v.few) in
        laws.write h.file f arr (n * pg_sz) (rw place at written) (omega (arith, v.covers)) ∙ rw e

    pub written-IsValid : IsValid os (record h { file = f })
    written-IsValid = record {
      covers = omega (
        arith,
        v.covers,
        ap length written_content,
        length-append (take (n * pg_sz) (os.content h.file))
            (arr ++ drop (n * pg_sz + pg_sz) (os.content h.file)),
        length-append arr (drop (n * pg_sz + pg_sz) (os.content h.file)),
        length-take (n * pg_sz) (os.content h.file),
        length-drop (n * pg_sz + pg_sz) (os.content h.file),
      );
      few = v.few;
    }

    pub written_blocks :
        (m : ℕ) → block os (record h { file = f }) m ≡ (if m == n then arr else block os h m)
    written_blocks m =
        rw written_content (splice pg_sz n (os.content h.file) arr e (omega (arith, v.covers)) m)

  pub write_block_lem : (arr : List ℕ) (n : ℕ) → length arr ≡ pg_sz → WriteEnds os arr n h
  unfolding write_block
  write_block_lem arr n e = elim (Bool-cases (ltb n h.blocks)) [
    | inr out ↦ inl (rw out, inl (ground arith))
    | inl inside ↦
        let place : n * pg_sz % 2 ^ 32 ≡ n * pg_sz =
          omega (arith, v.few, ltb→lt n h.blocks inside) in
        elim (Option-cases (os.pwrite h.file arr (n * pg_sz % 2 ^ 32))) [
          | inl failed ↦ inl (ground arith, inr (rw place at failed))
          | inr (f, written) ↦ inr (
            record h { file = f },
            ground arith,
            ltb→lt n h.blocks inside,
            written-IsValid arr n e (ltb→lt n h.blocks inside) f written,
            refl,
            written_blocks arr n e (ltb→lt n h.blocks inside) f written,
          )
        ]
  ]

  -- On a valid file `readBlock` returns the block that it is given the number of, whatever the buffer
  -- held, or throws if the number is out of range or `pread` fails; it changes nothing.
  pub read_block_lem : (arr : List ℕ) (n : ℕ) → length arr ≡ pg_sz → ReadEnds os arr n h
  unfolding read_block
  read_block_lem arr n e = elim (Bool-cases (ltb n h.blocks)) [
    | inr out ↦ inr (rw out, inl (ground arith))
    | inl inside ↦
        let place : n * pg_sz % 2 ^ 32 ≡ n * pg_sz =
          omega (arith, v.few, ltb→lt n h.blocks inside) in
        elim (Option-cases (os.pread h.file pg_sz (n * pg_sz % 2 ^ 32))) [
          | inl failed ↦ inr (ground arith, inr (rw place at failed))
          | inr (bs, got) ↦ inl (ltb→lt n h.blocks inside, run (ltb→lt n h.blocks inside) bs got)
        ]
  ]
    where
      content :
          n < h.blocks
          → (bs : List ℕ) → os.pread h.file pg_sz (n * pg_sz % 2 ^ 32) ≡ some bs
          → bs ≡ block os h n
      content inside bs got =
          let place : n * pg_sz % 2 ^ 32 ≡ n * pg_sz = omega (arith, v.few) in
          laws.read h.file bs pg_sz (n * pg_sz) (rw place at got) (omega (arith, v.covers))

      whole :
          n < h.blocks
          → (bs : List ℕ) → bs ≡ block os h n
          → bs ++ drop (length bs) arr ≡ block os h n
      whole inside bs same =
          rw
            (drop_all (length bs) arr (
              omega (
                arith,
                ap length same,
                v.covers,
                length-take pg_sz (drop (n * pg_sz) (os.content h.file)),
                length-drop (n * pg_sz) (os.content h.file),
              )))
            (append-nil bs ∙ same)

      run :
          n < h.blocks
          → (bs : List ℕ) → os.pread h.file pg_sz (n * pg_sz % 2 ^ 32) ≡ some bs
          → read_block os arr n h ≡ ok (block os h n) h
      run inside bs got = rw (← whole inside bs (content inside bs got)) (ground arith)
