-- ===== src/Io/Grow.antt =====
-- `createNewBlock` and `createMultipleBlocks` of src/backend/IOHandler.cpp.
use kndb.Base.{
  ℕ, ◌+◌, ◌-◌, ◌*◌, ◌%◌, ◌^◌, ◌<◌, ◌≤◌, ◌≡◌, refl, sym, ap, ◌∙◌, List, [], ◌++◌, none, some, ok,
  throws, runtime_error, ltb, if◌then◌else◌, length, take, drop, replicate, arith, inl, inr, ◌⊎◌,
  Bool-cases, Option-cases, ltb→lt, lt→ltb, length-append, length-take, length-replicate,
  take-append-drop,
}
use kndb.Constants.{pg_sz}
use kndb.Posix.{Posix, PosixLaws}
use kndb.Io.{IoHandler, create_new_block, create_multiple_blocks}
use kndb.Io.Splice.{chunk, take-drop-append}
use kndb.Io.Blocks.{IsValid, block}

-- Cutting behind a block does not change it.
chunk-take :
    (n N m : ℕ) (xs ys : List ℕ)
    → m * n + n ≤ N
    → m * n + n ≤ length xs
    → chunk n (take N (xs ++ ys)) m ≡ chunk n xs m
chunk-take n N m xs ys h k =
    sym (
      take-drop-append n (m * n) (take N (xs ++ ys)) (drop N (xs ++ ys))
        (omega (arith, length-take N (xs ++ ys), length-append xs ys)))
    ∙ ap (λ zs. chunk n zs m) (take-append-drop N (xs ++ ys))
    ∙ take-drop-append n (m * n) xs ys k

module _ (os : Posix) where
  -- `h'` is `h` with `n` more blocks behind the old ones.
  pub record Grown (h h' : IoHandler os) (n : ℕ) : Type 0 where
    pub valid : IsValid os h'
    pub more : h'.blocks ≡ h.blocks + n
    pub kept :
        (m : ℕ)
        → (if ltb m h.blocks then block os h' m else [])
          ≡ (if ltb m h.blocks then block os h m else [])

  module _ (laws : PosixLaws os) (h : IoHandler os) (v : IsValid os h) (n : ℕ) (some_more : 0 < n)
      (small : (h.blocks + n) * pg_sz < 2 ^ 32) where
    grown :
        (f : os.File)
        → os.ftruncate h.file ((h.blocks + n) * pg_sz) ≡ some f
        → Grown h (record { file = f; blocks = h.blocks + n }) n
    grown f cut =
        let now = laws.resize h.file f ((h.blocks + n) * pg_sz) cut in
        record {
          valid = record {
            covers = omega (
              arith,
              ap length now,
              length-take ((h.blocks + n) * pg_sz)
                  (os.content h.file ++ replicate ((h.blocks + n) * pg_sz) 0),
              length-append (os.content h.file) (replicate ((h.blocks + n) * pg_sz) 0),
              length-replicate {A = ℕ} ((h.blocks + n) * pg_sz) 0,
            );
            few = small;
          };
          more = refl;
          kept = λ m. elim (Bool-cases (ltb m h.blocks)) [
            | inl lt ↦
                rw (lt, now)
                  (chunk-take pg_sz ((h.blocks + n) * pg_sz) m (os.content h.file) _
                    (omega (arith, ltb→lt m h.blocks lt))
                    (omega (arith, ltb→lt m h.blocks lt, v.covers)))
            | inr ge ↦ rw ge
          ];
        }

    -- The ends of `createMultipleBlocks`: the number of the first new block, or an exception with the
    -- object as it was, if `ftruncate` fails.
    abbrev pub GrowsMany : Type 0
    GrowsMany =
        ((h' : IoHandler os) × (create_multiple_blocks os n h ≡ ok h.blocks h') × Grown h h' n)
        ⊎ ((create_multiple_blocks os n h ≡ throws runtime_error h)
            × (os.ftruncate h.file ((h.blocks + n) * pg_sz) ≡ none))

    -- On a valid file whose new size fits 32 bits `createMultipleBlocks` adds one or more blocks behind
    -- those there are, which stay, keeps the file valid and returns the number of the first; if
    -- `ftruncate` fails it throws and changes nothing.
    pub create_multiple_blocks_lem : GrowsMany
    unfolding create_multiple_blocks
    create_multiple_blocks_lem =
        let wide : (h.blocks + n) % 2 ^ 32 ≡ h.blocks + n = omega arith in
        let size : (h.blocks + n) * pg_sz % 2 ^ 32 ≡ (h.blocks + n) * pg_sz = omega arith in
        let first : (h.blocks + n + 2 ^ 32 - n) % 2 ^ 32 ≡ h.blocks = omega arith in
        elim (Option-cases (os.ftruncate h.file ((h.blocks + n) * pg_sz))) [
          | inl failed ↦ inr (rw (lt→ltb 0 n some_more, wide, size) (ground arith), failed)
          | inr (f, cut) ↦ inl (
            record { file = f; blocks = h.blocks + n },
            rw (lt→ltb 0 n some_more, wide, size) (ground (arith, first)),
            grown f cut,
          )
        ]

  module _ (laws : PosixLaws os) (h : IoHandler os) (v : IsValid os h)
      (small : (h.blocks + 1) * pg_sz < 2 ^ 32) where
    -- The ends of `createNewBlock`: the number of the new block, or an exception if `ftruncate` fails, with
    -- the count already raised though the file is as it was.
    abbrev pub GrowsOne : Type 0
    GrowsOne =
        ((h' : IoHandler os) × (create_new_block os h ≡ ok h.blocks h') × Grown h h' 1)
        ⊎ ((create_new_block os h ≡ throws runtime_error (record h { blocks = h.blocks + 1 }))
            × (os.ftruncate h.file ((h.blocks + 1) * pg_sz) ≡ none))

    -- On a valid file whose new size fits 32 bits `createNewBlock` adds one block behind those there are,
    -- which stay, keeps the file valid and returns the number of the new block; if `ftruncate` fails it
    -- throws, with the file as it was but the count of blocks raised.
    pub create_new_block_lem : GrowsOne
    unfolding create_new_block
    create_new_block_lem =
        let wide : (h.blocks + 1) % 2 ^ 32 ≡ h.blocks + 1 = omega arith in
        let size : (h.blocks + 1) * pg_sz % 2 ^ 32 ≡ (h.blocks + 1) * pg_sz = omega arith in
        let first : (h.blocks + 1 + 2 ^ 32 - 1) % 2 ^ 32 ≡ h.blocks = omega arith in
        elim (Option-cases (os.ftruncate h.file ((h.blocks + 1) * pg_sz))) [
          | inl failed ↦ inr (rw (wide, size) (ground arith), failed)
          | inr (f, cut) ↦ inl (
            record { file = f; blocks = h.blocks + 1 },
            rw (wide, size) (ground (arith, first)),
            grown laws h v 1 (omega arith) small f cut,
          )
        ]
