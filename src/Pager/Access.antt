-- ===== src/Pager/Access.antt =====
-- `isFree`, `getPage` and `freePage` of src/backend/Pager.{cpp,tpp}, on all their branches.
use kndb.Base.{
  ℕ, ◌%◌, ◌<◌, ◌≤◌, ◌≡◌, ◌≢◌, ◌∙◌, Bool, true, false, List, some, ok, throws, aborts, bad_cast,
  arith, inl, inr, ◌⊎◌, Bool-cases, ltb, ltb→lt, lt→ltb, ◌==◌, if◌then◌else◌,
}
use kndb.Posix.{Posix}
use kndb.Io.{get_num_blocks}
use kndb.Vari.Codec.{Memory}
use kndb.Fsm.{get_blocks_in_page}
use kndb.Page.{Kind, has_kind}
use kndb.Cache.{Owned, PageCache}
use kndb.Cache.Views.{Shows, Keeps, Keeps-trans, retrieve_page-ends}
use kndb.FreeSpaceMap.Steps.{View}
use kndb.FreeSpaceMap.Invariant.{free_id}
use kndb.FreeSpaceMap.Others.{KeepsOthers, KeepsOthers-refl}
use kndb.FreeSpaceMap.Free.{is_free-Steps}
use kndb.FreeSpaceMap.Release.{free_bit_ends}
use kndb.Pager.{num_blocks, is_free, get_page, free_page}
use kndb.Pager.Invariant.{IsOpen, moved_IsOpen}

module _ (os : Posix) (mem : Memory) (c : PageCache os) (v : View) (ids : List ℕ)
    (h : IsOpen c v ids) where
  same_IsOpen : (c' : PageCache os) → Shows c' v → Keeps c c' → IsOpen c' v ids
  same_IsOpen c' s k = moved_IsOpen h s k h.map (KeepsOthers-refl v) h.own

  -- The answer of `isFree`: beyond the file every page is free.
  abbrev pub is_free_now : ℕ → Bool
  is_free_now n = if ltb n c.io.blocks then free_id v n else true

  -- On an open database isFree returns whether the page of an id is free, those beyond the
  -- file included, and keeps the database open with the same pages.
  pub pager_is_free_lem :
      (n : ℕ) → (c' : PageCache os) × (is_free os mem n c ≡ ok (is_free_now n) c') × IsOpen c' v ids
  unfolding is_free num_blocks get_num_blocks
  pager_is_free_lem n = elim (Bool-cases (ltb n c.io.blocks)) [
    | inr beyond ↦ (c, rw beyond, h)
    | inl inside ↦
        let (p, at) = h.covered n (ltb→lt n c.io.blocks inside) in
        let (c', run, s, k) = (is_free-Steps os mem v ids h.map n p at).run c h.shows in
        (c', rw (inside, run), same_IsOpen c' s k)
  ]

  -- The ends of `getPage` for a page that the cache shows: its reference, `std::bad_cast` if it is of
  -- another class, or a stop if it is free.
  abbrev pub GetEnds : Kind → ℕ → Owned → Type 0
  GetEnds kind n o =
      ((free_id v n ≡ true) × (get_page os mem kind n c ≡ aborts))
      ⊎ ((free_id v n ≡ false)
          × (c' : PageCache os) × (get_page os mem kind n c
              ≡ (if has_kind kind o.page then ok o.object c' else throws bad_cast c'))
          × Keeps c c'
          × IsOpen c' v ids)

  -- On an open database getPage of a page that the cache shows returns its reference, or
  -- throws if it is of another class, and keeps the pages and the database as they are; at a
  -- page that is free it stops the process.
  pub get_page_ends : (kind : Kind) (n : ℕ) (o : Owned) → v n ≡ some o → GetEnds kind n o
  unfolding get_page num_blocks get_num_blocks
  get_page_ends kind n o shown =
      let inside : ltb n c.io.blocks ≡ true = lt→ltb n c.io.blocks (h.within n o shown) in
      let (p, at) = h.covered n (h.within n o shown) in
      let (c1, run1, s1, k1) = (is_free-Steps os mem v ids h.map n p at).run c h.shows in
      let (c2, run2, s2, k2) = retrieve_page-ends mem o kind n s1 shown in
      elim (Bool-cases (free_id v n)) [
        | inl free ↦ inl (free, rw (inside, run1, free))
        | inr used ↦
            let k = Keeps-trans k1 k2 in
            inr (used, c2, rw (inside, run1, used, run2), k, same_IsOpen c2 s2 k)
      ]

  -- The ends of `freePage`: the page is free and nothing else is changed, or a stop at a page that is
  -- free or beyond the file.
  abbrev pub FreePageEnds : ℕ → Type 0
  FreePageEnds n =
      ((n < c.io.blocks)
        × (free_id v n ≡ false)
        × (c' : PageCache os) × (w : View) × (after : List ℕ) × (free_page os mem n c ≡ ok tt c')
        × IsOpen c' w after
        × (c'.io ≡ c.io)
        × KeepsOthers v w
        × ((m : ℕ) → free_id w m ≡ (if n == m then true else free_id v m)))
      ⊎ (((c.io.blocks ≤ n) ⊎ (free_id v n ≡ true)) × (free_page os mem n c ≡ aborts))

  -- On an open database freePage frees a page in use that is not at the place of an FSM page,
  -- and frees no other, keeps the database open, changes FSM pages only and leaves the file as
  -- it is; at a page that is free or beyond the file it stops the process.
  pub free_page_ends : (n : ℕ) → n % get_blocks_in_page ≢ 0 → FreePageEnds n
  unfolding free_page num_blocks get_num_blocks
  free_page_ends n page = elim (Bool-cases (ltb n c.io.blocks)) [
    | inr beyond ↦ inr (inl (ground arith), rw beyond)
    | inl inside ↦
        let (p, at) = h.covered n (ltb→lt n c.io.blocks inside) in
        let (c1, run1, s1, k1) = (is_free-Steps os mem v ids h.map n p at).run c h.shows in
        elim (Bool-cases (free_id v n)) [
          | inl free ↦ inr (inr free, rw (inside, run1, free))
          | inr used ↦ elim (free_bit_ends os mem v ids h.map n p at c1 s1) [
            | inr (free, stopped) ↦ cc
            | inl (in_use, c', w, after, run, s, k, valid, free, others) ↦ inl (
              ltb→lt n c.io.blocks inside,
              used,
              c',
              w,
              after,
              rw (inside, run1, used, run),
              moved_IsOpen h s (Keeps-trans k1 k) valid others
                  (λ id lt placed. free id ∙ ground (arith, h.own id lt placed)),
              k.io ∙ k1.io,
              others,
              free,
            )
          ]
        ]
  ]
