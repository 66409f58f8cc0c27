-- ===== src/Btree/Insert.antt =====
-- `insert` of src/backend/Btree.tpp on a whole tree.
use kndb.Base.{
  ℕ, suc, ◌+◌, ◌^◌, ◌<◌, ◌≤◌, ◌≡◌, refl, sym, ap, subst, ◌∙◌, Bool, true, false, List, [], ◌∷◌,
  ◌++◌, some, M, ◌>>=◌, arith, ◌==◌, length, inl, ok,
}
use kndb.Constants.{cellid_invalid}
use kndb.Posix.{Posix, PosixLaws}
use kndb.Vari.Codec.{Memory}
use kndb.Vari.Order.Laws.{IsOrdinary}
use kndb.NodePage.{Cell}
use kndb.Cache.Steps.{View}
use kndb.Pager.Client.{Client}
use kndb.Pager.Invariant.{IsOpen}
use kndb.Btree.{
  Btree, RowPos, max_depth, lower_bound, insert_at, search_row_ptr, search_root, insert,
}
use kndb.Btree.Tree.{Tree, tree, none_left, cells_of, height}
use kndb.Btree.Search.{root_of}
use kndb.Btree.Shape.{plug, occurs, occurs_above, occurs-plug, root_of-plug}
use kndb.Btree.Order.{insert_cell, lower_split, insert_cell-between}
use kndb.Btree.Vectors.{insert_at-front, length_append}
use kndb.Btree.Writes.{
  ref_of, Reads-Writes, Writes, write_node, written, unwritten, b_node-Writes, fields-Writes,
  on_node-Writes,
}
use kndb.Btree.Runs.{
  After, Runs, Writes-Runs, Runs-Runs, get_self-Runs, expect-Runs, assume-Runs, pure-Runs,
}
use kndb.Btree.Sound.{TreeOk, keep_frames, FramesOk-retarget, self_one, apart_none}
use kndb.Btree.Spread.{Even-Fits}
use kndb.Btree.Spot.{Spot}
use kndb.Btree.Descent.{Reaches}
use kndb.Btree.Split.{Stored, Holds, split_ends}

-- The tree has one cell more.
abbrev pub Inserted : ℕ → Cell → List Cell → After Bool
Inserted d new cells b w list u = (b ≡ true) × Holds d (insert_cell new cells) tt w list u

module _ (os : Posix) (mem : Memory) (laws : PosixLaws os) (d : ℕ) (two : 2 ≤ d)
    (narrow : d ≤ 2 ^ 15) (v : View) (ids : List ℕ) (new : Cell) (ordinary : IsOrdinary new.key)
    (whole : Tree) (t : Btree) (stored : Stored v t d whole) where
  -- Where the code goes with the place that the search returns.
  root_Ends {ℓ} :
      {A : Type ℓ} {P : After A} (row : RowPos) (f : RowPos → M (Client os Btree) A)
      → Writes (search_row_ptr os mem max_depth new.key (root_of whole)) v v ids row
      → Runs (f row) v ids t P
      → Runs (search_root os mem new.key >>= f) v ids t P
  unfolding search_root
  root_Ends {P = P} row f run rest =
      get_self-Runs (λ u. search_row_ptr os mem max_depth new.key u.root_page_id >>= f)
        (subst (λ i. Runs (search_row_ptr os mem max_depth new.key i >>= f) v ids t P)
          (sym stored.root) (Writes-Runs f run rest))

  module _ (at : Reaches os mem v ids d new ordinary max_depth [] whole) where
    -- The leaf with the new cell.
    put_in :
        (ls rs : List Cell)
        → at.page.cells ≡ ls ++ rs
        → Spot
            (write_node v at.id at.at.object (record (at.page) { cells = ls ++ new ∷ rs }))
            t
            d
            at.frames
            at.id
            at.at.object
            (record (at.page) { cells = ls ++ new ∷ rs })
            none_left
    unfolding TreeOk plug occurs
    put_in ls rs e =
        let q = record (at.page) { cells = ls ++ new ∷ rs } in
        let w = write_node v at.id at.at.object q in
        let sizes : length at.page.cells ≡ length ls + length rs =
          ap length e ∙ length_append ls rs in
        let more : length q.cells ≡ length ls + suc (length rs) = length_append ls (new ∷ rs) in
        let once = λ (k : ℕ). subst (λ x. occurs k x ≤ 1) (sym at.same) (stored.once k) in
        let none_above : occurs_above at.id at.frames ≡ 0 = omega (
          arith,
          once at.id,
          occurs-plug at.id at.frames (tree at.id at.page none_left),
          self_one at.id,
        ) in
        record {
          node = written (ref_of at.at) q at.at.own;
          good = record {
            fits =
                Even-Fits q none_left at.good.fits.children
                  (omega (arith, at.room, narrow, more, sizes)) (inl (at.leaf, refl));
            degree = at.good.degree;
            parent = at.good.parent;
            is_root = at.good.is_root;
          };
          few = omega (arith, at.room, more, sizes);
          kids_ok = tt;
          frames =
              FramesOk-retarget w d at.frames (tree at.id at.page none_left)
                (tree at.id q none_left) refl
                (keep_frames v w d at.frames (tree at.id at.page none_left)
                  (λ j x a o.
                    unwritten (ref_of at.at) q j
                      (apart_none (λ k. occurs_above k at.frames) at.id j none_above o))
                  at.frames_ok);
          once = λ k. omega (
            arith,
            once k,
            occurs-plug k at.frames (tree at.id at.page none_left),
            occurs-plug k at.frames (tree at.id q none_left),
          );
          root = stored.root ∙ ap root_of (sym at.same) ∙ root_of-plug at.frames _ _ refl;
          degree = stored.degree;
        }

    pub insert_absent :
        height whole < max_depth
        → Runs (insert os mem new.value new.key) v ids t (Inserted d new (cells_of whole))
    unfolding insert cells_of plug
    insert_absent low =
        let (ls, rs, e, size, lo, hi) = lower_split new at.page.cells in
        let q = record (at.page) { cells = ls ++ new ∷ rs } in
        let put : insert_at (lower_bound new.key at.page.cells) new at.page.cells
            ≡ some (ls ++ new ∷ rs) =
          subst (λ i. insert_at i new at.page.cells ≡ some (ls ++ new ∷ rs)) size
            (subst (λ cs. insert_at (length ls) new cs ≡ some (ls ++ new ∷ rs)) (sym e)
              (insert_at-front ls rs new)) in
        let same : cells_of (plug at.frames (tree at.id q none_left))
            ≡ insert_cell new (cells_of whole) =
          at.grows (tree at.id q none_left)
            (sym (insert_cell-between new ls rs lo hi) ∙ ap (insert_cell new) (sym e))
          ∙ ap (λ x. insert_cell new (cells_of x)) at.same in
        root_Ends _ _ (Reads-Writes at.run) (
          Writes-Runs _ (b_node-Writes (ref_of at.at) mem) (
            Writes-Runs _ (fields-Writes (ref_of at.at) mem) (
              assume-Runs _ _ at.leaf (
                Writes-Runs _ (b_node-Writes (ref_of at.at) mem) (
                  Writes-Runs _ (fields-Writes (ref_of at.at) mem) (
                    expect-Runs _ put (
                      Writes-Runs _ (on_node-Writes (ref_of at.at) mem _ tt q refl at.at.own) (
                        Runs-Runs _
                          (split_ends d two narrow os mem laws max_depth _ ids t at.frames at.id
                            at.at.object q none_left (omega (arith, low, at.low)) (put_in ls rs e))
                          (λ a w list u h.
                            pure-Runs true
                              (refl, subst (λ cs. Holds d cs a w list u) same h))))))))))

  root_search :
      (s : Client os Btree)
      → s.self ≡ t
      → search_root os mem new.key s ≡ search_row_ptr os mem max_depth new.key (root_of whole) s
  unfolding search_root
  root_search s e =
      ap (λ x. search_row_ptr os mem max_depth new.key x.root_page_id s) e
      ∙ ap (λ i. search_row_ptr os mem max_depth new.key i s) stored.root

  pub insert_present :
      (s : Client os Btree) (row : RowPos)
      → IsOpen s.pager v ids
      → s.self ≡ t
      → (row.cell_id == cellid_invalid) ≡ false
      → Writes (search_row_ptr os mem max_depth new.key (root_of whole)) v v ids row
      → (s' : Client os Btree) × (insert os mem new.value new.key s ≡ ok false s')
        × IsOpen s'.pager v ids
        × (s'.self ≡ s.self)
  unfolding insert
  insert_present s row o e valid run =
      let (s1, r1, o1, e1) = run.run s o in
      (s1, rw (insert, root_search s e, r1, valid) refl, o1, e1)
