-- ===== src/Btree/Update.antt =====
-- `update` of src/backend/Btree.tpp against the reference definition of an update.
use kndb.Base.{
  ℕ, ◌^◌, ◌<◌, ◌≤◌, ◌≡◌, refl, sym, ap, subst, ◌∙◌, Bool, true, false, List, [], ◌∷◌, ◌++◌, Option,
  none, some, M, ok, expect, pure, ◌>>=◌, ◌>>◌, if◌then◌else◌, arith, ◌==◌, length, get_elem?, set,
  inl, inr, ◌⊎◌, Option-cases,
}
use kndb.Constants.{pgid_invalid, cellid_invalid}
use kndb.Posix.{Posix}
use kndb.Vari.{Vari}
use kndb.Vari.Codec.{Memory}
use kndb.Vari.Order.Laws.{IsOrdinary}
use kndb.NodePage.{Cell, NodePage}
use kndb.Cache.Steps.{View}
use kndb.Pager.Client.{Client}
use kndb.Pager.Invariant.{IsOpen}
use kndb.Btree.{
  Btree, RowPos, max_depth, lower_bound, b_node, fields, on_node, set_cells, search_row_ptr,
  search_root, update,
}
use kndb.Btree.Lookup.{find_key, Sorted, Ordinary}
use kndb.Btree.Tree.{tree, cells_of, height}
use kndb.Btree.Search.{Place, root_of, lower_bound_le, search_row_ptr_lem}
use kndb.Btree.Shape.{plug}
use kndb.Btree.Vectors.{get_elem?-front, set-front}
use kndb.Btree.Writes.{
  KeepsTables, KeepsTables-refl, NodeRef, ref_of, Reads-Writes, Writes, >>=-Writes, pure-Writes,
  write_node, b_node-Writes, fields-Writes, on_node-Writes,
}
use kndb.Btree.Sound.{TreeOk, TreeOk-TreeAt}
use kndb.Btree.Split.{Stored}
use kndb.Btree.Depth.{height_lem}
use kndb.Btree.Replace.{replace_value, at_key, replace_value-All, replace_value-Sorted}
use kndb.Btree.Place.{approach}
use kndb.Btree.Halves.{expect-Writes, true-Writes, false-Writes}
use kndb.Btree.Insertion.{HasCells}
use kndb.Btree.Changed.{changed, changed-Stored, changed_cells}

module _ (os : Posix) (mem : Memory) (d : ℕ) (narrow : d ≤ 2 ^ 15) (key : Vari) (values : List Vari)
    (on : IsOrdinary key) where
  -- The rest of `update`.
  abbrev rest_code : RowPos → M (Client os Btree) Bool
  rest_code row = if row.cell_id == cellid_invalid then pure false else (do
    r ← b_node os mem row.page_id
    p ← fields os mem r
    c ← expect (get_elem? p.cells row.cell_id)
    on_node os mem r (set_cells os mem (set p.cells row.cell_id (record c { value = values })))
    pure true)

  rest_Writes :
      (v : View) (ids : List ℕ) (id r i : ℕ) (p : NodePage) (ls rs : List Cell) (c : Cell)
      → NodeRef v id r p
      → p.cells ≡ ls ++ c ∷ rs
      → length ls ≡ i
      → (i == cellid_invalid) ≡ false
      → Writes
          (rest_code (record { page_id = id; cell_id = i }))
          v
          (write_node v id r (record p { cells = ls ++ record c { value = values } ∷ rs }))
          ids
          true
  rest_Writes v ids id r i p ls rs c h cut size valid =
      let there : get_elem? p.cells i ≡ some c = rw (cut, ← size) (get_elem?-front ls rs c) in
      let put : set p.cells i (record c { value = values })
          ≡ ls ++ record c { value = values } ∷ rs =
        rw (cut, ← size) (set-front ls rs c (record c { value = values })) in
      let q = record p { cells = ls ++ record c { value = values } ∷ rs } in
      false-Writes _ _ _ valid (
        >>=-Writes _ (b_node-Writes h mem) (
          >>=-Writes _ (fields-Writes h mem) (
            expect-Writes _ there (
              >>=-Writes _
                (on_node-Writes h mem _ tt q (ap (λ cs. ok tt (record p { cells = cs })) put) h.own)
                (pure-Writes _ ids true)))))

  module _ (s : Client os Btree) (cells : List Cell) (h : HasCells d s cells) where
    run_all :
        (row : RowPos) (w : View) (b : Bool)
        → Writes (search_row_ptr os mem max_depth key (root_of h.whole)) h.view h.view h.ids row
        → Writes (rest_code row) h.view w h.ids b
        → (s' : Client os Btree) × (update os mem values key s ≡ ok b s')
          × IsOpen s'.pager w h.ids
          × (s'.self ≡ s.self)
    unfolding update search_root
    run_all row w b search rest =
        let (s1, r1, o1, e1) = (>>=-Writes rest_code search rest).run s h.opened in
        (
          s1,
          subst (λ i. (search_row_ptr os mem max_depth key i >>= rest_code) s ≡ ok b s1)
              (sym h.stored.root) r1,
          o1,
          e1,
        )

    low : height h.whole < max_depth
    low = height_lem s.pager h.view h.ids d h.whole h.opened h.stored.sound h.stored.once

    abbrev sorted_whole : Sorted (cells_of h.whole)
    sorted_whole = subst Sorted (sym h.holds) h.sorted

    abbrev keys_whole : Ordinary (cells_of h.whole)
    keys_whole = subst Ordinary (sym h.holds) h.ordinary

    -- The ends of `update`: false and nothing changed, or true and other values.
    abbrev pub UpdateEnds : Type 0
    UpdateEnds =
        ((find_key key cells ≡ none)
          × ((s' : Client os Btree) × (update os mem values key s ≡ ok false s')
              × (s'.self ≡ s.self)
              × (h' : HasCells d s' cells) × KeepsTables h.view h'.view))
        ⊎ ((c : Cell) × (s' : Client os Btree) × (find_key key cells ≡ some c)
            × (update os mem values key s ≡ ok true s')
            × (s'.self ≡ s.self)
            × (h' : HasCells d s' (replace_value key values cells)) × KeepsTables h.view h'.view)

    update_absent : find_key key (cells_of h.whole) ≡ none → UpdateEnds
    update_absent absent =
        let (row, reads, place) =
          search_row_ptr_lem os mem h.view h.ids key on max_depth h.whole (omega (arith, low))
            (TreeOk-TreeAt h.view d pgid_invalid true h.whole h.stored.sound) sorted_whole
            keys_whole in
        let invalid = nowhere h.view (find_key key (cells_of h.whole)) row absent place in
        let (s', run, o, same) =
          run_all row h.view false (Reads-Writes reads)
            (true-Writes _ _ _ invalid (pure-Writes h.view h.ids false)) in
        inl (
          ap (find_key key) (sym h.holds) ∙ absent,
          (
            s',
            run,
            same,
            record {
              view = h.view;
              ids = h.ids;
              whole = h.whole;
              opened = o;
              stored = subst (λ x. Stored h.view x d h.whole) (sym same) h.stored;
              holds = h.holds;
              sorted = h.sorted;
              ordinary = h.ordinary;
            },
            KeepsTables-refl h.view,
          ),
        )
      where
        nowhere :
            (v : View) (o : Option Cell) (row : RowPos)
            → o ≡ none
            → Place v o row
            → (row.cell_id == cellid_invalid) ≡ true
        nowhere v o row gone (inl (absent, invalid)) = ground (arith, invalid)
        nowhere v o row gone (inr (c, p, found, at, cell, valid)) =
            absurd (different c (sym found ∙ gone))
          where
            different : (c : Cell) → some c ≡ none → ⊥
            different c e = cc

    update_there : (c : Cell) → find_key key (cells_of h.whole) ≡ some c → UpdateEnds
    unfolding TreeOk plug
    update_there c there =
        let at =
          approach os mem h.view h.ids d key values on max_depth [] h.whole (omega (arith, low))
            h.stored.sound tt sorted_whole keys_whole c there (λ u more. more) in
        let (ls, rs, e, cut, size, lo, same_key) = at_key key values at.page.cells at.found in
        let node = ref_of (at.ok.0) in
        let valid : (lower_bound key at.page.cells == cellid_invalid) ≡ false =
          not_invalid (lower_bound key at.page.cells) (length at.page.cells)
            (lower_bound_le key at.page.cells) at.ok.1.fits.few in
        let w = write_node h.view at.id at.ok.0.object (
          changed os mem d narrow key values on h.view h.ids s.self h.whole h.stored at ls rs e
            cut) in
        let wrote =
          rest_Writes h.view h.ids at.id at.ok.0.object (lower_bound key at.page.cells) at.page ls
            rs e node cut size valid in
        let (s', run, o, same) = run_all _ w true (Reads-Writes at.run) wrote in
        let whole = plug at.frames (
          tree at.id
            (changed os mem d narrow key values on h.view h.ids s.self h.whole h.stored at ls rs e
              cut)
            at.kids) in
        let after =
          changed-Stored os mem d narrow key values on h.view h.ids s.self h.whole h.stored at ls rs
            e cut w at.ok.0.object refl node in
        inr (
          c,
          s',
          ap (find_key key) (sym h.holds) ∙ there,
          run,
          same,
          record {
            view = w;
            ids = h.ids;
            whole = whole;
            opened = o;
            stored = subst (λ x. Stored w x d whole) (sym same) after;
            holds =
                changed_cells os mem d narrow key values on h.view h.ids s.self h.whole h.stored at
                  ls rs e cut lo same_key
                ∙ ap (replace_value key values) h.holds;
            sorted = replace_value-Sorted key values cells h.sorted;
            ordinary = replace_value-All key values IsOrdinary cells h.ordinary;
          },
          wrote.tables,
        )
      where
        not_invalid : (i n : ℕ) → i ≤ n → n < cellid_invalid → (i == cellid_invalid) ≡ false
        not_invalid i n le few = ground (arith, le, few)

    -- With an order up to 2 ^ 15, on an open database that holds a tree, its nodes at different
    -- ids in use, each with the order, its parent's id and whether it is the root, with room for
    -- one more cell, a leaf without children or with one child more than its cells and as the
    -- code asserts, and with keys that are no NaN in order, update of a key that is no NaN
    -- returns false and keeps the cells of the tree if none of them has the key; if one has, it
    -- returns true, and the tree, in the same good order, has these cells with the given values
    -- in that one, by the reference definition of an update; in either case the pages of tables
    -- and schemas in use stay as they are.
    pub update_lem : UpdateEnds
    update_lem = elim (Option-cases (find_key key (cells_of h.whole))) [
      | inl absent ↦ update_absent absent
      | inr (c, there) ↦ update_there c there
    ]
