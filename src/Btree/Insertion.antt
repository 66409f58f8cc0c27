-- ===== src/Btree/Insertion.antt =====
-- `insert` of src/backend/Btree.tpp against the reference definition of an insertion, and a search after it.
use kndb.Base.{
  ℕ, ◌^◌, ◌<◌, ◌≤◌, ◌≡◌, refl, sym, ap, subst, ◌∙◌, true, false, List, [], Option, none, some, M,
  ok, throws, runtime_error, ◌>>=◌, if◌then◌else◌, arith, ◌==◌, inl, inr, ◌⊎◌, Option-cases,
}
use kndb.Constants.{pgid_invalid, cellid_invalid}
use kndb.Posix.{Posix, PosixLaws}
use kndb.Vari.{Vari}
use kndb.Vari.Codec.{Memory}
use kndb.Vari.Order.{equal}
use kndb.Vari.Order.Laws.{IsOrdinary}
use kndb.NodePage.{Cell}
use kndb.Cache.Steps.{View}
use kndb.Pager.Client.{Client}
use kndb.Pager.Invariant.{IsOpen}
use kndb.Btree.{Btree, RowPos, max_depth, insert, search}
use kndb.Btree.Lookup.{find_key, Sorted, Ordinary}
use kndb.Btree.Tree.{Tree, cells_of}
use kndb.Btree.Search.{Place, value_of, search_row_ptr_lem, search_lem}
use kndb.Btree.Shape.{plug}
use kndb.Btree.Order.{insert_cell}
use kndb.Btree.OrderKept.{insert_cell-Sorted, insert_cell-Ordinary, find_key-insert_cell}
use kndb.Btree.Writes.{KeepsTables, KeepsTables-refl, Reads-Writes}
use kndb.Btree.Sound.{TreeOk-TreeAt}
use kndb.Btree.Depth.{height_lem}
use kndb.Btree.Descent.{descent}
use kndb.Btree.Split.{Stored}
use kndb.Btree.Insert.{insert_absent, insert_present}

-- An open database that holds a tree with a given order and with these cells, in the order of their keys.
pub record HasCells {os : Posix} (d : ℕ) (s : Client os Btree) (cells : List Cell) : Type 0 where
  pub view : View
  pub ids : List ℕ
  pub whole : Tree
  pub opened : IsOpen s.pager view ids
  pub stored : Stored view s.self d whole
  pub holds : cells_of whole ≡ cells
  pub sorted : Sorted cells
  pub ordinary : Ordinary cells

module _ (os : Posix) (mem : Memory) (laws : PosixLaws os) (d : ℕ) (two : 2 ≤ d)
    (narrow : d ≤ 2 ^ 15) where
  -- The key is there and nothing changes, or it is not and there is one cell more, or no page can be made.
  abbrev pub InsertEnds :
      (s : Client os Btree) (cells : List Cell) → Cell → HasCells d s cells → Type 0
  InsertEnds s cells new h =
      ((c : Cell) × (s' : Client os Btree) × (find_key new.key cells ≡ some c)
        × (insert os mem new.value new.key s ≡ ok false s')
        × (s'.self ≡ s.self)
        × (h' : HasCells d s' cells) × KeepsTables h.view h'.view)
      ⊎ ((find_key new.key cells ≡ none)
          × (((s' : Client os Btree) × (insert os mem new.value new.key s ≡ ok true s')
                × (h' : HasCells d s' (insert_cell new cells)) × KeepsTables h.view h'.view)
              ⊎ ((s' : Client os Btree) × (insert os mem new.value new.key s
                    ≡ throws runtime_error s'))))

  is_valid : (i : ℕ) → i < cellid_invalid → (i == cellid_invalid) ≡ false
  is_valid i valid = ground (arith, valid)

  valid_lem :
      (v : View) (o : Option Cell) (c : Cell) (row : RowPos)
      → o ≡ some c
      → Place v o row
      → (row.cell_id == cellid_invalid) ≡ false
  valid_lem v o c row there (inl (absent, invalid)) = absurd (different (sym there ∙ absent))
    where
      different : some c ≡ none → ⊥
      different e = cc
  valid_lem v o c row there (inr (c', p, found, at, cell, valid)) = is_valid row.cell_id valid

  insert_there :
      (s : Client os Btree) (cells : List Cell) (new : Cell) (c : Cell)
      → IsOrdinary new.key
      → (h : HasCells d s cells) → find_key new.key (cells_of h.whole) ≡ some c
      → InsertEnds s cells new h
  insert_there s cells new c on h there =
      let low = height_lem s.pager h.view h.ids d h.whole h.opened h.stored.sound h.stored.once in
      let (row, reads, place) =
        search_row_ptr_lem os mem h.view h.ids new.key on max_depth h.whole (omega (arith, low))
          (TreeOk-TreeAt h.view d pgid_invalid true h.whole h.stored.sound)
          (subst Sorted (sym h.holds) h.sorted) (subst Ordinary (sym h.holds) h.ordinary) in
      let valid = valid_lem h.view (find_key new.key (cells_of h.whole)) c row there place in
      let (s', run, o, same) =
        insert_present os mem laws d two narrow h.view h.ids new on h.whole s.self h.stored s row
          h.opened refl valid (Reads-Writes reads) in
      inl (
        c,
        s',
        ap (find_key new.key) (sym h.holds) ∙ there,
        run,
        same,
        record {
          view = h.view;
          ids = h.ids;
          whole = h.whole;
          opened = o;
          stored = subst (λ x. Stored h.view x d h.whole) (sym same) h.stored;
          holds = h.holds;
          sorted = h.sorted;
          ordinary = h.ordinary;
        },
        KeepsTables-refl h.view,
      )

  insert_new :
      (s : Client os Btree) (cells : List Cell) (new : Cell)
      → IsOrdinary new.key
      → (h : HasCells d s cells) → find_key new.key (cells_of h.whole) ≡ none
      → InsertEnds s cells new h
  unfolding plug
  insert_new s cells new on h absent =
      let low = height_lem s.pager h.view h.ids d h.whole h.opened h.stored.sound h.stored.once in
      let at =
        descent os mem h.view h.ids d new on max_depth [] h.whole (omega (arith, low))
          h.stored.sound tt (subst Sorted (sym h.holds) h.sorted)
          (subst Ordinary (sym h.holds) h.ordinary) absent (λ u more. more) in
      let not_there = ap (find_key new.key) (sym h.holds) ∙ absent in
      elim ((insert_absent os mem laws d two narrow h.view h.ids new on h.whole s.self h.stored at
          low).run
        s h.opened refl) [
          | inl (b, s', w, list, run, o, tables, (told, (whole, stored, holds))) ↦ inr (
            not_there,
            inl (
              s',
              subst (λ x. insert os mem new.value new.key s ≡ ok x s') told run,
              record {
                view = w;
                ids = list;
                whole = whole;
                opened = o;
                stored = stored;
                holds = holds ∙ ap (insert_cell new) h.holds;
                sorted = insert_cell-Sorted new on cells h.sorted h.ordinary not_there;
                ordinary = insert_cell-Ordinary new on cells h.ordinary;
              },
              tables,
            ),
          )
          | inr stopped ↦ inr (not_there, inr stopped)
        ]

  -- With an order from 2 to 2 ^ 15, on an open database that holds a tree, its nodes at different
  -- ids in use, each with the order, its parent's id and whether it is the root, with room for
  -- one more cell, a leaf without children or with one child more than its cells and as the code
  -- asserts, and with keys that are no NaN in order, insert of a key that is no NaN returns false
  -- and keeps the cells of the tree if one of them has the key; if not, it returns true, and the
  -- tree, in the same good order, has these cells and the new one in its place by the reference
  -- definition of an insertion, whatever nodes are split, and the pages of tables and schemas in
  -- use stay as they are, or it throws.
  pub insert_lem :
      (s : Client os Btree) (cells : List Cell) (new : Cell)
      → IsOrdinary new.key
      → (h : HasCells d s cells) → InsertEnds s cells new h
  insert_lem s cells new on h = elim (Option-cases (find_key new.key (cells_of h.whole))) [
    | inl absent ↦ insert_new s cells new on h absent
    | inr (c, there) ↦ insert_there s cells new c on h there
  ]

  search-HasCells :
      (s : Client os Btree) (cells : List Cell) (key : Vari)
      → IsOrdinary key
      → HasCells d s cells
      → (s' : Client os Btree) × (search os mem key s ≡ ok (value_of (find_key key cells)) s')
        × HasCells d s' cells
  search-HasCells s cells key on h =
      let low = height_lem s.pager h.view h.ids d h.whole h.opened h.stored.sound h.stored.once in
      let (s', found, o, same) =
        search_lem os mem h.view h.ids key on h.whole (omega (arith, low))
          (TreeOk-TreeAt h.view d pgid_invalid true h.whole h.stored.sound)
          (subst Sorted (sym h.holds) h.sorted) (subst Ordinary (sym h.holds) h.ordinary) s h.opened
          h.stored.root in
      (
        s',
        subst (λ cs. search os mem key s ≡ ok (value_of (find_key key cs)) s') h.holds found,
        record {
          view = h.view;
          ids = h.ids;
          whole = h.whole;
          opened = o;
          stored = subst (λ x. Stored h.view x d h.whole) (sym same) h.stored;
          holds = h.holds;
          sorted = h.sorted;
          ordinary = h.ordinary;
        },
      )

  abbrev insert_search : Cell → Vari → M (Client os Btree) (Option (List Vari))
  insert_search new key = insert os mem new.value new.key >>= λ b. search os mem key

  -- What a search finds after an insertion.
  abbrev pub InsertSearchEnds : Client os Btree → List Cell → Cell → Vari → Type 0
  InsertSearchEnds s cells new key =
      ((c : Cell) × (s' : Client os Btree) × (find_key new.key cells ≡ some c)
        × (insert_search new key s ≡ ok (value_of (find_key key cells)) s')
        × HasCells d s' cells)
      ⊎ ((find_key new.key cells ≡ none)
          × (((s' : Client os Btree) × (insert_search new key s
                  ≡ ok (value_of (if equal key new.key then some new else find_key key cells)) s')
                × HasCells d s' (insert_cell new cells))
              ⊎ ((s' : Client os Btree) × (insert_search new key s ≡ throws runtime_error s'))))

  -- With an order from 2 to 2 ^ 15, on an open database that holds a tree, its nodes at different
  -- ids in use, each with the order, its parent's id and whether it is the root, with room for
  -- one more cell, a leaf without children or with one child more than its cells and as the code
  -- asserts, and with keys that are no NaN in order, search of a key that is no NaN, after insert
  -- of such a key, returns what the reference definition of a search finds among the cells that
  -- the tree had if the inserted key was there; if it was not, search returns the inserted values
  -- for an equal key, and what was found before for another, and the tree has the cells with the
  -- new one in its place, or insert throws.
  pub insert_search_lem :
      (s : Client os Btree) (cells : List Cell) (new : Cell) (key : Vari)
      → IsOrdinary new.key
      → IsOrdinary key
      → HasCells d s cells
      → InsertSearchEnds s cells new key
  insert_search_lem s cells new key on ok_key h = elim (insert_lem s cells new on h) [
    | inl (c, s1, there, ran, self, h1, tables) ↦
        let (s2, found, h2) = search-HasCells s1 cells key ok_key h1 in
        inl (c, s2, there, rw (ran, found), h2)
    | inr (absent, inl (s1, ran, h1, tables)) ↦
        let (s2, found, h2) = search-HasCells s1 (insert_cell new cells) key ok_key h1 in
        let cell = find_key-insert_cell new on key cells ok_key h.ordinary absent in
        inr (absent, inl (s2, rw ran (found ∙ ap (λ o. ok (value_of o) s2) cell), h2))
    | inr (absent, inr (s1, ran)) ↦ inr (absent, inr (s1, rw ran refl))
  ]
