-- ===== src/Table/Inserts.antt =====
-- `insertTuple` of src/backend/Table.cpp against the reference definition of an insertion.
use kndb.Base.{
  ℕ, ◌^◌, ◌≤◌, ◌≡◌, refl, sym, ap, subst, ◌∙◌, true, false, List, ◌∷◌, none, some, ◌>>◌, ok, throws,
  runtime_error, zoom, inl, inr, ◌⊎◌, Bool-cases,
}
use kndb.Posix.{Posix, PosixLaws}
use kndb.Vari.{Vari}
use kndb.Vari.Codec.{Memory}
use kndb.Vari.Order.Laws.{IsOrdinary}
use kndb.NodePage.{Cell}
use kndb.TablePage.{add_tuple}
use kndb.Pager.Client.{Client, on_part}
use kndb.Btree.{get_root_page}
use kndb.Btree.Lookup.{find_key}
use kndb.Btree.Order.{insert_cell}
use kndb.Btree.Insertion.{insert_lem}
use kndb.Table.{Table, t_page, note_root, insert_tuple}
use kndb.Table.Pages.{fits_columns, check_tuple_run}
use kndb.Table.Rows.{tree_of, with_tree, HasRows, checked_HasRows, kept_page, count_row}

module _ (os : Posix) (mem : Memory) where
  module _ (laws : PosixLaws os) (d : ℕ) (two : 2 ≤ d) (narrow : d ≤ 2 ^ 15) where
    -- The ends of `insertTuple`.
    abbrev pub InsertTupleEnds : Client os Table → List Vari → List Cell → Vari → List Vari → Type 0
    InsertTupleEnds s types cells key rest =
        ((fits_columns (key ∷ rest) types ≡ false)
          × ((s' : Client os Table) × (insert_tuple os mem (key ∷ rest) s ≡ throws runtime_error s')
              × HasRows d s' types cells))
        ⊎ ((fits_columns (key ∷ rest) types ≡ true)
            × (((c : Cell) × (s' : Client os Table) × (find_key key cells ≡ some c)
                  × (insert_tuple os mem (key ∷ rest) s ≡ ok false s')
                  × HasRows d s' types cells)
                ⊎ ((find_key key cells ≡ none)
                    × (((s' : Client os Table) × (insert_tuple os mem (key ∷ rest) s ≡ ok true s')
                          × HasRows d s' types
                              (insert_cell (record { key = key; value = key ∷ rest }) cells))
                        ⊎ ((s' : Client os Table) × (insert_tuple os mem (key ∷ rest) s
                              ≡ throws runtime_error s'))))))

    -- On an open database that holds a table, with a page in use that has its columns, the root
    -- of its tree and the count of its rows modulo 2 ^ 64, and a tree with one cell for each row,
    -- of an order from 2 to 2 ^ 15, its nodes at different ids in use, each with the order, its
    -- parent's id and whether it is the root, with room for one more cell, a leaf without
    -- children or with one child more than its cells and as the code asserts, and with keys that
    -- are no NaN in order, insertTuple of one or more values, the first no NaN, throws and keeps
    -- the rows if they are not as many as the columns and of their types; if they are, it returns
    -- false and keeps the rows if one has the first value as its key, and if none has, it returns
    -- true, and the table, in the same good order, the page included, has the rows and the new
    -- one in its place, or it throws.
    pub insert_tuple_lem :
        (s : Client os Table) (types : List Vari) (cells : List Cell) (key : Vari)
        (rest : List Vari)
        → IsOrdinary key
        → HasRows d s types cells
        → InsertTupleEnds s types cells key rest
    unfolding insert_tuple get_root_page
    insert_tuple_lem s types cells key rest on h =
        let new : Cell = record { key = key; value = key ∷ rest } in
        let (s1, checked, o1, e1) =
          check_tuple_run os mem h.tree.view h.tree.ids (key ∷ rest) h.page s h.at h.tree.opened in
        let h1 = checked_HasRows os mem d s s1 types cells h o1 e1 in
        elim (Bool-cases (fits_columns (key ∷ rest) types)) [
          | inr n ↦ inl (n, (s1, rw (checked, h.columns, n) refl, h1))
          | inl y ↦ inr (
            y,
            elim (insert_lem os mem laws d two narrow (tree_of s1) cells new on h1.tree) [
              | inl (c, b, there, ran, self, h2, tables) ↦ inl (
                c,
                with_tree os mem s1 b,
                there,
                rw (checked, h.columns, y) (rw (on_part, zoom, ran) refl),
                record {
                  tree = h2;
                  page = h1.page;
                  at = kept_page tables h1.at;
                  columns = h1.columns;
                  root = h1.root ∙ ap (λ x. x.root_page_id) (sym self);
                  counted = h1.counted;
                },
              )
              | inr (absent, inl (b, ran, h2, tables)) ↦
                  let (s2, counts, h3) =
                    count_row os mem d (with_tree os mem s1 b) types cells new h1.page h2
                      (kept_page tables h1.at) h1.columns h1.counted in
                  let counts' =
                    subst
                      (λ i.
                        (t_page os mem add_tuple >> note_root os mem i) (with_tree os mem s1 b)
                        ≡ ok tt s2)
                      h1.root counts in
                  inr (
                    absent,
                    inl (
                      s2,
                      rw (checked, h.columns, y) (rw (on_part, zoom, ran, counts') refl),
                      h3,
                    ),
                  )
              | inr (absent, inr (b, ran)) ↦ inr (
                absent,
                inr (
                  with_tree os mem s1 b,
                  rw (checked, h.columns, y) (rw (on_part, zoom, ran) refl),
                ),
              )
            ],
          )
        ]
