-- ===== src/Table/Changes.antt =====
-- `updateTuple` of src/backend/Table.cpp on the rows of a table.
use kndb.Base.{
  ℕ, suc, ◌^◌, ◌%◌, ◌≤◌, ◌≡◌, refl, sym, ap, ◌∙◌, true, false, List, [], ◌∷◌, none, some, ok,
  throws, runtime_error, zoom, inl, inr, ◌⊎◌, Bool-cases, length,
}
use kndb.Posix.{Posix}
use kndb.Vari.{Vari}
use kndb.Vari.Codec.{Memory}
use kndb.Vari.Order.{equal}
use kndb.Vari.Order.Laws.{IsOrdinary}
use kndb.NodePage.{Cell}
use kndb.Pager.Client.{Client, on_part}
use kndb.Btree.Lookup.{find_key}
use kndb.Btree.Replace.{replace_value}
use kndb.Btree.Update.{update_lem}
use kndb.Table.{Table, update_tuple}
use kndb.Table.Pages.{fits_columns, check_tuple_run}
use kndb.Table.Rows.{tree_of, with_tree, HasRows, checked_HasRows, kept_page}

length-replace_value :
    (key : Vari) (values : List Vari) (cs : List Cell)
    → length (replace_value key values cs) ≡ length cs
unfolding replace_value
length-replace_value key values [] = refl
length-replace_value key values (c ∷ cs) = elim (Bool-cases (equal key c.key)) [
  | inl y ↦ rw y refl
  | inr n ↦ rw n (ap suc (length-replace_value key values cs))
]

module _ (os : Posix) (mem : Memory) (d : ℕ) (narrow : d ≤ 2 ^ 15) where
  -- The ends of `updateTuple`.
  abbrev pub UpdateTupleEnds : Client os Table → List Vari → List Cell → Vari → List Vari → Type 0
  UpdateTupleEnds s types cells key rest =
      ((fits_columns (key ∷ rest) types ≡ false)
        × ((s' : Client os Table) × (update_tuple os mem (key ∷ rest) s ≡ throws runtime_error s')
            × HasRows d s' types cells))
      ⊎ ((fits_columns (key ∷ rest) types ≡ true)
          × (((find_key key cells ≡ none)
                × ((s' : Client os Table) × (update_tuple os mem (key ∷ rest) s ≡ ok false s')
                    × HasRows d s' types cells))
              ⊎ ((c : Cell) × (s' : Client os Table) × (find_key key cells ≡ some c)
                  × (update_tuple os mem (key ∷ rest) s ≡ ok true s')
                  × HasRows d s' types (replace_value key (key ∷ rest) cells))))

  -- On an open database that holds a table, with a page in use that has its columns, the root of
  -- its tree and the count of its rows modulo 2 ^ 64, and a tree with one cell for each row, of
  -- an order up to 2 ^ 15, its nodes at different ids in use, each with the order, its parent's
  -- id and whether it is the root, with room for one more cell, a leaf without children or with
  -- one child more than its cells and as the code asserts, and with keys that are no NaN in
  -- order, updateTuple of one or more values, the first no NaN, throws and keeps the rows if they
  -- are not as many as the columns and of their types; if they are, it returns false and keeps
  -- the rows if none has the first value as its key, and if one has, it returns true, and the
  -- table, in the same good order, has the rows with these values in that one.
  pub update_tuple_lem :
      (s : Client os Table) (types : List Vari) (cells : List Cell) (key : Vari) (rest : List Vari)
      → IsOrdinary key
      → HasRows d s types cells
      → UpdateTupleEnds s types cells key rest
  unfolding update_tuple
  update_tuple_lem s types cells key rest on h =
      let values = key ∷ rest in
      let (s1, checked, o1, e1) =
        check_tuple_run os mem h.tree.view h.tree.ids values h.page s h.at h.tree.opened in
      let h1 = checked_HasRows os mem d s s1 types cells h o1 e1 in
      elim (Bool-cases (fits_columns values types)) [
        | inr n ↦ inl (n, (s1, rw (checked, h.columns, n) refl, h1))
        | inl y ↦ inr (
          y,
          elim (update_lem os mem d narrow key values on (tree_of s1) cells h1.tree) [
            | inl (absent, (b, ran, self, h2, tables)) ↦ inl (
              absent,
              (
                with_tree os mem s1 b,
                rw (checked, h.columns, y) (rw (on_part, zoom, ran) refl),
                record {
                  tree = h2;
                  page = h1.page;
                  at = kept_page tables h1.at;
                  columns = h1.columns;
                  root = h1.root ∙ ap (λ x. x.root_page_id) (sym self);
                  counted = h1.counted;
                },
              ),
            )
            | inr (c, b, there, ran, self, h2, tables) ↦ inr (
              c,
              with_tree os mem s1 b,
              there,
              rw (checked, h.columns, y) (rw (on_part, zoom, ran) refl),
              record {
                tree = h2;
                page = h1.page;
                at = kept_page tables h1.at;
                columns = h1.columns;
                root = h1.root ∙ ap (λ x. x.root_page_id) (sym self);
                counted =
                    h1.counted ∙ ap (λ n. n % 2 ^ 64) (sym (length-replace_value key values cells));
              },
            )
          ],
        )
      ]
