-- ===== src/Table/Rows.antt =====
-- The rows of a table of src/backend/Table.cpp, and their count and the root on its page.
use kndb.Base.{
  ℕ, suc, ◌+◌, ◌%◌, ◌^◌, ◌≡◌, refl, sym, ap, subst, ◌∙◌, List, [], ◌∷◌, M, ◌>>◌, ok, zoom, ◌==◌,
  inl, inr, Bool-cases, arith, length, ==_iff,
}
use kndb.Posix.{Posix}
use kndb.Vari.{Vari}
use kndb.Vari.Codec.{Memory}
use kndb.Vari.Order.{less}
use kndb.NodePage.{Cell}
use kndb.TablePage.{TablePage, add_tuple, set_btree_page_id}
use kndb.Cache.Steps.{View}
use kndb.Pager.Client.{Client, on_pager}
use kndb.Pager.Invariant.{IsOpen}
use kndb.Btree.{Btree, get_root_page}
use kndb.Btree.Order.{insert_cell}
use kndb.Btree.Writes.{KeepsTables, is_other}
use kndb.Btree.Split.{Stored}
use kndb.Btree.Insertion.{HasCells}
use kndb.Table.{Table, t_page, note_root}
use kndb.Table.Read.{TablePageAt}
use kndb.Table.Pages.{write_table, written_table, table_Stored, with_table_page-write}

-- The tree of a table, as an object of its own.
abbrev pub tree_of : {os : Posix} → Client os Table → Client os Btree
tree_of s = record { pager = s.pager; self = s.self.btree }

-- An open database that holds the table, its tree with one cell for each row, and its page with the columns, the root and the
-- count of the rows.
pub record HasRows {os : Posix} (d : ℕ) (s : Client os Table) (types : List Vari)
    (cells : List Cell) : Type 0 where
  pub tree : HasCells d (tree_of s) cells
  pub page : TablePage
  pub at : TablePageAt tree.view s.self.table_page_id page
  pub columns : page.types ≡ types
  pub root : page.btree_page_id ≡ s.self.btree.root_page_id
  pub counted : page.num_tuples ≡ length cells % 2 ^ 64

length-insert_cell : (new : Cell) (cs : List Cell) → length (insert_cell new cs) ≡ suc (length cs)
unfolding insert_cell
length-insert_cell new [] = refl
length-insert_cell new (x ∷ xs) = elim (Bool-cases (less x.key new.key)) [
  | inl l ↦ rw l (ap suc (length-insert_cell new xs))
  | inr n ↦ rw n refl
]

one_more :
    (new : Cell) (cs : List Cell) (n : ℕ)
    → n ≡ length cs % 2 ^ 64
    → (n + 1) % 2 ^ 64 ≡ length (insert_cell new cs) % 2 ^ 64
one_more new cs n e = rw (e, length-insert_cell new cs) (ground arith)

pub kept_page :
    {v w : View} {id : ℕ} {p : TablePage}
    → KeepsTables v w
    → TablePageAt v id p
    → TablePageAt w id p
kept_page {id = id} k h =
    let s = k.tables id (ap is_other h.shown) h.used in
    record { object = h.object; shown = s.shown ∙ h.shown; own = h.own; used = s.free ∙ h.used }

module _ (os : Posix) (mem : Memory) where
  -- A write of the table's page.
  write_page_run :
      (d : ℕ) (s : Client os Table) (cells : List Cell) (p q : TablePage)
      (m : M TablePage (Unit {0}))
      → (h : HasCells d (tree_of s) cells) → TablePageAt h.view s.self.table_page_id p
      → m p ≡ ok tt q
      → q.page_id ≡ p.page_id
      → (s' : Client os Table) × (t_page os mem m s ≡ ok tt s')
        × (s'.self ≡ s.self)
        × (h' : HasCells d (tree_of s') cells) × TablePageAt h'.view s'.self.table_page_id q
  unfolding t_page
  write_page_run d s cells p q m h at run same =
      let own = same ∙ at.own in
      let (c, ran, o) = with_table_page-write at q mem m tt h.ids s.pager run own h.opened in
      (
        record s { pager = c },
        rw (on_pager, zoom, ran) refl,
        refl,
        record {
          view = write_table h.view s.self.table_page_id at.object q;
          ids = h.ids;
          whole = h.whole;
          opened = o;
          stored = table_Stored at q s.self.btree d h.whole h.stored;
          holds = h.holds;
          sorted = h.sorted;
          ordinary = h.ordinary;
        },
        written_table at q own,
      )

  -- The same table, when the pages are as they were.
  pub checked_HasRows :
      (d : ℕ) (s s' : Client os Table) (types : List Vari) (cells : List Cell)
      → (h : HasRows d s types cells) → IsOpen s'.pager h.tree.view h.tree.ids
      → s'.self ≡ s.self
      → HasRows d s' types cells
  checked_HasRows d s s' types cells h o e = record {
    tree = record {
      view = h.tree.view;
      ids = h.tree.ids;
      whole = h.tree.whole;
      opened = o;
      stored = subst (λ x. Stored h.tree.view x.btree d h.tree.whole) (sym e) h.tree.stored;
      holds = h.tree.holds;
      sorted = h.tree.sorted;
      ordinary = h.tree.ordinary;
    };
    page = h.page;
    at = subst (λ x. TablePageAt h.tree.view x.table_page_id h.page) (sym e) h.at;
    columns = h.columns;
    root = h.root ∙ ap (λ x. x.btree.root_page_id) (sym e);
    counted = h.counted;
  }

  -- The root of the tree is on the page afterwards.
  note_root_run :
      (d : ℕ) (s : Client os Table) (cells : List Cell) (p : TablePage)
      → (h : HasCells d (tree_of s) cells) → TablePageAt h.view s.self.table_page_id p
      → (s' : Client os Table) × (q : TablePage) × (note_root os mem p.btree_page_id s ≡ ok tt s')
        × (s'.self ≡ s.self)
        × (q.btree_page_id ≡ s.self.btree.root_page_id)
        × (q.types ≡ p.types)
        × (q.num_tuples ≡ p.num_tuples)
        × (h' : HasCells d (tree_of s') cells) × TablePageAt h'.view s'.self.table_page_id q
  unfolding note_root get_root_page set_btree_page_id
  note_root_run d s cells p h at =
      elim (Bool-cases (s.self.btree.root_page_id == p.btree_page_id)) [
        | inl same ↦ (
          s,
          p,
          rw same refl,
          refl,
          sym ((==_iff s.self.btree.root_page_id p.btree_page_id).0 same),
          refl,
          refl,
          h,
          at,
        )
        | inr other ↦
            let q = record p { btree_page_id = s.self.btree.root_page_id } in
            let (s', ran, self, h', at') =
              write_page_run d s cells p q (set_btree_page_id (s.self.btree.root_page_id)) h at refl
                refl in
            (s', q, rw (other) ran, self, refl, refl, refl, h', at')
      ]

  -- What the code does when the tree has the new cell: one row more, and the root.
  pub count_row :
      (d : ℕ) (s : Client os Table) (types : List Vari) (cells : List Cell) (new : Cell)
      (p : TablePage)
      → (h : HasCells d (tree_of s) (insert_cell new cells))
      → TablePageAt h.view s.self.table_page_id p
      → p.types ≡ types
      → p.num_tuples ≡ length cells % 2 ^ 64
      → (s' : Client os Table) × ((t_page os mem add_tuple >> note_root os mem p.btree_page_id) s
          ≡ ok tt s')
        × HasRows d s' types (insert_cell new cells)
  unfolding add_tuple
  count_row d s types cells new p h at columns counted =
      let q = record p { num_tuples = (p.num_tuples + 1) % 2 ^ 64 } in
      let (s1, ran1, self1, h1, at1) =
        write_page_run d s (insert_cell new cells) p q add_tuple h at refl refl in
      let (s2, q2, ran2, self2, root2, types2, count2, h2, at2) =
        note_root_run d s1 (insert_cell new cells) q h1 at1 in
      (
        s2,
        rw (ran1, ran2) refl,
        record {
          tree = h2;
          page = q2;
          at = at2;
          columns = types2 ∙ columns;
          root = root2 ∙ ap (λ x. x.btree.root_page_id) (sym self2);
          counted = count2 ∙ one_more new cells p.num_tuples counted;
        },
      )

  abbrev pub with_tree : Client os Table → Client os Btree → Client os Table
  with_tree s b = record { pager = b.pager; self = record s.self { btree = b.self } }
