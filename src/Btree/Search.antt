-- ===== src/Btree/Search.antt =====
-- `searchRowPtr` and `search` of src/backend/Btree.tpp on a whole tree.
use kndb.Base.{
  ℕ, zero, suc, ◌+◌, ◌<◌, ◌≤◌, ◌≡◌, refl, sym, ap, subst, ◌∙◌, true, false, List, [], ◌∷◌, Option,
  none, some, M, ok, pure, expect, ◌>>=◌, ◌==◌, if◌then◌else◌, length, get_elem?, get_elem?-some-lt,
  arith, inl, inr, ◌⊎◌, Bool-cases, Option-cases,
}
use kndb.Constants.{cellid_invalid}
use kndb.Posix.{Posix}
use kndb.Vari.{Vari}
use kndb.Vari.Codec.{Memory}
use kndb.Vari.Order.Laws.{IsOrdinary}
use kndb.NodePage.{Cell, NodePage, well_shaped}
use kndb.Cache.Steps.{View}
use kndb.Pager.Client.{Client}
use kndb.Pager.Invariant.{IsOpen}
use kndb.Btree.{
  b_node, fields, Btree, RowPos, max_depth, lower_bound, is_key, descend, search_row_ptr,
  search_root, search,
}
use kndb.Btree.Lookup.{find_key, Sorted, Ordinary}
use kndb.Btree.Tree.{
  Tree, tree, Forest, none_left, child, cells_of, child_at, count, below, find_key-weave,
  child_at-ordered, height, heights,
}
use kndb.Btree.Reads.{
  NodeAt, Reads, >>=-Reads, pure-Reads, assume-Reads, b_node-Reads, fields-Reads,
}

abbrev pub root_of : Tree → ℕ
root_of (tree id p kids) = id

abbrev pub roots_of : Forest → List ℕ
roots_of none_left = []
roots_of (child t kids) = root_of t ∷ roots_of kids

-- A node with its children: a leaf has none, an inner node one more than it has cells.
pub record Fits (p : NodePage) (kids : Forest) : Type 0 where
  pub shaped : well_shaped p ≡ true
  pub children : p.children ≡ roots_of kids
  pub leaf : p.leaf ≡ true → kids ≡ none_left
  pub inner : p.leaf ≡ false → count kids ≡ length p.cells + 1
  pub few : length p.cells < cellid_invalid

-- The cache shows all nodes of a tree.
unfoldable mutual
  pub TreeAt : View → Tree → Type 0
  TreeAt v (tree id p kids) = NodeAt v id p × Fits p kids × ForestAt v kids

  pub ForestAt : View → Forest → Type 0
  ForestAt v none_left = Unit
  ForestAt v (child t kids) = TreeAt v t × ForestAt v kids

child_lem :
    (v : View) (kids : Forest) (i : ℕ)
    → i < count kids
    → ForestAt v kids
    → (t : Tree) × (child_at kids i ≡ some t)
      × (get_elem? (roots_of kids) i ≡ some (root_of t))
      × TreeAt v t
      × (height t ≤ heights kids)
unfolding child_at count ForestAt heights
child_lem v none_left i lt h = absurd (omega arith)
child_lem v (child t kids) zero lt h = (t, refl, refl, h.0, omega arith)
child_lem v (child t kids) (suc i) lt h =
    let (r, at, root, shown, low) = child_lem v kids i (omega arith) h.1 in
    (r, at, root, shown, omega arith)

pub lower_bound_le : (key : Vari) (cs : List Cell) → lower_bound key cs ≤ length cs
unfolding lower_bound
lower_bound_le key [] = omega arith
lower_bound_le key (c ∷ cs) = ground (arith, lower_bound_le key cs)

-- Where a cell is: at no place, or in a node that the cache shows.
abbrev pub Place : View → Option Cell → RowPos → Type 0
Place v o row =
    ((o ≡ none) × (row.cell_id ≡ cellid_invalid))
    ⊎ ((c : Cell) × (p : NodePage) × (o ≡ some c)
        × NodeAt v row.page_id p
        × (get_elem? p.cells row.cell_id ≡ some c)
        × (row.cell_id < cellid_invalid))

pub below_leaf :
    (key : Vari) (kids : Forest) (i : ℕ) → kids ≡ none_left → find_key key (below kids i) ≡ none
unfolding below child_at find_key
below_leaf key kids i e = rw e

pub below_at :
    (kids : Forest) (i : ℕ) (t : Tree) → child_at kids i ≡ some t → below kids i ≡ cells_of t
unfolding below
below_at kids i t e = rw (below, e)

abbrev pub value_of : Option Cell → Option (List Vari)
value_of none = none
value_of (some c) = some c.value

module _ (os : Posix) (mem : Memory) (v : View) (ids : List ℕ) (key : Vari)
    (ordinary : IsOrdinary key) where
  -- What `searchRowPtr` does on a tree.
  abbrev pub Finds : ℕ → Tree → Type 0
  Finds fuel t =
      (row : RowPos) × Reads (search_row_ptr os mem fuel key (root_of t)) v ids row
      × Place v (find_key key (cells_of t)) row

  pub no_key : (o : Option Cell) → o ≡ none → is_key key o ≡ true → ⊥
  unfolding is_key
  no_key none e h = cc
  no_key (some c) e h = cc

  pub visit :
      (fuel id : ℕ) (p : NodePage) (row : RowPos)
      → NodeAt v id p
      → well_shaped p ≡ true
      → Reads
          (if is_key key (get_elem? p.cells (lower_bound key p.cells))
            then pure (record { page_id = id; cell_id = lower_bound key p.cells })
            else descend os mem (search_row_ptr os mem fuel) key p id)
          v
          ids
          row
      → Reads (search_row_ptr os mem (suc fuel) key id) v ids row
  unfolding search_row_ptr
  visit fuel id p row at shaped rest = >>=-Reads _ (b_node-Reads os mem v ids id p at) (
      >>=-Reads _ (fields-Reads os mem v ids id p at)
        (>>=-Reads _ (assume-Reads v ids _ shaped) rest))

  pub descend_leaf :
      (fuel id : ℕ) (p : NodePage)
      → p.leaf ≡ true
      → Reads
          (descend os mem (search_row_ptr os mem fuel) key p id)
          v
          ids
          (record { page_id = id; cell_id = cellid_invalid })
  unfolding descend
  descend_leaf fuel id p leaf = rw leaf (pure-Reads v ids _)

  pub descend_inner :
      (fuel id next : ℕ) (p : NodePage) (row : RowPos)
      → p.leaf ≡ false
      → get_elem? p.children (lower_bound key p.cells) ≡ some next
      → Reads (search_row_ptr os mem fuel key next) v ids row
      → Reads (descend os mem (search_row_ptr os mem fuel) key p id) v ids row
  unfolding descend
  descend_inner fuel id next p row inner there run =
      rw (inner, there) (>>=-Reads (search_row_ptr os mem fuel key) (pure-Reads v ids next) run)

  -- With as much fuel as a tree is high, or more, searchRowPtr of a key that is no NaN ends on
  -- every open database of which the cache shows the tree, its nodes in use, each a leaf
  -- without children or with one child more than its cells, fewer than 2 ^ 32 - 1, and as the
  -- code asserts, with keys that are no NaN in order; it returns the place, in a node that the
  -- cache shows, of the cell that the reference definition finds, or an invalid one if that
  -- finds none, and leaves the pages and the tree as they are.
  pub search_row_ptr_lem :
      (fuel : ℕ) (t : Tree)
      → height t ≤ fuel
      → TreeAt v t
      → Sorted (cells_of t)
      → Ordinary (cells_of t)
      → Finds fuel t
  unfolding TreeAt height cells_of
  search_row_ptr_lem zero (tree id p kids) low h s o = absurd (omega arith)
  search_row_ptr_lem (suc fuel) (tree id p kids) low (at, fits, all) s o =
      let i = lower_bound key p.cells in
      let split = find_key-weave key ordinary kids p.cells s o in
      elim (Bool-cases (is_key key (get_elem? p.cells i))) [
        | inl found ↦ elim (Option-cases (get_elem? p.cells i)) [
          | inl none_there ↦ absurd (no_key (get_elem? p.cells i) none_there found)
          | inr (c, there) ↦ (
            record { page_id = id; cell_id = i },
            visit fuel id p _ at fits.shaped (rw found (pure-Reads v ids _)),
            inr (
              c,
              p,
              split ∙ rw found there,
              at,
              there,
              omega (arith, get_elem?-some-lt p.cells i there, fits.few),
            ),
          )
        ]
        | inr absent ↦ elim (Bool-cases p.leaf) [
          | inl leaf ↦ (
            record { page_id = id; cell_id = cellid_invalid },
            visit fuel id p _ at fits.shaped (rw absent (descend_leaf fuel id p leaf)),
            inl (split ∙ rw absent (below_leaf key kids i (fits.leaf leaf)), refl),
          )
          | inr inner ↦
              let (t, there, root, shown, lower) =
                child_lem v kids i (omega (arith, fits.inner inner, lower_bound_le key p.cells))
                  all in
              let (st, ot) =
                child_at-ordered kids p.cells i t (lower_bound_le key p.cells) there s o in
              let (row, run, place) = search_row_ptr_lem fuel t (omega arith) shown st ot in
              (
                row,
                visit fuel id p row at fits.shaped (
                    rw absent (
                      descend_inner fuel id (root_of t) p row inner (rw (fits.children) root) run)),
                subst (λ o. Place v o row)
                    (sym (split ∙ rw absent (ap (find_key key) (below_at kids i t there)))) place,
              )
        ]
      ]

  -- The rest of `search`.
  abbrev answer : RowPos → M (Client os Btree) (Option (List Vari))
  answer row = if row.cell_id == cellid_invalid then pure none else (do
    r ← b_node os mem row.page_id
    p ← fields os mem r
    c ← expect (get_elem? p.cells row.cell_id)
    pure (some c.value))

  answer-Reads :
      (row : RowPos) (o : Option Cell) → Place v o row → Reads (answer row) v ids (value_of o)
  answer-Reads row o place = elim place [
    | inl (absent, invalid) ↦ rw (absent, invalid) (pure-Reads v ids _)
    | inr (c, p, there, at, cell, valid) ↦
        let some_cell : (row.cell_id == cellid_invalid) ≡ false = ground (arith, valid) in
        rw (there, some_cell)
          (>>=-Reads _ (b_node-Reads os mem v ids row.page_id p at) (
            >>=-Reads _ (fields-Reads os mem v ids row.page_id p at) (
              rw cell (
                >>=-Reads (λ (c : Cell). pure (some c.value)) (pure-Reads v ids c)
                  (pure-Reads v ids _)))))
  ]

  -- For a key that is no NaN, on an open database of which the cache shows all nodes of a
  -- tree, all in use, each a leaf without children or with one child more than its cells,
  -- fewer than 2 ^ 32 - 1, and as the code asserts, no deeper than a database has pages, with
  -- keys that are no NaN in order, search returns, with the values of the cell that the
  -- reference definition finds among the cells in order, or with none; it leaves the pages and
  -- the tree as they are.
  pub search_lem :
      (t : Tree)
      → height t ≤ max_depth
      → TreeAt v t
      → Sorted (cells_of t)
      → Ordinary (cells_of t)
      → (s : Client os Btree) → IsOpen s.pager v ids
      → s.self.root_page_id ≡ root_of t
      → (s' : Client os Btree) × (search os mem key s
          ≡ ok (value_of (find_key key (cells_of t))) s')
        × IsOpen s'.pager v ids
        × (s'.self ≡ s.self)
  unfolding search search_root
  search_lem t low shown sorted keys s o root =
      let (row, reads, place) = search_row_ptr_lem max_depth t low shown sorted keys in
      let (s', run, o', same) =
        (>>=-Reads answer reads (answer-Reads row (find_key key (cells_of t)) place)).run s o in
      (
        s',
        subst
            (λ id.
              (search_row_ptr os mem max_depth key id >>= answer) s
              ≡ ok (value_of (find_key key (cells_of t))) s')
            (sym root) run,
        o',
        same,
      )
