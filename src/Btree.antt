-- ===== src/Btree.antt =====
-- src/backend/Btree.{hpp,tpp}: the B-tree of a table, over the pages of a pager. The recursions along the
-- tree have as much fuel as a database has pages: a search that goes deeper meets a page again and does
-- not end, and each split makes a page.
pub mod Lookup
pub mod Tree
pub mod Reads
pub mod Search
pub mod Shape
pub mod Order
pub mod Writes
pub mod NewNode
pub mod Runs
pub mod Sound
pub mod Moves
pub mod Halves
pub mod Spread
pub mod NewHalf
pub mod Spot
pub mod Fed
pub mod Descent
pub mod SplitInner
pub mod SplitRoot
pub mod Split
pub mod Insert
pub mod Replace
pub mod Place
pub mod Changed
pub mod Update
pub mod OrderKept
pub mod Insertion
pub mod Depth
pub mod Vectors
use kndb.Base.{
  ℕ, zero, suc, ◌+◌, ◌*◌, ◌/◌, Bool, true, false, not, List, [], ◌∷◌, ◌++◌, Option, none, some, M,
  ok, undefined, assume, pure, expect, ◌>>=◌, ◌>>◌, ltb, leb, ◌==◌, if◌then◌else◌, length,
  get_elem?, set, take, drop,
}
use kndb.Constants.{pgid_invalid, cellid_invalid, childid_invalid, max_fsmpages}
use kndb.Posix.{Posix}
use kndb.Vari.{Vari}
use kndb.Vari.Codec.{Memory}
use kndb.Vari.Order.{less, equal}
use kndb.Fsm.{get_blocks_in_page}
use kndb.NodePage.{Cell, NodePage, new_page, max_keys, well_shaped}
use kndb.Page.{Page, node, node_kind}
use kndb.Cache.Refs.{made, on_page}
use kndb.Pager.{get_page, create_new_page}
use kndb.Pager.Client.{Client, on_pager, get_self, set_self}

pub record Btree : Type 0 where
  pub root_page_id : ℕ
  pub degree : ℕ

pub record RowPos : Type 0 where
  pub page_id : ℕ
  pub cell_id : ℕ

abbrev pub max_depth : ℕ
max_depth = max_fsmpages * get_blocks_in_page + 1

-- `while (idx < cells.size() && cells[idx].key < key) idx++;`
unfoldable pub lower_bound : Vari → List Cell → ℕ
lower_bound key [] = 0
lower_bound key (c ∷ cs) = let rest = lower_bound key cs in if less c.key key then suc rest else 0

-- `idx < cells.size() && key == cells[idx].key`
unfoldable pub is_key : Vari → Option Cell → Bool
is_key key none = false
is_key key (some c) = equal key c.key

-- `insert(begin() + i, x)` of a vector.
unfoldable pub insert_at {ℓ} : {A : Type ℓ} → ℕ → A → List A → Option (List A)
insert_at zero x xs = some (x ∷ xs)
insert_at (suc i) x [] = none
insert_at (suc i) x (y ∷ ys) = elim (insert_at i x ys) [ none ↦ none | some zs ↦ some (y ∷ zs) ]

-- `erase(begin() + i)`
unfoldable pub erase_at {ℓ} : {A : Type ℓ} → ℕ → List A → List A
erase_at i [] = []
erase_at zero (x ∷ xs) = xs
erase_at (suc i) (x ∷ xs) = x ∷ erase_at i xs

-- `assign(begin() + i, end())`
unfoldable pub tail_from {ℓ} : {A : Type ℓ} → ℕ → List A → Option (List A)
tail_from i xs = if leb i (length xs) then some (drop i xs) else none

-- The loop that looks for a child, at index `i`.
unfoldable pub find_child : ℕ → List ℕ → ℕ → ℕ
find_child id [] i = childid_invalid
find_child id (child ∷ children) i =
    let rest = find_child id children (suc i) in if child == id then i else rest

-- A method of a node, of a page that is one.
abbrev pub node_call {ℓ} : {A : Type ℓ} → M NodePage A → M Page A
node_call m (node p) = made node (m p)
node_call m _ = undefined

module _ (os : Posix) (mem : Memory) where
  -- `B_NODE(id)`
  unfoldable pub b_node : ℕ → M (Client os Btree) ℕ
  b_node id = on_pager (get_page os mem node_kind id)

  -- `B_NEW(deg, par, root, leaf)`
  unfoldable pub b_new : ℕ → ℕ → Bool → Bool → M (Client os Btree) ℕ
  b_new deg par root leaf =
      on_pager
        (create_new_page os mem node_kind (λ id c. ok (node (new_page deg par root leaf id)) c))

  unfoldable pub on_node {ℓ} : {A : Type ℓ} → ℕ → M NodePage A → M (Client os Btree) A
  on_node r m = on_pager (on_page os r (node_call m))

  abbrev pub fields : ℕ → M (Client os Btree) NodePage
  fields r = on_node r (λ p. ok p p)

  abbrev pub set_cells : List Cell → M NodePage (Unit {0})
  set_cells cells p = ok tt (record p { cells = cells })

  abbrev pub set_children : List ℕ → M NodePage (Unit {0})
  set_children children p = ok tt (record p { children = children })

  abbrev pub set_root : Bool → M NodePage (Unit {0})
  set_root is_root p = ok tt (record p { root = is_root })

  abbrev pub set_parent : ℕ → M NodePage (Unit {0})
  set_parent parent p = ok tt (record p { parent_id = parent })

  -- `searchRowPtr` on a node that does not have the key.
  unfoldable pub descend :
      (Vari → ℕ → M (Client os Btree) RowPos) → Vari → NodePage → ℕ → M (Client os Btree) RowPos
  descend search_child key p id =
      if p.leaf then pure (record { page_id = id; cell_id = cellid_invalid }) else (do
        child ← expect (get_elem? p.children (lower_bound key p.cells))
        search_child key child)

  unfoldable pub search_row_ptr : ℕ → Vari → ℕ → M (Client os Btree) RowPos
  search_row_ptr zero key id = λ s. undefined
  search_row_ptr (suc fuel) key id = do
    r ← b_node id
    p ← fields r
    assume (well_shaped p)
    (if is_key key (get_elem? p.cells (lower_bound key p.cells))
        then pure (record { page_id = id; cell_id = lower_bound key p.cells })
        else descend (search_row_ptr fuel) key p id)

  unfoldable pub search_root : Vari → M (Client os Btree) RowPos
  search_root key = do t ← get_self; search_row_ptr max_depth key t.root_page_id

  unfoldable pub search : Vari → M (Client os Btree) (Option (List Vari))
  search key = do
    row ← search_root key
    (if row.cell_id == cellid_invalid then pure none else (do
      r ← b_node row.page_id
      p ← fields r
      c ← expect (get_elem? p.cells row.cell_id)
      pure (some c.value)))

  unfoldable pub update : List Vari → Vari → M (Client os Btree) Bool
  update values key = do
    row ← search_root key
    (if row.cell_id == cellid_invalid then pure false else (do
      r ← b_node row.page_id
      p ← fields r
      c ← expect (get_elem? p.cells row.cell_id)
      on_node r (set_cells (set p.cells row.cell_id (record c { value = values })))
      pure true))

  -- `for (auto pg : n_children) B_NODE(pg).setParent(id);`
  unfoldable pub set_parents : ℕ → List ℕ → M (Client os Btree) (Unit {0})
  set_parents id [] = pure tt
  set_parents id (child ∷ children) = do
    r ← b_node child
    on_node r (set_parent id)
    set_parents id children

  -- The right half of the cells and, unless it is a leaf, of the children goes to the new node.
  unfoldable pub move_half : ℕ → ℕ → ℕ → M (Client os Btree) (Unit {0})
  move_half r n median = do
    p ← fields r
    right ← expect (tail_from median p.cells)
    on_node n (set_cells right)
    on_node r (set_cells (take median p.cells))
    (if p.leaf then pure tt else (do
      moved ← expect (tail_from (median + 1) p.children)
      on_node n (set_children moved)
      q ← fields n
      set_parents q.page_id moved
      on_node r (set_children (take (median + 1) p.children))))

  -- The median cell goes to the parent, at the given place.
  unfoldable pub raise_median : ℕ → ℕ → ℕ → M (Client os Btree) ℕ
  raise_median r parent idx = do
    p ← fields r
    let median = length p.cells / 2
    c ← expect (get_elem? p.cells median)
    q ← fields parent
    cells ← expect (insert_at idx c q.cells)
    on_node parent (set_cells cells)
    on_node r (set_cells (erase_at median p.cells))
    pure median

  -- `split` of a full node that is not the root.
  unfoldable pub split_inner : ℕ → ℕ → M (Client os Btree) (Unit {0})
  split_inner r id = do
    p ← fields r
    parent ← b_node p.parent_id
    q ← fields parent
    let idx = find_child id q.children 0
    assume (not (idx == childid_invalid))
    median ← raise_median r parent idx
    t ← get_self
    n ← b_new t.degree q.page_id false p.leaf
    move_half r n median
    new ← fields n
    q ← fields parent
    children ← expect (insert_at (idx + 1) new.page_id q.children)
    on_node parent (set_children children)

  -- `split` of a full root.
  unfoldable pub split_root : ℕ → ℕ → M (Client os Btree) (Unit {0})
  split_root r id = do
    t ← get_self
    root ← b_new t.degree pgid_invalid true false
    q ← fields root
    set_self (record t { root_page_id = q.page_id })
    on_node r (set_root false)
    on_node r (set_parent q.page_id)
    median ← raise_median r root (length q.cells)
    curr ← b_node id
    p ← fields curr
    n ← b_new t.degree q.page_id false p.leaf
    move_half r n median
    new ← fields n
    on_node root (set_children (q.children ++ id ∷ new.page_id ∷ []))

  unfoldable pub split : ℕ → ℕ → M (Client os Btree) (Unit {0})
  split zero id = λ s. undefined
  split (suc fuel) id = do
    r ← b_node id
    p ← fields r
    (if ltb (length p.cells) (max_keys p) then pure tt else (do
      (if not p.root then split_inner r id else split_root r id)
      p ← fields r
      (if not p.root then split fuel p.parent_id else pure tt)))

  unfoldable pub insert : List Vari → Vari → M (Client os Btree) Bool
  insert values key = do
    row ← search_root key
    (if not (row.cell_id == cellid_invalid) then pure false else (do
      r ← b_node row.page_id
      p ← fields r
      assume p.leaf
      r ← b_node row.page_id
      p ← fields r
      cells ←
          expect
            (insert_at (lower_bound key p.cells) (record { key = key; value = values }) p.cells)
      on_node r (set_cells cells)
      split max_depth row.page_id
      pure true))

  unfoldable pub remove : Vari → M (Client os Btree) Bool
  remove key = pure false

  unfoldable pub get_root_page : M (Client os Btree) ℕ
  get_root_page = do t ← get_self; pure t.root_page_id

  unfoldable pub delete_tree : M (Client os Btree) (Unit {0})
  delete_tree = pure tt
