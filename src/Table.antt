-- ===== src/Table.antt =====
-- src/backend/Table.{hpp,cpp}: a table, its page and its tree.
pub mod Read
pub mod Pages
pub mod Rows
pub mod Inserts
pub mod Changes
use kndb.Base.{
  ℕ, suc, Bool, true, not, List, [], ◌∷◌, Option, M, Outcome, ok, undefined, runtime_error, require,
  pure, expect, ◌>>=◌, ◌>>◌, ◌==◌, if◌then◌else◌, length, get_elem?,
}
use kndb.Constants.{pgid_invalid}
use kndb.Posix.{Posix}
use kndb.Vari.{Vari, variant_to_type_id, calculate_degree}
use kndb.Vari.Codec.{Memory}
use kndb.NodePage
use kndb.TablePage.{
  TablePage, get_types, get_num_tuples, get_btree_page_id, set_btree_page_id, add_tuple,
  remove_tuple,
}
use kndb.TablePage
use kndb.Page.{Page, table, node, table_kind, node_kind, get_page_id}
use kndb.Cache.{PageCache}
use kndb.Cache.Refs.{made, on_page}
use kndb.Pager.{get_page, create_new_page}
use kndb.Pager.Client.{Client, on_pager, on_part, get_self}
use kndb.Btree.{Btree}
use kndb.Btree

pub record Table : Type 0 where
  pub btree : Btree
  pub table_page_id : ℕ
  pub name : List ℕ

abbrev pub get_table_page_id : Table → ℕ
get_table_page_id t = t.table_page_id

abbrev pub get_name : Table → List ℕ
get_name t = t.name

-- A method of a table page, of a page that is one.
abbrev pub table_call {ℓ} : {A : Type ℓ} → M TablePage A → M Page A
table_call m (table p) = made table (m p)
table_call m _ = undefined

module _ (os : Posix) (mem : Memory) where
  -- `m_pager.getPage<TablePage>(id)`, and a method of it.
  unfoldable pub with_table_page {ℓ} : {A : Type ℓ} → ℕ → M TablePage A → M (PageCache os) A
  with_table_page id m = do r ← get_page os mem table_kind id; on_page os r (table_call m)

  abbrev pub types_of : M TablePage (List Vari)
  types_of p = ok (get_types p) p

  abbrev pub tuples_of : M TablePage ℕ
  tuples_of p = ok (get_num_tuples p) p

  abbrev pub root_of : M TablePage ℕ
  root_of p = ok (get_btree_page_id p) p

  -- `calculateDegree(T_PAGE.getTypes()[0], T_PAGE.getTypes())`
  unfoldable pub table_degree : ℕ → M (PageCache os) ℕ
  table_degree id = do
    types ← with_table_page id types_of
    first ← expect (get_elem? types 0)
    types ← with_table_page id types_of
    pure (calculate_degree first types)

  -- The id of a page that has just been made, by a reference to it.
  abbrev pub id_of_page : Page → Outcome Page ℕ
  id_of_page page = ok (get_page_id page) page

  -- The constructor from an existing page.
  unfoldable pub open_table : List ℕ → ℕ → M (PageCache os) Table
  open_table name id = do
    deg ← table_degree id
    root ← with_table_page id root_of
    pure (record {
      btree = record { root_page_id = root; degree = deg };
      table_page_id = id;
      name = name;
    })

  -- `std::make_unique<TablePage>(types, PGID_INVALID, id)`
  unfoldable pub make_table_page : List Vari → ℕ → M (PageCache os) Page
  make_table_page types id = do p ← TablePage.new_page types pgid_invalid id; pure (table p)

  -- The constructor of a new table.
  unfoldable pub new_table : List ℕ → List Vari → M (PageCache os) Table
  new_table name types = do
    r ← create_new_page os mem table_kind (make_table_page types)
    id ← on_page os r id_of_page
    deg ← table_degree id
    r ←
        create_new_page os mem node_kind
          (λ new c. ok (node (NodePage.new_page deg pgid_invalid true true new)) c)
    btree_pg ← on_page os r id_of_page
    with_table_page id (set_btree_page_id btree_pg)
    root ← with_table_page id root_of
    pure (record {
      btree = record { root_page_id = root; degree = deg };
      table_page_id = id;
      name = name;
    })

  -- `T_PAGE`, and a method of it.
  unfoldable pub t_page {ℓ} : {A : Type ℓ} → M TablePage A → M (Client os Table) A
  t_page m = do t ← get_self; on_pager (with_table_page t.table_page_id m)

  -- A call on the tree.
  abbrev pub on_btree {ℓ} : {A : Type ℓ} → M (Client os Btree) A → M (Client os Table) A
  on_btree = on_part (λ t. t.btree) (λ b t. record t { btree = b })

  unfoldable pub get_num_tuples_of : M (Client os Table) ℕ
  get_num_tuples_of = t_page tuples_of

  unfoldable pub get_types_of : M (Client os Table) (List Vari)
  get_types_of = t_page types_of

  -- The loop over the values, at index `i`.
  unfoldable pub check_types : List Vari → ℕ → M (Client os Table) (Unit {0})
  check_types [] i = pure tt
  check_types (v ∷ vs) i = do
    a ← variant_to_type_id v
    types ← t_page types_of
    w ← expect (get_elem? types i)
    b ← variant_to_type_id w
    require (a == b) runtime_error
    check_types vs (suc i)

  -- The two tests of a tuple.
  unfoldable pub check_tuple : List Vari → M (Client os Table) (Unit {0})
  check_tuple values = do
    types ← t_page types_of
    require (length values == length types) runtime_error
    check_types values 0

  -- The test of a key.
  unfoldable pub check_key : Vari → M (Client os Table) (Unit {0})
  check_key key = do
    types ← t_page types_of
    first ← expect (get_elem? types 0)
    a ← variant_to_type_id first
    b ← variant_to_type_id key
    require (a == b) runtime_error

  -- `if (m_btree->getRootPage() != og_root) T_PAGE.setBtreePageID(m_btree->getRootPage());`
  unfoldable pub note_root : ℕ → M (Client os Table) (Unit {0})
  note_root og_root = do
    root ← on_btree (Btree.get_root_page os mem)
    (if not (root == og_root) then t_page (set_btree_page_id root) else pure tt)

  unfoldable pub insert_tuple : List Vari → M (Client os Table) Bool
  insert_tuple values = do
    check_tuple values
    og_root ← on_btree (Btree.get_root_page os mem)
    key ← expect (get_elem? values 0)
    success ← on_btree (Btree.insert os mem values key)
    (if success then (do t_page add_tuple; note_root og_root) else pure tt)
    pure success

  unfoldable pub read_tuple : Vari → M (Client os Table) (Option (List Vari))
  read_tuple key = do check_key key; on_btree (Btree.search os mem key)

  unfoldable pub drop : M (Client os Table) (Unit {0})
  drop = pure tt

  unfoldable pub update_tuple : List Vari → M (Client os Table) Bool
  update_tuple values = do
    check_tuple values
    key ← expect (get_elem? values 0)
    on_btree (Btree.update os mem values key)

  unfoldable pub delete_tuple : Vari → M (Client os Table) Bool
  delete_tuple key = do
    check_key key
    og_root ← on_btree (Btree.get_root_page os mem)
    success ← on_btree (Btree.remove os mem key)
    (if success then (do t_page remove_tuple; note_root og_root) else pure tt)
    pure success
