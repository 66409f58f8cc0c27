-- ===== src/StorageEngine.antt =====
-- src/backend/StorageEngine.{hpp,cpp}: the tables of a database, with the schema page that names them.
use kndb.Base.{
  ℕ, suc, ◌+◌, Bool, false, not, List, [], ◌∷◌, ◌++◌, map, Option, none, some, M, ok, undefined,
  invalid_argument, require, pure, expect, ◌>>=◌, ◌>>◌, ltb, ◌==◌, if◌then◌else◌, length, get_elem?,
  set,
}
use kndb.Constants.{max_str_sz}
use kndb.Posix.{Posix}
use kndb.Vari.{Vari}
use kndb.Vari.Codec.{Memory}
use kndb.Vari.Order.{same_string}
use kndb.SchemaPage.{SchemaPage, get_tables, add_table, remove_table}
use kndb.Page.{Page, schema, schema_kind}
use kndb.Cache.{PageCache}
use kndb.Cache.Refs.{made, on_page}
use kndb.Pager.{get_page}
use kndb.Pager.Client.{Client, on_pager, on_part, get_self, set_self}
use kndb.Btree.{erase_at}
use kndb.Table.{
  Table, open_table, new_table, get_name, get_table_page_id, read_tuple, delete_tuple, get_types_of,
  get_num_tuples_of,
}
use kndb.Table

pub record StorageEngine : Type 0 where
  pub tables : List Table
  pub schema_page_id : ℕ

-- A method of a schema page, of a page that is one.
abbrev pub schema_call {ℓ} : {A : Type ℓ} → M SchemaPage A → M Page A
schema_call m (schema p) = made schema (m p)
schema_call m _ = undefined

-- The loops that look for a table by its name, at index `i`: the first one, and the last one.
unfoldable pub find_table : List ℕ → List Table → ℕ → Option ℕ
find_table name [] i = none
find_table name (t ∷ ts) i =
    let rest = find_table name ts (suc i) in if same_string (get_name t) name then some i else rest

unfoldable pub last_table : List ℕ → List Table → ℕ → Option ℕ → Option ℕ
last_table name [] i idx = idx
last_table name (t ∷ ts) i idx =
    last_table name ts (suc i) (if same_string (get_name t) name then some i else idx)

module _ (os : Posix) (mem : Memory) where
  -- `S_PAGE`, and a method of it.
  unfoldable pub with_schema_page {ℓ} : {A : Type ℓ} → ℕ → M SchemaPage A → M (PageCache os) A
  with_schema_page id m = do r ← get_page os mem schema_kind id; on_page os r (schema_call m)

  unfoldable pub s_page {ℓ} : {A : Type ℓ} → M SchemaPage A → M (Client os StorageEngine) A
  s_page m = do e ← get_self; on_pager (with_schema_page e.schema_page_id m)

  abbrev pub tables_of : M SchemaPage (List (List ℕ × ℕ))
  tables_of p = ok (get_tables p) p

  unfoldable pub open_tables : List (List ℕ × ℕ) → M (PageCache os) (List Table)
  open_tables [] = pure []
  open_tables ((name, id) ∷ rest) = do
    t ← open_table os mem name id
    ts ← open_tables rest
    pure (t ∷ ts)

  -- The constructor.
  unfoldable pub open_engine : ℕ → M (PageCache os) StorageEngine
  open_engine schema_page_id = do
    tables ← with_schema_page schema_page_id tables_of
    ts ← open_tables tables
    pure (record { tables = ts; schema_page_id = schema_page_id })

  -- A call on the table at an index.
  unfoldable pub on_table {ℓ} :
      {A : Type ℓ} → ℕ → M (Client os Table) A → M (Client os StorageEngine) A
  on_table i m = do
    e ← get_self
    t ← expect (get_elem? e.tables i)
    on_part (λ x. t) (λ u x. record x { tables = set x.tables i u }) m

  -- `for (auto &tab : m_tables) if (tab->getName() == tableName) return …; return otherwise;`
  unfoldable pub on_named {ℓ} :
      {A : Type ℓ} → List ℕ → M (Client os Table) A → A → M (Client os StorageEngine) A
  on_named name m otherwise = do
    e ← get_self
    elim (find_table name e.tables 0) [ none ↦ pure otherwise | some i ↦ on_table i m ]

  unfoldable pub create_table : List ℕ → List Vari → M (Client os StorageEngine) (Unit {0})
  create_table table_name types = do
    require (not (ltb max_str_sz (length table_name + 1))) invalid_argument
    require (not (length table_name == 0)) invalid_argument
    e ← get_self
    (elim (find_table table_name e.tables 0) [
      | none ↦ pure tt
      | some i ↦ require false invalid_argument
    ])
    t ← on_pager (new_table os mem table_name types)
    set_self (record e { tables = e.tables ++ t ∷ [] })
    s_page (add_table (get_name t) (get_table_page_id t))

  unfoldable pub get_table_types : List ℕ → M (Client os StorageEngine) (Option (List Vari))
  get_table_types name = on_named name (do types ← get_types_of os mem; pure (some types)) none

  unfoldable pub drop_table : List ℕ → M (Client os StorageEngine) (Unit {0})
  drop_table table_name = do
    e ← get_self
    (elim (last_table table_name e.tables 0 none) [
      | none ↦ require false invalid_argument
      | some idx ↦ do
        s_page (remove_table table_name)
        on_table idx (Table.drop os mem)
        e ← get_self
        set_self (record e { tables = erase_at idx e.tables })
    ])

  unfoldable pub get_table_names : M (Client os StorageEngine) (List (List ℕ))
  get_table_names = do tables ← s_page tables_of; pure (map (λ entry. entry.0) tables)

  unfoldable pub remove_tuple : List ℕ → Vari → M (Client os StorageEngine) Bool
  remove_tuple name key = on_named name (delete_tuple os mem key) false

  unfoldable pub update_tuple : List ℕ → List Vari → M (Client os StorageEngine) Bool
  update_tuple name values = on_named name (Table.update_tuple os mem values) false

  unfoldable pub insert_tuple : List ℕ → List Vari → M (Client os StorageEngine) Bool
  insert_tuple name values = on_named name (Table.insert_tuple os mem values) false

  unfoldable pub get_tuple : List ℕ → Vari → M (Client os StorageEngine) (Option (List Vari))
  get_tuple name key = on_named name (read_tuple os mem key) none

  unfoldable pub get_num_tuples : List ℕ → M (Client os StorageEngine) (Option ℕ)
  get_num_tuples name = on_named name (do n ← get_num_tuples_of os mem; pure (some n)) none
