-- ===== src/TablePage.antt =====
-- src/backend/TablePage.{hpp,cpp}: the page that holds a table's column types, its number of tuples and
-- the root of its B-tree.
pub mod Format
use kndb.Base.{
  ℕ, zero, suc, ◌+◌, ◌-◌, ◌/◌, ◌%◌, ◌^◌, List, [], ◌∷◌, not, M, Outcome, ok, assume, pure,
  get_state, ◌>>=◌, ◌>>◌, ltb, leb, ◌==◌, length, take,
}
use kndb.Constants.{pg_sz, table_page_type}
use kndb.Cursor.{Cursor, start, read_word, write_word, page_sized, within_page}
use kndb.Vari.{Vari, type_id_to_variant, variant_to_type_id}

pub record TablePage : Type 0 where
  pub page_id : ℕ
  pub types : List Vari
  pub btree_page_id : ℕ
  pub num_tuples : ℕ

-- The constructor of a new page.
unfoldable pub new_page : {S : Type 0} → List Vari → ℕ → ℕ → M S TablePage
new_page types btree_page_id page_id = do
  assume (not (length types == 0))
  assume (leb (length types) ((pg_sz - 100) / 1))
  pure (record { page_id = page_id; types = types; btree_page_id = btree_page_id; num_tuples = 0 })

abbrev pub get_btree_page_id : TablePage → ℕ
get_btree_page_id p = p.btree_page_id

unfoldable pub set_btree_page_id : ℕ → M TablePage (Unit {0})
set_btree_page_id id p = ok tt (record p { btree_page_id = id })

abbrev pub get_types : TablePage → List Vari
get_types p = p.types

abbrev pub get_num_tuples : TablePage → ℕ
get_num_tuples p = p.num_tuples

unfoldable pub add_tuple : M TablePage (Unit {0})
add_tuple p = ok tt (record p { num_tuples = (p.num_tuples + 1) % 2 ^ 64 })

unfoldable pub remove_tuple : M TablePage (Unit {0})
remove_tuple = do
  p ← get_state
  assume (ltb 0 p.num_tuples)
  (λ p. ok tt (record p { num_tuples = (p.num_tuples + 2 ^ 64 - 1) % 2 ^ 64 }))

write_types : List Vari → M Cursor (Unit {0})
write_types [] = pure tt
write_types (v ∷ vs) = do type_id ← variant_to_type_id v; write_word 1 type_id; write_types vs

write_body : TablePage → M Cursor (Unit {0})
write_body p = do
  write_word 1 table_page_type
  write_word 2 (length p.types % 2 ^ 16)
  write_types (take (length p.types % 2 ^ 16) p.types)
  write_word 4 p.btree_page_id
  write_word 8 p.num_tuples
  within_page

unfoldable pub to_bytes : TablePage → List ℕ → Outcome Cursor (Unit {0})
unfolding write_body write_types
to_bytes p buf = (do page_sized; write_body p) (start buf)

-- The loop over `num_types` types.
read_types : ℕ → M Cursor (List Vari)
read_types zero = pure []
read_types (suc n) = do
  type_id ← read_word 1
  v ← type_id_to_variant type_id
  vs ← read_types n
  pure (v ∷ vs)

read_body : ℕ → M Cursor TablePage
read_body page_id = do
  page_type_id ← read_word 1
  assume (page_type_id == table_page_type)
  num_types ← read_word 2
  assume (ltb 0 num_types)
  types ← read_types num_types
  btree_page_id ← read_word 4
  num_tuples ← read_word 8
  within_page
  pure (record {
    page_id = page_id;
    types = types;
    btree_page_id = btree_page_id;
    num_tuples = num_tuples;
  })

-- The constructor from serialized data.
unfoldable pub from_bytes : List ℕ → ℕ → Outcome Cursor TablePage
unfolding read_body read_types
from_bytes bytes page_id = (do page_sized; read_body page_id) (start bytes)
