-- ===== src/SchemaPage.antt =====
-- src/backend/SchemaPage.{hpp,cpp}: the page that maps the names of the tables to their pages. The map
-- is an association list, in the order in which it is iterated.
pub mod Names
pub mod Format
pub mod Changes
use kndb.Base.{
  ℕ, zero, suc, ◌+◌, ◌-◌, ◌*◌, ◌%◌, ◌^◌, Bool, true, false, List, [], ◌∷◌, ◌++◌, not, M, Outcome,
  ok, assume, pure, get_state, ◌>>=◌, ◌>>◌, ltb, leb, ◌==◌, length, if◌then◌else◌,
}
use kndb.Constants.{pg_sz, schema_page_type, max_str_len, max_str_sz}
use kndb.Cursor.{Cursor, start, read_word, write_word, page_sized, within_page}
use kndb.Vari.Order.{same_string}
use kndb.Vari.Codec.{Memory, db_serialize_string, db_deserialize_string}

pub record SchemaPage : Type 0 where
  pub page_id : ℕ
  pub tables : List (List ℕ × ℕ)

unfoldable pub contains : List ℕ → List (List ℕ × ℕ) → Bool
contains name [] = false
contains name ((key, id) ∷ rest) = if same_string key name then true else contains name rest

-- `emplace` leaves an entry with the name as it is.
unfoldable pub emplace : List ℕ → ℕ → List (List ℕ × ℕ) → List (List ℕ × ℕ)
unfolding contains
emplace name id tables = if contains name tables then tables else tables ++ (name, id) ∷ []

unfoldable pub erase : List ℕ → List (List ℕ × ℕ) → List (List ℕ × ℕ)
erase name [] = []
erase name ((key, id) ∷ rest) = if same_string key name then rest else (key, id) ∷ erase name rest

-- The constructor of a new page.
abbrev pub new_page : ℕ → SchemaPage
new_page page_id = record { page_id = page_id; tables = [] }

abbrev pub get_num_tables : SchemaPage → ℕ
get_num_tables p = length p.tables % 2 ^ 8

abbrev pub get_tables : SchemaPage → List (List ℕ × ℕ)
get_tables p = p.tables

-- `offset_t` is 16 bits wide.
unfoldable pub free_space : SchemaPage → ℕ
free_space p =
    let used = (1 + 1 + length p.tables * (max_str_sz + 4)) % 2 ^ 16 in
    (pg_sz + 2 ^ 16 - used) % 2 ^ 16

unfoldable pub add_table : List ℕ → ℕ → M SchemaPage (Unit {0})
unfolding free_space emplace
add_table name id = do
  assume (leb (length name) max_str_len)
  assume (not (length name == 0))
  p ← get_state
  assume (leb (max_str_sz + 4) (free_space p))
  (λ p. ok tt (record p { tables = emplace name id p.tables }))

unfoldable pub remove_table : List ℕ → M SchemaPage (Unit {0})
unfolding contains erase
remove_table name = do
  assume (leb (length name) max_str_len)
  assume (not (length name == 0))
  p ← get_state
  assume (contains name p.tables)
  (λ p. ok tt (record p { tables = erase name p.tables }))

write_tables : Memory → List (List ℕ × ℕ) → M Cursor (Unit {0})
write_tables mem [] = pure tt
write_tables mem ((name, id) ∷ rest) = do
  db_serialize_string mem name
  write_word 4 id
  write_tables mem rest

write_body : Memory → SchemaPage → M Cursor (Unit {0})
write_body mem p = do
  write_word 1 schema_page_type
  write_word 1 (length p.tables % 2 ^ 8)
  write_tables mem p.tables
  within_page

unfoldable pub to_bytes : Memory → SchemaPage → List ℕ → Outcome Cursor (Unit {0})
unfolding write_body write_tables
to_bytes mem p buf = (do page_sized; write_body mem p) (start buf)

-- The loop over `num_tables` entries, which are put into the map.
read_tables : ℕ → List (List ℕ × ℕ) → M Cursor (List (List ℕ × ℕ))
read_tables zero tables = pure tables
read_tables (suc n) tables = do
  name ← db_deserialize_string
  id ← read_word 4
  read_tables n (emplace name id tables)

read_body : ℕ → M Cursor SchemaPage
read_body page_id = do
  page_type_id ← read_word 1
  assume (page_type_id == schema_page_type)
  num_tables ← read_word 1
  tables ← read_tables num_tables []
  c ← get_state
  assume (ltb c.offset pg_sz)
  pure (record { page_id = page_id; tables = tables })

-- The constructor from serialized data.
unfoldable pub from_bytes : List ℕ → ℕ → Outcome Cursor SchemaPage
unfolding read_body read_tables
from_bytes bytes page_id = (do page_sized; read_body page_id) (start bytes)
