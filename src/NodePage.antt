-- ===== src/NodePage.antt =====
-- src/backend/BtreeNodePage.{hpp,tpp}: a node of a B-tree, at the type of values that the tables use,
-- `Vec<Vari>`.
pub mod Format
use kndb.Base.{
  ℕ, zero, suc, ◌+◌, ◌-◌, ◌*◌, ◌%◌, ◌^◌, Bool, true, List, [], ◌∷◌, not, M, Outcome, undefined,
  assume, pure, ◌>>=◌, ◌>>◌, ◌==◌, ◌&&◌, ◌||◌, length, if◌then◌else◌,
}
use kndb.Constants.{btree_node_page_type}
use kndb.Cursor.{Cursor, start, read_word, write_word, page_sized, within_page}
use kndb.Vari.{Vari, type_id_to_variant, variant_to_type_id}
use kndb.Vari.Codec.{Memory, db_serialize, db_deserialize, db_serialize_bool, db_deserialize_bool}

pub record Cell : Type 0 where
  pub key : Vari
  pub value : List Vari

pub record NodePage : Type 0 where
  pub page_id : ℕ
  pub degree : ℕ
  pub parent_id : ℕ
  pub leaf : Bool
  pub root : Bool
  pub children : List ℕ
  pub cells : List Cell

-- The constructor of a new node.
abbrev pub new_page : ℕ → ℕ → Bool → Bool → ℕ → NodePage
new_page deg parent_id is_root is_leaf page_id = record {
  page_id = page_id;
  degree = deg;
  parent_id = parent_id;
  leaf = is_leaf;
  root = is_root;
  children = [];
  cells = [];
}

-- `degree_t` is 16 bits wide.
unfoldable pub min_keys : NodePage → ℕ
min_keys p = (p.degree + 2 ^ 16 - 1) % 2 ^ 16

unfoldable pub max_keys : NodePage → ℕ
max_keys p = (2 * p.degree + 2 ^ 16 - 1) % 2 ^ 16

-- The three assumptions on the shape of a node, also made when it is searched.
unfoldable pub well_shaped : NodePage → Bool
well_shaped p =
    (if p.leaf then length p.children == 0 else true)
    && (if not p.leaf && p.root
        then length p.cells == 0 || length p.children == length p.cells + 1
        else true)
    && (if not p.leaf && not p.root
        then length p.children == length p.cells + 1 && not (length p.cells == 0)
        else true)

write_types : List Vari → M Cursor (Unit {0})
write_types [] = pure tt
write_types (v ∷ vs) = do type_id ← variant_to_type_id v; write_word 1 type_id; write_types vs

-- `for (int j = 0; j < n; ++j) db_serialize(cell.value[j], …)`
write_values : Memory → ℕ → List Vari → M Cursor (Unit {0})
write_values mem zero vs = pure tt
write_values mem (suc n) [] = λ c. undefined
write_values mem (suc n) (v ∷ vs) = do db_serialize mem v; write_values mem n vs

write_cells : Memory → ℕ → List Cell → M Cursor (Unit {0})
write_cells mem num_values [] = pure tt
write_cells mem num_values (cell ∷ cells) = do
  db_serialize mem cell.key
  write_values mem num_values cell.value
  write_cells mem num_values cells

-- `for (int i = 0; i < n; i++) db_serialize(m_children[i], …)`
write_children : ℕ → List ℕ → M Cursor (Unit {0})
write_children zero children = pure tt
write_children (suc n) [] = λ c. undefined
write_children (suc n) (child ∷ children) = do write_word 4 child; write_children n children

-- What follows the number of cells, for a node that has some.
write_rest : Memory → NodePage → List Cell → M Cursor (Unit {0})
write_rest mem p [] = pure tt
write_rest mem p (first ∷ others) = do
  key_type_id ← variant_to_type_id first.key
  write_word 1 key_type_id
  write_word 1 (length first.value % 2 ^ 8)
  write_types first.value
  write_cells mem (length first.value) (first ∷ others)
  (if p.leaf then pure tt else write_children (length p.cells + 1) p.children)
  within_page

write_body : Memory → NodePage → M Cursor (Unit {0})
write_body mem p = do
  write_word 1 btree_node_page_type
  write_word 2 p.degree
  write_word 4 p.parent_id
  db_serialize_bool p.leaf
  db_serialize_bool p.root
  write_word 4 (length p.cells % 2 ^ 32)
  write_rest mem p p.cells

unfoldable pub to_bytes : Memory → NodePage → List ℕ → Outcome Cursor (Unit {0})
unfolding write_body write_rest write_children write_cells write_values write_types well_shaped
to_bytes mem p buf = (do page_sized; assume (well_shaped p); write_body mem p) (start buf)

read_types : ℕ → M Cursor (List Vari)
read_types zero = pure []
read_types (suc n) = do
  type_id ← read_word 1
  v ← type_id_to_variant type_id
  vs ← read_types n
  pure (v ∷ vs)

read_values : List Vari → M Cursor (List Vari)
read_values [] = pure []
read_values (type ∷ types) = do v ← db_deserialize type; vs ← read_values types; pure (v ∷ vs)

read_cells : Vari → List Vari → ℕ → M Cursor (List Cell)
read_cells key types zero = pure []
read_cells key types (suc n) = do
  k ← db_deserialize key
  vs ← read_values types
  cells ← read_cells key types n
  pure (record { key = k; value = vs } ∷ cells)

read_children : ℕ → M Cursor (List ℕ)
read_children zero = pure []
read_children (suc n) = do child ← read_word 4; children ← read_children n; pure (child ∷ children)

-- What follows the number of cells.
read_rest : NodePage → ℕ → M Cursor NodePage
read_rest p zero = pure p
read_rest p (suc n) = do
  key_type_id ← read_word 1
  key ← type_id_to_variant key_type_id
  num_types ← read_word 1
  types ← read_types num_types
  cells ← read_cells key types (suc n)
  children ← (if p.leaf then pure [] else read_children (suc n + 1))
  within_page
  pure (record p { children = children; cells = cells })

read_body : ℕ → M Cursor NodePage
read_body page_id = do
  page_type_id ← read_word 1
  assume (page_type_id == btree_node_page_type)
  degree ← read_word 2
  parent_id ← read_word 4
  leaf ← db_deserialize_bool
  root ← db_deserialize_bool
  num_cells ← read_word 4
  read_rest (new_page degree parent_id root leaf page_id) num_cells

-- The constructor from serialized data.
unfoldable pub from_bytes : List ℕ → ℕ → Outcome Cursor NodePage
unfolding read_body read_rest read_children read_cells read_values read_types
from_bytes bytes page_id = (do page_sized; read_body page_id) (start bytes)
