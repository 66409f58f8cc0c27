-- ===== src/Vari.antt =====
-- `Vari` of src/backend/kndb_types.hpp, and the type ids and sizes of src/backend/utility.hpp.
pub mod Codec
pub mod Degree
pub mod Order
use kndb.Base.{
  ℕ, ◌+◌, ◌*◌, ◌-◌, ◌/◌, ◌%◌, ◌^◌, ◌<◌, ◌≤◌, Bool, true, false, not, List, [], ◌∷◌, M, ok, aborts,
  pure, require, throws, runtime_error, ◌>>=◌, ◌>>◌, ◌==◌, if◌then◌else◌, length, All,
}
use kndb.Constants.{pg_sz, max_str_sz, max_str_len, pgtypeid_invalid}

-- `std::variant<int, char, bool, float, double, std::string>`. Numbers are the bit patterns of their
-- object representation (32, 8, 32 and 64 bits wide); a string is the list of its characters.
pub data Vari : Type 0 where
  int : ℕ → Vari
  char : ℕ → Vari
  bool : Bool → Vari
  float : ℕ → Vari
  double : ℕ → Vari
  string : List ℕ → Vari

-- What the C++ types guarantee of a value.
abbrev pub IsVari : Vari → Type 0
IsVari (int n) = n < 2 ^ 32
IsVari (char n) = n < 2 ^ 8
IsVari (bool b) = Unit
IsVari (float n) = n < 2 ^ 32
IsVari (double n) = n < 2 ^ 64
IsVari (string s) = All (λ c. c < 256) s

-- A string that fits a cell: at most `MAX_STR_LEN` characters, none of them NUL.
abbrev pub IsStorable : Vari → Type 0
IsStorable (string s) = (length s ≤ max_str_len) × All (λ c. 0 < c) s
IsStorable v = Unit

abbrev pub char_id : ℕ
char_id = 1

abbrev pub int_id : ℕ
int_id = 2

abbrev pub bool_id : ℕ
bool_id = 3

abbrev pub string_id : ℕ
string_id = 4

abbrev pub float_id : ℕ
float_id = 5

abbrev pub double_id : ℕ
double_id = 6

unfoldable pub db_sizeof : Vari → ℕ
db_sizeof (int n) = 4
db_sizeof (char n) = 1
db_sizeof (bool b) = 1
db_sizeof (float n) = 4
db_sizeof (double n) = 8
db_sizeof (string s) = max_str_sz

unfoldable pub type_id_to_variant : {S : Type 0} → ℕ → M S Vari
type_id_to_variant type_id s =
    if type_id == char_id
    then ok (char 0) s
    else if type_id == int_id
    then ok (int 0) s
    else if type_id == bool_id
    then ok (bool false) s
    else if type_id == string_id
    then ok (string []) s
    else if type_id == float_id
    then ok (float 0) s
    else if type_id == double_id
    then ok (double 0) s
    else aborts

-- The `std::visit` of `variant_to_type_id`, which sets `res`.
unfoldable pub visit_type_id : Vari → ℕ
visit_type_id (char n) = char_id
visit_type_id (int n) = int_id
visit_type_id (bool b) = bool_id
visit_type_id (string s) = string_id
visit_type_id (double n) = double_id
visit_type_id (float n) = float_id

unfoldable pub variant_to_type_id : {S : Type 0} → Vari → M S ℕ
unfolding visit_type_id
variant_to_type_id v = do
  let res = visit_type_id v
  require (not (res == pgtypeid_invalid)) runtime_error
  pure res

-- The default value of a value's type.
unfoldable pub type_of : Vari → Vari
type_of (int n) = int 0
type_of (char n) = char 0
type_of (bool b) = bool false
type_of (float n) = float 0
type_of (double n) = double 0
type_of (string s) = string []

-- The loop of `sameTypes` over two lists of one length.
unfoldable pub same_types_loop : {S : Type 0} → List Vari → List Vari → M S Bool
unfolding variant_to_type_id
same_types_loop (v ∷ vs) (w ∷ ws) = do
  a ← variant_to_type_id v
  b ← variant_to_type_id w
  let rest = same_types_loop vs ws
  if not (a == b) then pure false else rest
same_types_loop _ _ = pure true

unfoldable pub same_types : {S : Type 0} → List Vari → List Vari → M S Bool
unfolding same_types_loop
same_types vs ws = if not (length vs == length ws) then pure false else same_types_loop vs ws

-- `offset_t cell_size`, 16 bits wide, after the loop of `calculateDegree`.
unfoldable pub add_sizes : ℕ → List Vari → ℕ
add_sizes cell_size [] = cell_size
add_sizes cell_size (v ∷ vs) = add_sizes ((cell_size + db_sizeof v) % 2 ^ 16) vs

abbrev pub metadata_buffer : ℕ
metadata_buffer = 100

unfoldable pub calculate_degree : Vari → List Vari → ℕ
calculate_degree key values =
    let free_space = pg_sz - metadata_buffer in
    let cell_size = add_sizes (db_sizeof key) values in
    let page_ptr_size : ℕ = 4 in
    ((free_space + cell_size) / (2 * (cell_size + page_ptr_size))) % 2 ^ 16
