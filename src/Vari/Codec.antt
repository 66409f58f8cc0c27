-- ===== src/Vari/Codec.antt =====
-- `db_serialize` and `db_deserialize` of src/backend/utility.hpp.
pub mod Roundtrip
pub mod Types
use kndb.Base.{
  ℕ, Bool, true, false, List, [], ◌∷◌, ◌++◌, Option, none, some, M, ok, undefined, pure, ◌>>=◌,
  ◌==◌, if◌then◌else◌, length, take, ◌≡◌,
}
use kndb.Constants.{pg_sz, max_str_sz}
use kndb.Cursor.{Cursor, read_bytes, write_bytes, read_word, write_word}
use kndb.Vari.{Vari, int, char, bool, float, double, string}

-- Memory contents that the language does not determine: the bytes behind a string's terminator, and
-- those of a local `PgArr<byte> buf` before anything is written to it.
pub record Memory : Type 0 where
  pub past_end : List ℕ → List ℕ
  pub page_buffer : List ℕ

pub record IsMemory (mem : Memory) : Type 0 where
  pub reach : (s : List ℕ) → length (mem.past_end s) ≡ max_str_sz
  pub page : length mem.page_buffer ≡ pg_sz

abbrev pub bool_byte : Bool → ℕ
bool_byte true = 1
bool_byte false = 0

-- `string(buf)` reads up to the first NUL; without one it runs off the end of `buf`.
unfoldable pub until_nul : List ℕ → Option (List ℕ)
until_nul [] = none
until_nul (c ∷ cs) =
    let rest = until_nul cs in
    if c == 0 then some [] else elim rest [ none ↦ none | some s ↦ some (c ∷ s) ]

unfoldable pub c_string : List ℕ → M Cursor (List ℕ)
c_string buf c = elim (until_nul buf) [ none ↦ undefined | some s ↦ ok s c ]

-- A `bool` object holds 0 or 1.
unfoldable pub byte_bool : ℕ → M Cursor Bool
byte_bool b c = if b == 0 then ok false c else if b == 1 then ok true c else undefined

unfoldable pub db_deserialize_bool : M Cursor Bool
db_deserialize_bool = do b ← read_word 1; byte_bool b

unfoldable pub db_serialize_bool : Bool → M Cursor (Unit {0})
db_serialize_bool b = write_word 1 (bool_byte b)

unfoldable pub db_deserialize_string : M Cursor (List ℕ)
db_deserialize_string = do buf ← read_bytes max_str_sz; c_string buf

-- `memcpy(…, val.data(), 128)` copies 128 bytes whatever the length of the string.
unfoldable pub string_image : Memory → List ℕ → List ℕ
string_image mem s = take max_str_sz (s ++ 0 ∷ mem.past_end s)

unfoldable pub db_serialize_string : Memory → List ℕ → M Cursor (Unit {0})
db_serialize_string mem s = write_bytes (string_image mem s)

-- The overload for `Vari`, with the type that the value is read at.
unfoldable pub db_deserialize : Vari → M Cursor Vari
db_deserialize (int _) = do n ← read_word 4; pure (int n)
db_deserialize (char _) = do n ← read_word 1; pure (char n)
db_deserialize (bool _) = do b ← db_deserialize_bool; pure (bool b)
db_deserialize (float _) = do n ← read_word 4; pure (float n)
db_deserialize (double _) = do n ← read_word 8; pure (double n)
db_deserialize (string _) = do s ← db_deserialize_string; pure (string s)

unfoldable pub db_serialize : Memory → Vari → M Cursor (Unit {0})
db_serialize mem (int n) = write_word 4 n
db_serialize mem (char n) = write_word 1 n
db_serialize mem (bool b) = db_serialize_bool b
db_serialize mem (float n) = write_word 4 n
db_serialize mem (double n) = write_word 8 n
db_serialize mem (string s) = db_serialize_string mem s
