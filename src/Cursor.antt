-- ===== src/Cursor.antt =====
-- A byte buffer with the `offset_t &offset` that src/backend/utility.hpp passes along: what the
-- `memcpy` of its `db_serialize` and `db_deserialize` does. `offset_t` is 16 bits wide.
pub mod Laws
use kndb.Base.{
  ℕ, ◌+◌, ◌%◌, ◌^◌, List, ◌++◌, Bool, true, false, M, ok, undefined, length, take, drop, leb,
  if◌then◌else◌, ◌>>=◌, ◌==◌, get_state, assume,
}
use kndb.Constants.{pg_sz}
use kndb.Base.Words.{word_bytes, word_of}

pub record Cursor : Type 0 where
  pub bytes : List ℕ
  pub offset : ℕ

abbrev pub start : List ℕ → Cursor
start bytes = record { bytes = bytes; offset = 0 }

-- `memcpy(&src, bytes.data() + offset, n); offset += n;`
unfoldable pub read_bytes : ℕ → M Cursor (List ℕ)
read_bytes n c =
    if leb (c.offset + n) (length c.bytes)
    then ok (take n (drop c.offset c.bytes)) (record c { offset = (c.offset + n) % 2 ^ 16 })
    else undefined

-- `memcpy(bytes.data() + offset, &val, n); offset += n;`
unfoldable pub write_bytes : List ℕ → M Cursor (Unit {0})
write_bytes source c =
    if leb (c.offset + length source) (length c.bytes)
    then ok tt (record {
      bytes = take c.offset c.bytes ++ (source ++ drop (c.offset + length source) c.bytes);
      offset = (c.offset + length source) % 2 ^ 16;
    })
    else undefined

-- The template for trivially copyable types, at an unsigned word of `w` bytes.
unfoldable pub read_word : ℕ → M Cursor ℕ
read_word w = do bs ← read_bytes w; (λ c. ok (word_of bs) c)

unfoldable pub write_word : ℕ → ℕ → M Cursor (Unit {0})
write_word w n = write_bytes (word_bytes w n)

-- `ASSUME_S(bytes.size() == PG_SZ, …)` and `ASSUME_S(offset <= PG_SZ, …)`, at the two ends of the code
-- that reads or writes a page.
unfoldable pub page_sized : M Cursor (Unit {0})
page_sized = do c ← get_state; assume (length c.bytes == pg_sz)

unfoldable pub within_page : M Cursor (Unit {0})
within_page = do c ← get_state; assume (leb c.offset pg_sz)
