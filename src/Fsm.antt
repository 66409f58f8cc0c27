-- ===== src/Fsm.antt =====
-- src/backend/FSMPage.{hpp,cpp}: a page of the free space map, a bitmap with a count of its free bits
-- and a link to the next such page. A bit is set while its block is in use.
pub mod Bits
pub mod Bitmap
pub mod Invariant
pub mod Scan
pub mod Format
use Prim.Native.Nat.{bit_and, bit_xor}
use kndb.Base.{
  ℕ, zero, suc, ◌+◌, ◌-◌, ◌*◌, ◌/◌, ◌%◌, ◌^◌, Bool, not, List, Option, none, some, M, Outcome, ok,
  aborts, undefined, assume, pure, get_state, ◌>>=◌, ◌>>◌, ltb, leb, ◌==◌, if◌then◌else◌, length,
  get_elem?, set, replicate,
}
use kndb.Constants.{pg_sz, fsm_page_type, pgid_invalid}
use kndb.Cursor.{
  Cursor, start, read_bytes, write_bytes, read_word, write_word, page_sized, within_page,
}

pub record FsmPage : Type 0 where
  pub page_id : ℕ
  pub bitmap : List ℕ
  pub next_page_id : ℕ
  pub free_blocks : ℕ

-- `(PG_SZ - sizeof(u32) * 3) * 8`
abbrev pub bitmap_bytes : ℕ
bitmap_bytes = pg_sz - 4 * 3

abbrev pub get_blocks_in_page : ℕ
get_blocks_in_page = bitmap_bytes * 8

-- `!(byte & 1 << bit)` and `byte ^= 1 << bit`, at a byte of the bitmap.
unfoldable pub bit_is_free : ℕ → ℕ → Bool
bit_is_free byte bit = bit_and byte (2 ^ bit) == 0

unfoldable pub toggle : ℕ → ℕ → ℕ
toggle byte bit = bit_xor byte (2 ^ bit) % 256

-- `m_bitmap[i]`
unfoldable pub byte_at : ℕ → M FsmPage ℕ
byte_at i p = elim (get_elem? p.bitmap i) [ none ↦ undefined | some byte ↦ ok byte p ]

unfoldable pub get_space_left : M FsmPage ℕ
get_space_left p = ok p.free_blocks p

unfoldable pub is_free : ℕ → M FsmPage Bool
unfolding byte_at
is_free idx = do
  p ← get_state
  assume (ltb idx (length p.bitmap * 8))
  byte ← byte_at (idx / 8)
  pure (bit_is_free byte (idx % 8))

-- `m_bitmap[idx / 8] ^= 1 << (idx % 8)`
unfoldable pub toggle_bit : ℕ → M FsmPage (Unit {0})
unfolding byte_at
toggle_bit idx = do
  byte ← byte_at (idx / 8)
  (λ p. ok tt (record p { bitmap = set p.bitmap (idx / 8) (toggle byte (idx % 8)) }))

unfoldable pub alloc_bit : ℕ → M FsmPage (Unit {0})
unfolding is_free toggle_bit get_space_left
alloc_bit idx = do
  p ← get_state
  assume (ltb idx (length p.bitmap * 8))
  space ← get_space_left
  assume (ltb 0 space)
  free ← is_free idx
  assume free
  (λ p. ok tt (record p { free_blocks = (p.free_blocks + 2 ^ 32 - 1) % 2 ^ 32 }))
  toggle_bit idx

unfoldable pub free_bit : ℕ → M FsmPage (Unit {0})
unfolding is_free toggle_bit
free_bit idx = do
  free ← is_free idx
  assume (not free)
  p ← get_state
  assume (ltb p.free_blocks (length p.bitmap * 8))
  (λ p. ok tt (record p { free_blocks = (p.free_blocks + 1) % 2 ^ 32 }))
  toggle_bit idx

-- The loop of `findNextFree`, at index `i` with the given number of rounds left.
unfoldable pub scan : ℕ → ℕ → M FsmPage ℕ
scan zero i = λ p. aborts
scan (suc rounds) i = do
  free ← is_free i
  let rest = scan rounds (suc i)
  if free then pure i else rest

unfoldable pub find_next_free : M FsmPage ℕ
unfolding get_space_left
find_next_free = do
  space ← get_space_left
  assume (ltb 0 space)
  p ← get_state
  scan (length p.bitmap * 8) 0

unfoldable pub has_next_page : FsmPage → Bool
has_next_page p = not (p.next_page_id == pgid_invalid)

abbrev pub get_next_page_id : FsmPage → ℕ
get_next_page_id p = p.next_page_id

unfoldable pub set_next_page_id : ℕ → M FsmPage (Unit {0})
set_next_page_id page_id p = ok tt (record p { next_page_id = page_id })

-- The constructor of a new page.
unfoldable pub new_page : ℕ → Outcome FsmPage (Unit {0})
new_page page_id = alloc_bit 0 (record {
  page_id = page_id;
  bitmap = replicate bitmap_bytes 0;
  next_page_id = pgid_invalid;
  free_blocks = bitmap_bytes * 8;
})

write_body : FsmPage → M Cursor (Unit {0})
write_body p = do
  write_word 1 fsm_page_type
  write_word 4 p.next_page_id
  write_word 4 p.free_blocks
  write_bytes p.bitmap
  within_page

unfoldable pub to_bytes : FsmPage → List ℕ → Outcome Cursor (Unit {0})
unfolding write_body
to_bytes p buf = (do page_sized; write_body p) (start buf)

-- `m_bitmap.resize(PG_SZ - offset)`, and the `memcpy` of as many bytes.
read_rest : M Cursor (List ℕ)
read_rest = do c ← get_state; read_bytes (pg_sz - c.offset)

read_page : ℕ → M Cursor FsmPage
read_page page_id = do
  page_sized
  page_type_id ← read_word 1
  assume (page_type_id == fsm_page_type)
  next_page_id ← read_word 4
  free_blocks ← read_word 4
  bitmap ← read_rest
  within_page
  pure (record {
    page_id = page_id;
    bitmap = bitmap;
    next_page_id = next_page_id;
    free_blocks = free_blocks;
  })

-- The constructor from serialized data.
unfoldable pub from_bytes : List ℕ → ℕ → Outcome Cursor FsmPage
unfolding read_page read_rest
from_bytes bytes page_id = read_page page_id (start bytes)
