-- ===== src/Tests/FsmTests.antt =====
-- Runs of the code of src/backend/FSMPage.cpp.
use kndb.Base.{◌<◌, ℕ, ◌<◌, ◌≡◌, refl, ◌>>◌, ok, arith, replicate, length-replicate, All-replicate}
use kndb.Constants.{pg_sz}
use kndb.Cursor.{Cursor}
use kndb.Fsm.{FsmPage, bitmap_bytes, alloc_bit, free_bit, to_bytes, from_bytes, new_page}
use kndb.Fsm.Invariant.{IsValid, Allocates, Frees, alloc_bit_lem, free_bit_lem, free_bit-alloc_bit}
use kndb.Fsm.Scan.{
  FindsFirst, IsFresh, blank, blank-IsValid, find_next_free_lem, new_page_lem, free_at-blank,
}
use kndb.Fsm.Format.{SameBlocks, from_bytes-to_bytes}

page : FsmPage
page = blank bitmap_bytes 7

page-IsValid : IsValid page
unfolding page
page-IsValid = blank-IsValid bitmap_bytes 7 refl

alloc_bit_example : Allocates page 12
alloc_bit_example = alloc_bit_lem page 12 page-IsValid (omega arith)

free_bit_example : Frees page 12
free_bit_example = free_bit_lem page 12 page-IsValid (omega arith)

free_bit-alloc_bit_example : (alloc_bit 12 >> free_bit 12) page ≡ ok tt page
free_bit-alloc_bit_example =
    free_bit-alloc_bit page 12 page-IsValid (omega arith)
      (unfold page in free_at-blank bitmap_bytes 7 12 (omega arith))

find_next_free_example : FindsFirst page
find_next_free_example = find_next_free_lem page page-IsValid

new_page_example : (p : FsmPage) × (new_page 3 ≡ ok tt p) × IsFresh p 3
new_page_example = new_page_lem 3

from_bytes-to_bytes_example :
    (c : Cursor) × (d : Cursor) × (q : FsmPage) × (to_bytes page (replicate pg_sz 255) ≡ ok tt c)
    × (from_bytes c.bytes 7 ≡ ok q d)
    × (q.page_id ≡ 7)
    × SameBlocks page q
from_bytes-to_bytes_example =
    from_bytes-to_bytes page 7 (replicate pg_sz 255) page-IsValid (unfold page blank in omega arith)
      (length-replicate {A = ℕ} pg_sz 255) (All-replicate (λ b. b < 256) pg_sz 255 (omega arith))
