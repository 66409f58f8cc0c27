-- ===== src/Fsm/Format.antt =====
-- The serialized form of an `FSMPage` (src/backend/FSMPage.cpp). The constructor from bytes takes all
-- of the page behind the header, three bytes more than `toBytes` lays down for a new page.
use kndb.Base.{
  inl, inr, ◌/◌, ◌&&◌, Bool-cases, ltb→lt, get_elem?-append, All-append, All-drop, ℕ, zero, suc,
  ◌+◌, ◌-◌, ◌*◌, ◌<◌, ◌≤◌, ◌^◌, ◌≡◌, refl, sym, ◌∙◌, List, [], ◌∷◌, ◌++◌, append-nil, append_assoc,
  length, drop, arith, ok, length-append, length-drop, ltb,
}
use kndb.Base.Words.{word_bytes, length-word_bytes}
use kndb.Constants.{pg_sz, fsm_page_type}
use kndb.Cursor.{Cursor}
use kndb.Cursor.Laws.{
  at, Writes-from_start, page_sized-run, within_page-Writes, within_page-Reads, Writes,
  write_word-Writes, write_bytes-Writes, >>-Writes, read_word-Reads, read_bytes-Reads,
}
use kndb.Fsm.{
  read_rest, write_body, FsmPage, bitmap_bytes, get_blocks_in_page, to_bytes, from_bytes,
}
use kndb.Fsm.Bitmap.{Bytes, free_at, zeros_in, zeros_in-le}
use kndb.Fsm.Invariant.{IsValid}

abbrev pub image : FsmPage → List ℕ
image p =
    word_bytes 1 fsm_page_type
    ++ (word_bytes 4 p.next_page_id ++ (word_bytes 4 p.free_blocks ++ p.bitmap))

pub length-image : (p : FsmPage) → length (image p) ≡ 9 + length p.bitmap
length-image p = omega (
  arith,
  length-append (word_bytes 1 fsm_page_type)
      (word_bytes 4 p.next_page_id ++ (word_bytes 4 p.free_blocks ++ p.bitmap)),
  length-append (word_bytes 4 p.next_page_id) (word_bytes 4 p.free_blocks ++ p.bitmap),
  length-append (word_bytes 4 p.free_blocks) p.bitmap,
  length-word_bytes 1 fsm_page_type,
  length-word_bytes 4 p.next_page_id,
  length-word_bytes 4 p.free_blocks,
)

body-Writes : (p : FsmPage) → Writes (write_body p) (image p)
unfolding write_body
body-Writes p = >>-Writes (write_word-Writes 1 fsm_page_type) (
    >>-Writes (write_word-Writes 4 p.next_page_id) (
      >>-Writes (write_word-Writes 4 p.free_blocks)
        (rw (append-nil) at (>>-Writes (write_bytes-Writes p.bitmap) within_page-Writes))))

-- `toBytes` on a buffer of one page lays down the image and leaves the rest of the buffer alone.
pub to_bytes_lem :
    (p : FsmPage) (buf : List ℕ)
    → length p.bitmap ≤ bitmap_bytes + 3
    → length buf ≡ pg_sz
    → to_bytes p buf ≡ ok tt (at (image p) (drop (length (image p)) buf))
unfolding to_bytes
to_bytes_lem p buf short size =
    rw (page_sized-run buf size)
      (Writes-from_start buf (body-Writes p) size (omega (arith, length-image p)))

-- The page that the constructor makes of the image with `rest` behind it.
abbrev reread : FsmPage → ℕ → List ℕ → FsmPage
reread p page_id rest = record p { page_id = page_id; bitmap = p.bitmap ++ rest }

rest_run :
    (before source : List ℕ)
    → length before + length source ≡ pg_sz
    → read_rest (at before source) ≡ ok source (at (before ++ source) [])
unfolding read_rest
rest_run before source e =
    rw (append-nil) at
      ((read_bytes-Reads (pg_sz - length before) source (omega arith)).run before [] (omega arith))

from_bytes_lem :
    (p : FsmPage) (page_id : ℕ) (rest : List ℕ)
    → p.next_page_id < 2 ^ 32
    → p.free_blocks < 2 ^ 32
    → length (image p ++ rest) ≡ pg_sz
    → (c : Cursor) × (from_bytes (image p ++ rest) page_id ≡ ok (reread p page_id rest) c)
unfolding from_bytes
from_bytes_lem p page_id rest next free size = (
  at (whole ++ []) [],
  rw (page_sized-run (image p ++ rest) size, regroup)
      (rw
        ((read_word-Reads 1 fsm_page_type (omega arith)).run [] (n ++ (f ++ (p.bitmap ++ rest)))
          (omega (arith, length-word_bytes 1 fsm_page_type)))
        (rw
          ((read_word-Reads 4 p.next_page_id (omega arith)).run t (f ++ (p.bitmap ++ rest))
            (omega (arith, length-word_bytes 1 fsm_page_type, length-word_bytes 4 p.next_page_id)))
          (rw
            ((read_word-Reads 4 p.free_blocks (omega arith)).run (t ++ n) (p.bitmap ++ rest) (
              omega (
                arith,
                length-append t n,
                length-word_bytes 1 fsm_page_type,
                length-word_bytes 4 p.next_page_id,
                length-word_bytes 4 p.free_blocks,
              )))
            (rw (
              rest_run (t ++ n ++ f) (p.bitmap ++ rest) tail,
              within_page-Reads.run whole []
                  (omega (arith, length-append (t ++ n ++ f) (p.bitmap ++ rest), tail)),
            ))))),
)
  where
    t : List ℕ
    t = word_bytes 1 fsm_page_type

    n : List ℕ
    n = word_bytes 4 p.next_page_id

    f : List ℕ
    f = word_bytes 4 p.free_blocks

    regroup : image p ++ rest ≡ t ++ (n ++ (f ++ (p.bitmap ++ rest)))
    regroup = simp append_assoc

    whole : List ℕ
    whole = t ++ n ++ f ++ (p.bitmap ++ rest)

    tail : length (t ++ n ++ f) + length (p.bitmap ++ rest) ≡ pg_sz
    tail = omega (
      arith,
      size,
      length-append (image p) rest,
      length-image p,
      length-append p.bitmap rest,
      length-append (t ++ n) f,
      length-append t n,
      length-word_bytes 1 fsm_page_type,
      length-word_bytes 4 p.next_page_id,
      length-word_bytes 4 p.free_blocks,
    )

zeros_in-append : (n : ℕ) (xs ys : List ℕ) → n ≤ length xs → zeros_in n (xs ++ ys) ≡ zeros_in n xs
unfolding zeros_in
zeros_in-append zero xs ys h = refl
zeros_in-append (suc n) [] ys h = absurd (omega arith)
zeros_in-append (suc n) (x ∷ xs) ys h = omega (arith, zeros_in-append n xs ys (omega arith))

free_at-append :
    (bs rest : List ℕ) (j : ℕ)
    → get_blocks_in_page ≤ length bs * 8
    → (ltb j get_blocks_in_page && free_at (bs ++ rest) j)
      ≡ (ltb j get_blocks_in_page && free_at bs j)
unfolding free_at
free_at-append bs rest j h = elim (Bool-cases (ltb j get_blocks_in_page)) [
  | inl e ↦ rw (get_elem?-append bs rest (j / 8) (omega (arith, ltb→lt j get_blocks_in_page e)))
  | inr e ↦ rw e
]

-- `q` is `p` as far as its blocks go.
pub record SameBlocks (p q : FsmPage) : Type 0 where
  pub valid : IsValid q
  pub same_next : q.next_page_id ≡ p.next_page_id
  pub same_count : q.free_blocks ≡ p.free_blocks
  pub same_bits :
      (j : ℕ)
      → (ltb j get_blocks_in_page && free_at q.bitmap j)
        ≡ (ltb j get_blocks_in_page && free_at p.bitmap j)

-- Writing a valid page to a buffer of one page and reading it back gives a valid page with the id that
-- it is read under, the same link, the same count and the same bits for all its blocks.
pub from_bytes-to_bytes :
    (p : FsmPage) (page_id : ℕ) (buf : List ℕ)
    → IsValid p
    → p.next_page_id < 2 ^ 32
    → length buf ≡ pg_sz
    → Bytes buf
    → (c : Cursor) × (d : Cursor) × (q : FsmPage) × (to_bytes p buf ≡ ok tt c)
      × (from_bytes c.bytes page_id ≡ ok q d)
      × (q.page_id ≡ page_id)
      × SameBlocks p q
from_bytes-to_bytes p page_id buf v next size bytes =
    let rest = drop (length (image p)) buf in
    let l = length-image p in
    let total : length (image p ++ rest) ≡ pg_sz =
      omega (arith, v.short, length-append (image p) rest, length-drop (length (image p)) buf) in
    let (d, read) =
      from_bytes_lem p page_id rest next
        (omega (arith, v.counted, zeros_in-le bitmap_bytes p.bitmap)) total in
    (
      at (image p) rest,
      d,
      reread p page_id rest,
      to_bytes_lem p buf v.short size,
      read,
      refl,
      record {
        valid = record {
          long = omega (arith, v.long, length-append p.bitmap rest);
          short = omega (arith, total, length-append (image p) rest, length-append p.bitmap rest);
          bytes =
              All-append (λ b. b < 256) p.bitmap rest v.bytes
                (All-drop (λ b. b < 256) (length (image p)) buf bytes);
          counted = v.counted ∙ sym (zeros_in-append bitmap_bytes p.bitmap rest v.long);
        };
        same_next = refl;
        same_count = refl;
        same_bits = λ j. free_at-append p.bitmap rest j (omega (arith, v.long));
      },
    )
