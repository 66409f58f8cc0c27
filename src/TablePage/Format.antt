-- ===== src/TablePage/Format.antt =====
-- The serialized form of src/backend/TablePage.cpp.
use kndb.Base.{
  ℕ, ◌+◌, ◌%◌, ◌^◌, ◌<◌, ◌≤◌, ◌≡◌, List, [], ◌∷◌, ◌++◌, map, append-nil, ok, length, drop, arith,
  length-append, length-drop, take_all, lt→ltb,
}
use kndb.Base.Words.{word_bytes, length-word_bytes}
use kndb.Constants.{pg_sz, table_page_type}
use kndb.Cursor.{Cursor}
use kndb.Cursor.Laws.{
  at, Writes, Reads, >>-Writes, >>=-Reads, pure-Reads, write_word-Writes, read_word-Reads,
  within_page-Writes, within_page-Reads, page_sized-run, Writes-from_start, Reads-from_start,
}
use kndb.Vari.{Vari, visit_type_id, type_of}
use kndb.Vari.Codec.Types.{
  type_bytes, length-type_bytes, visit_type_id_small, variant_to_type_id_lem, last-Reads,
  assume-Reads, type-Reads,
}
use kndb.TablePage.{TablePage, write_types, write_body, to_bytes, read_types, read_body, from_bytes}

write_types-Writes : (vs : List Vari) → Writes (write_types vs) (type_bytes vs)
unfolding write_types type_bytes
write_types-Writes [] = record { run = λ before after room small. rw (append-nil) }
write_types-Writes (v ∷ vs) = record {
  run = λ before after room small. rw (variant_to_type_id_lem v (at before after)) (
      (>>-Writes (write_word-Writes 1 (visit_type_id v)) (write_types-Writes vs)).run before after
        room small);
}

read_types-Reads :
    (vs : List Vari) → Reads (read_types (length vs)) (type_bytes vs) (map type_of vs)
unfolding read_types type_bytes
read_types-Reads [] = pure-Reads []
read_types-Reads (v ∷ vs) =
    >>=-Reads _ (read_word-Reads 1 (visit_type_id v) (visit_type_id_small v)) (
      >>=-Reads _ (type-Reads v)
        (last-Reads _ (read_types-Reads vs) (pure-Reads (type_of v ∷ map type_of vs))))

image : TablePage → List ℕ
image p =
    word_bytes 1 table_page_type
    ++ (word_bytes 2 (length p.types)
        ++ (type_bytes p.types ++ (word_bytes 4 p.btree_page_id ++ word_bytes 8 p.num_tuples)))

length-image : (p : TablePage) → length (image p) ≡ 15 + length p.types
unfolding image
length-image p = omega (
  arith,
  length-append (word_bytes 1 table_page_type) (
      word_bytes 2 (length p.types)
      ++ (type_bytes p.types ++ (word_bytes 4 p.btree_page_id ++ word_bytes 8 p.num_tuples))),
  length-append (word_bytes 2 (length p.types))
      (type_bytes p.types ++ (word_bytes 4 p.btree_page_id ++ word_bytes 8 p.num_tuples)),
  length-append (type_bytes p.types) (word_bytes 4 p.btree_page_id ++ word_bytes 8 p.num_tuples),
  length-append (word_bytes 4 p.btree_page_id) (word_bytes 8 p.num_tuples),
  length-type_bytes p.types,
  length-word_bytes 1 table_page_type,
  length-word_bytes 2 (length p.types),
  length-word_bytes 4 p.btree_page_id,
  length-word_bytes 8 p.num_tuples,
)

body-Writes : (p : TablePage) → length p.types < 2 ^ 16 → Writes (write_body p) (image p)
unfolding write_body image
body-Writes p few =
    let wide : length p.types % 2 ^ 16 ≡ length p.types = omega arith in
    rw (wide, take_all (length p.types) p.types (omega arith))
      (>>-Writes (write_word-Writes 1 table_page_type) (
        >>-Writes (write_word-Writes 2 (length p.types)) (
          >>-Writes (write_types-Writes p.types) (
            >>-Writes (write_word-Writes 4 p.btree_page_id) (
              rw (append-nil) at
                (>>-Writes (write_word-Writes 8 p.num_tuples) within_page-Writes))))))

-- The page that is read back: the values of the types are those that a type id stands for.
abbrev pub reread : TablePage → ℕ → TablePage
reread p page_id = record p { page_id = page_id; types = map type_of p.types }

body-Reads :
    (p : TablePage) (page_id : ℕ)
    → 0 < length p.types
    → length p.types < 2 ^ 16
    → p.btree_page_id < 2 ^ 32
    → p.num_tuples < 2 ^ 64
    → Reads (read_body page_id) (image p) (reread p page_id)
unfolding read_body image
body-Reads p page_id some_types few small count =
    >>=-Reads _ (read_word-Reads 1 table_page_type (omega arith)) (
      >>=-Reads _ (read_word-Reads 2 (length p.types) (omega arith)) (
        >>=-Reads _ (assume-Reads (lt→ltb 0 (length p.types) some_types)) (
          >>=-Reads _ (read_types-Reads p.types) (
            >>=-Reads _ (read_word-Reads 4 p.btree_page_id (omega arith)) (
              last-Reads _ (read_word-Reads 8 p.num_tuples (omega arith))
                (>>=-Reads _ within_page-Reads (pure-Reads (reread p page_id))))))))

-- A page with from one to 3996 types that is written to a buffer of one page and read back has the id it is
-- read under, and the types, the id of the tree and the count that were written.
pub table_from_bytes-to_bytes :
    (p : TablePage) (page_id : ℕ) (buf : List ℕ)
    → 0 < length p.types
    → length p.types ≤ 3996
    → p.btree_page_id < 2 ^ 32
    → p.num_tuples < 2 ^ 64
    → length buf ≡ pg_sz
    → (c : Cursor) × (d : Cursor) × (to_bytes p buf ≡ ok tt c)
      × (from_bytes c.bytes page_id ≡ ok (reread p page_id) d)
unfolding to_bytes from_bytes
table_from_bytes-to_bytes p page_id buf some_types few small count size =
    let fits : length (image p) ≤ pg_sz = omega (arith, length-image p) in
    let after : List ℕ = drop (length (image p)) buf in
    let whole : length (image p ++ after) ≡ pg_sz =
      omega (arith, length-append (image p) after, length-drop (length (image p)) buf) in
    (
      at (image p) after,
      at (image p) after,
      rw (page_sized-run buf size) (Writes-from_start buf (body-Writes p (omega arith)) size fits),
      rw (page_sized-run (image p ++ after) whole)
          (Reads-from_start after (body-Reads p page_id some_types (omega arith) small count) fits),
    )
