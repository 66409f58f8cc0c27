-- ===== src/SchemaPage/Format.antt =====
-- The serialized form of src/backend/SchemaPage.cpp.
use kndb.Base.{
  ℕ, ◌+◌, ◌*◌, ◌%◌, ◌^◌, ◌<◌, ◌≤◌, ◌≡◌, refl, ap, ◌∙◌, List, [], ◌∷◌, ◌++◌, append_assoc,
  append-nil, ok, length, drop, arith, All, length-append, length-drop, lt→ltb,
}
use kndb.Base.Words.{word_bytes, length-word_bytes}
use kndb.Constants.{pg_sz, schema_page_type}
use kndb.Cursor.{Cursor}
use kndb.Cursor.Laws.{
  at, Writes, Reads, >>-Writes, >>=-Reads, pure-Reads, write_word-Writes, write_bytes-Writes,
  read_word-Reads, within_page-Writes, page_sized-run, Writes-from_start,
}
use kndb.Vari.Codec.{Memory, IsMemory, string_image, db_serialize_string}
use kndb.Vari.Codec.Roundtrip.{length-string_image, string-Reads}
use kndb.SchemaPage.{
  SchemaPage, write_tables, write_body, to_bytes, read_tables, read_body, from_bytes,
}
use kndb.SchemaPage.Names.{Fresh, IsEntry, IsSchema, emplace_new}

tables_bytes : Memory → List (List ℕ × ℕ) → List ℕ
tables_bytes mem [] = []
tables_bytes mem ((name, id) ∷ rest) =
    string_image mem name ++ (word_bytes 4 id ++ tables_bytes mem rest)

page_bytes : Memory → SchemaPage → List ℕ
page_bytes mem p =
    word_bytes 1 schema_page_type ++ (word_bytes 1 (length p.tables) ++ tables_bytes mem p.tables)

write_tables-Writes :
    (mem : Memory) (tables : List (List ℕ × ℕ))
    → Writes (write_tables mem tables) (tables_bytes mem tables)
unfolding write_tables tables_bytes db_serialize_string
write_tables-Writes mem [] = record { run = λ before after room small. rw (append-nil) }
write_tables-Writes mem ((name, id) ∷ rest) =
    >>-Writes (write_bytes-Writes (string_image mem name))
      (>>-Writes (write_word-Writes 4 id) (write_tables-Writes mem rest))

body-Writes :
    (mem : Memory) (p : SchemaPage)
    → length p.tables < 256
    → Writes (write_body mem p) (page_bytes mem p)
unfolding write_body page_bytes
body-Writes mem p few =
    let wide : length p.tables % 2 ^ 8 ≡ length p.tables = omega arith in
    rw wide (
      >>-Writes (write_word-Writes 1 schema_page_type) (
        >>-Writes (write_word-Writes 1 (length p.tables))
          (rw (append-nil) at (>>-Writes (write_tables-Writes mem p.tables) within_page-Writes))))

module _ (mem : Memory) (good : IsMemory mem) where
  length-tables_bytes :
      (tables : List (List ℕ × ℕ)) → length (tables_bytes mem tables) ≡ length tables * 132
  unfolding tables_bytes
  length-tables_bytes [] = refl
  length-tables_bytes ((name, id) ∷ rest) = omega (
    arith,
    length-append (string_image mem name) (word_bytes 4 id ++ tables_bytes mem rest),
    length-append (word_bytes 4 id) (tables_bytes mem rest),
    length-string_image mem good name,
    length-word_bytes 4 id,
    length-tables_bytes rest,
  )

  length-page_bytes : (p : SchemaPage) → length (page_bytes mem p) ≡ 2 + length p.tables * 132
  unfolding page_bytes
  length-page_bytes p = omega (
    arith,
    length-append (word_bytes 1 schema_page_type)
        (word_bytes 1 (length p.tables) ++ tables_bytes mem p.tables),
    length-append (word_bytes 1 (length p.tables)) (tables_bytes mem p.tables),
    length-word_bytes 1 schema_page_type,
    length-word_bytes 1 (length p.tables),
    length-tables_bytes p.tables,
  )

  read_tables-Reads :
      (before tables : List (List ℕ × ℕ))
      → Fresh before tables
      → All IsEntry tables
      → Reads (read_tables (length tables) before) (tables_bytes mem tables) (before ++ tables)
  unfolding read_tables tables_bytes
  read_tables-Reads before [] fresh h = rw (append-nil) (pure-Reads before)
  read_tables-Reads before ((name, id) ∷ rest) fresh h =
      let others = read_tables-Reads (before ++ (name, id) ∷ []) rest fresh.1 h.1 in
      >>=-Reads _ (string-Reads mem good name h.0.0) (
        >>=-Reads _ (read_word-Reads 4 id (omega (arith, h.0.2))) (
          rw (emplace_new name id before fresh.0)
            (rw (append_assoc before ((name, id) ∷ []) rest) at others)))

  read_body-run :
      (p : SchemaPage) (rest : List ℕ)
      → IsSchema p
      → length (page_bytes mem p ++ rest) ≡ pg_sz
      → (d : Cursor) × (from_bytes (page_bytes mem p ++ rest) p.page_id ≡ ok p d)
  unfolding from_bytes read_body page_bytes
  read_body-run p rest s size = (
    at ((kind ++ count) ++ tables) rest,
    rw (page_sized-run (page_bytes mem p ++ rest) size, regroup)
        (rw
          ((read_word-Reads 1 schema_page_type (omega arith)).run [] (count ++ (tables ++ rest))
            (omega (arith, kind_size)))
          (rw
            ((read_word-Reads 1 (length p.tables) (omega (arith, s.few))).run kind (tables ++ rest)
              (omega (arith, kind_size, count_size)))
            (rw
              ((read_tables-Reads [] p.tables s.fresh s.entries).run (kind ++ count) rest (
                omega (arith, s.few, kind_size, count_size, length-append kind count, tables_size)))
              (rw
                (lt→ltb (length ((kind ++ count) ++ tables)) pg_sz (
                  omega (
                    arith,
                    s.few,
                    kind_size,
                    count_size,
                    length-append kind count,
                    length-append (kind ++ count) tables,
                    tables_size,
                  )))
                refl)))),
  )
    where
      kind : List ℕ
      kind = word_bytes 1 schema_page_type

      count : List ℕ
      count = word_bytes 1 (length p.tables)

      tables : List ℕ
      tables = tables_bytes mem p.tables

      kind_size : length kind ≡ 1
      kind_size = length-word_bytes 1 schema_page_type

      count_size : length count ≡ 1
      count_size = length-word_bytes 1 (length p.tables)

      tables_size : length tables ≡ length p.tables * 132
      tables_size = length-tables_bytes p.tables

      regroup : page_bytes mem p ++ rest ≡ kind ++ (count ++ (tables ++ rest))
      regroup =
          append_assoc kind (count ++ tables) rest
          ∙ ap (λ l. kind ++ l) (append_assoc count tables rest)

-- A page of at most 31 tables, with different names of 1 to 127 characters without NUL, is written to
-- a buffer of one page with no assertion failing and read back with the same tables.
pub schema_from_bytes-to_bytes :
    (mem : Memory)
    → IsMemory mem
    → (p : SchemaPage) → IsSchema p
    → (buf : List ℕ) → length buf ≡ pg_sz
    → (c : Cursor) × (d : Cursor) × (to_bytes mem p buf ≡ ok tt c)
      × (from_bytes c.bytes p.page_id ≡ ok p d)
unfolding to_bytes
schema_from_bytes-to_bytes mem good p s buf size =
    let wide = length-page_bytes mem good p in
    let fits : length (page_bytes mem p) ≤ pg_sz = omega (arith, wide, s.few) in
    let after : List ℕ = drop (length (page_bytes mem p)) buf in
    let whole : length (page_bytes mem p ++ after) ≡ pg_sz = omega (
      arith,
      length-append (page_bytes mem p) after,
      length-drop (length (page_bytes mem p)) buf,
    ) in
    let (d, read) = read_body-run mem good p after s whole in
    (
      at (page_bytes mem p) after,
      d,
      rw (page_sized-run buf size)
          (Writes-from_start buf (body-Writes mem p (omega (arith, s.few))) size fits),
      read,
    )
