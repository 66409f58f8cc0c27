-- ===== src/Tests/SchemaTests.antt =====
-- The theorems about src/backend/SchemaPage.cpp at a page of two tables.
use kndb.Base.{
  ℕ, ◌≡◌, ◌<◌, ◌≤◌, ◌⊎◌, refl, true, false, List, [], ◌∷◌, none, replicate, length,
  length-replicate, ok, aborts, arith,
}
use kndb.Constants.{pg_sz, max_str_len}
use kndb.Cursor.{Cursor}
use kndb.Vari.Order.{same_string}
use kndb.SchemaPage.{SchemaPage, contains, add_table, remove_table, to_bytes, from_bytes}
use kndb.SchemaPage.Names.{IsSchema}
use kndb.SchemaPage.Changes.{Changed, added, add_table_ends, remove_table_ends}
use kndb.SchemaPage.Format.{schema_from_bytes-to_bytes}
use kndb.Tests.VariTests.{memory, memory-IsMemory}

abbrev cats : List ℕ
cats = b'c' ∷ b'a' ∷ b't' ∷ b's' ∷ []

abbrev dogs : List ℕ
dogs = b'd' ∷ b'o' ∷ b'g' ∷ b's' ∷ []

abbrev pets : SchemaPage
pets = record { page_id = 1; tables = (cats, 2) ∷ (dogs, 4) ∷ [] }

pets-IsSchema : IsSchema pets
unfolding contains same_string
pets-IsSchema = record {
  few = omega arith;
  entries = (
    (
      (omega arith, (omega arith, (omega arith, (omega arith, (omega arith, tt))))),
      omega arith,
      omega arith,
    ),
    (
      (
        (omega arith, (omega arith, (omega arith, (omega arith, (omega arith, tt))))),
        omega arith,
        omega arith,
      ),
      tt,
    ),
  );
  fresh = (refl, (refl, tt));
}

schema_from_bytes-to_bytes_example :
    (c : Cursor) × (d : Cursor) × (to_bytes memory pets (replicate pg_sz 0) ≡ ok tt c)
    × (from_bytes c.bytes 1 ≡ ok pets d)
schema_from_bytes-to_bytes_example =
    schema_from_bytes-to_bytes memory memory-IsMemory pets pets-IsSchema (replicate pg_sz 0)
      (length-replicate {A = ℕ} pg_sz 0)

abbrev fish : List ℕ
fish = b'f' ∷ b'i' ∷ b's' ∷ b'h' ∷ []

add_table_example :
    ((0 < length fish)
      × (length fish ≤ max_str_len)
      × (length pets.tables < 31)
      × (q : SchemaPage) × (add_table fish 7 pets ≡ ok tt q)
      × Changed pets fish (added pets fish 7) q)
    ⊎ (((length fish ≡ 0) ⊎ ((max_str_len < length fish) ⊎ (length pets.tables ≡ 31)))
        × (add_table fish 7 pets ≡ aborts))
add_table_example =
    add_table_ends pets pets-IsSchema fish 7 (omega arith)
      (omega arith, (omega arith, (omega arith, (omega arith, tt))))

remove_table_example :
    ((contains cats pets.tables ≡ true)
      × (q : SchemaPage) × (remove_table cats pets ≡ ok tt q)
      × Changed pets cats none q)
    ⊎ ((contains cats pets.tables ≡ false) × (remove_table cats pets ≡ aborts))
remove_table_example = remove_table_ends pets pets-IsSchema cats
