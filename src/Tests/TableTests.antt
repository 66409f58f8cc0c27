-- ===== src/Tests/TableTests.antt =====
-- Runs of the code of src/backend/TablePage.cpp.
use kndb.Base.{ℕ, ◌≡◌, [], ◌∷◌, replicate, length-replicate, ok, arith}
use kndb.Constants.{pg_sz}
use kndb.Cursor.{Cursor}
use kndb.Vari.{int, string}
use kndb.TablePage.{TablePage, to_bytes, from_bytes}
use kndb.TablePage.Format.{reread, table_from_bytes-to_bytes}

abbrev page : TablePage
page = record {
  page_id = 4;
  types = int 0 ∷ string [] ∷ int 7 ∷ [];
  btree_page_id = 5;
  num_tuples = 2;
}

table_from_bytes-to_bytes_example :
    (c : Cursor) × (d : Cursor) × (to_bytes page (replicate pg_sz 255) ≡ ok tt c)
    × (from_bytes c.bytes 4 ≡ ok (reread page 4) d)
table_from_bytes-to_bytes_example =
    table_from_bytes-to_bytes page 4 (replicate pg_sz 255) (omega arith) (omega arith) (omega arith)
      (omega arith) (length-replicate {A = ℕ} pg_sz 255)
