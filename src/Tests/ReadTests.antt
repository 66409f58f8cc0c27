-- ===== src/Tests/ReadTests.antt =====
-- The theorems about `readTuple`, `insertTuple` and `updateTuple` of src/backend/Table.cpp at a table of four rows.
use kndb.Base.{refl, [], ◌∷◌, arith}
use kndb.Vari.{int}
use kndb.Pager.Client.{Client}
use kndb.Table.{Table}
use kndb.Table.Read.{TablePageAt, ReadTupleEnds, read_tuple_ends}
use kndb.Btree.Tree.{cells_of}
use kndb.Table.Changes.{UpdateTupleEnds, update_tuple_lem}
use kndb.Table.Rows.{HasRows}
use kndb.Table.Inserts.{InsertTupleEnds, insert_tuple_lem}
use kndb.Tests.IoTests.{ram, ram-PosixLaws}
use kndb.Tests.InsertTests.{client-HasCells}
use kndb.Tests.VariTests.{memory}
use kndb.Tests.PagerTests.{pages, table_page, at_table, no_map_free, cache, cache-IsOpen}
use kndb.Tests.BtreeTests.{
  three_nodes, three_nodes-TreeAt, three_nodes-Sorted, three_nodes-Ordinary, three_nodes_low,
}

abbrev client : Client ram Table
client = record {
  pager = cache;
  self = record {
    btree = record { root_page_id = 1; degree = 2 };
    table_page_id = 4;
    name = b'T' ∷ [];
  };
}

table_page-TablePageAt : TablePageAt pages 4 table_page
table_page-TablePageAt = record {
  object = 4;
  shown = at_table;
  own = refl;
  used = no_map_free 4 (omega arith);
}

read_tuple_example :
    ReadTupleEnds ram memory pages [] client cache-IsOpen table_page table_page-TablePageAt
      (int 0)
      []
      refl
      (int 8)
      three_nodes
read_tuple_example =
    read_tuple_ends ram memory pages [] client cache-IsOpen table_page table_page-TablePageAt
      (int 0) [] refl (int 8) tt three_nodes three_nodes_low three_nodes-TreeAt three_nodes-Sorted
      three_nodes-Ordinary refl

four_rows : HasRows 2 client (int 0 ∷ []) (cells_of three_nodes)
unfolding cells_of
four_rows = record {
  tree = client-HasCells;
  page = table_page;
  at = table_page-TablePageAt;
  columns = refl;
  root = refl;
  counted = refl;
}

insert_tuple_example :
    InsertTupleEnds ram memory ram-PosixLaws 2
      (omega arith)
      (omega arith)
      client
      (int 0 ∷ [])
      (cells_of three_nodes)
      (int 9)
      []
insert_tuple_example =
    insert_tuple_lem ram memory ram-PosixLaws 2 (omega arith) (omega arith) client (int 0 ∷ [])
      (cells_of three_nodes) (int 9) [] tt four_rows

update_tuple_example :
    UpdateTupleEnds ram memory 2 (omega arith) client (int 0 ∷ []) (cells_of three_nodes) (int 7) []
update_tuple_example =
    update_tuple_lem ram memory 2 (omega arith) client (int 0 ∷ []) (cells_of three_nodes) (int 7)
      [] tt four_rows
