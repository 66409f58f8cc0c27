-- ===== src/Tests/InsertTests.antt =====
-- The theorems about insertions, where a leaf is split, and updates by src/backend/Btree.tpp at the tree of three nodes.
use kndb.Base.{◌≤◌, ℕ, refl, true, [], ◌∷◌, arith}
use kndb.Vari.{int}
use kndb.NodePage.{Cell}
use kndb.Btree.Tree.{cells_of}
use kndb.Btree.Shape.{occurs}
use kndb.Btree.Search.{TreeAt}
use kndb.Btree.Sound.{TreeOk}
use kndb.Btree.Update.{UpdateEnds, update_lem}
use kndb.Btree.Insertion.{HasCells, InsertEnds, InsertSearchEnds, insert_lem, insert_search_lem}
use kndb.Constants.{pgid_invalid}
use kndb.Tests.IoTests.{ram, ram-PosixLaws}
use kndb.Tests.VariTests.{memory}
use kndb.Tests.PagerTests.{pages, cache-IsOpen}
use kndb.Tests.BtreeTests.{
  three_nodes, three_nodes-TreeAt, three_nodes-Sorted, three_nodes-Ordinary, client,
}

pub three_nodes_once : (k : ℕ) → occurs k three_nodes ≤ 1
unfolding occurs
three_nodes_once k = ground arith

pub three_nodes-TreeOk : TreeOk pages 2 pgid_invalid true three_nodes
unfolding TreeOk TreeAt
three_nodes-TreeOk =
    let (at, fits, ((at_l, fits_l, none_l), ((at_r, fits_r, none_r), end))) = three_nodes-TreeAt in
    (
      at,
      record { fits = fits; degree = refl; parent = refl; is_root = refl },
      omega arith,
      (
        (
          at_l,
          record { fits = fits_l; degree = refl; parent = refl; is_root = refl },
          omega arith,
          tt,
        ),
        (
          (
            at_r,
            record { fits = fits_r; degree = refl; parent = refl; is_root = refl },
            omega arith,
            tt,
          ),
          tt,
        ),
      ),
    )

abbrev pub client-HasCells : HasCells 2 client (cells_of three_nodes)
client-HasCells = record {
  view = pages;
  ids = [];
  whole = three_nodes;
  opened = cache-IsOpen;
  stored = record {
    sound = three_nodes-TreeOk;
    once = three_nodes_once;
    root = refl;
    degree = refl;
  };
  holds = refl;
  sorted = three_nodes-Sorted;
  ordinary = three_nodes-Ordinary;
}

abbrev nine : Cell
nine = record { key = int 9; value = int 9 ∷ [] }

insert_example :
    InsertEnds ram memory ram-PosixLaws 2
      (omega arith)
      (omega arith)
      client
      (cells_of three_nodes)
      nine
      client-HasCells
insert_example =
    insert_lem ram memory ram-PosixLaws 2 (omega arith) (omega arith) client (cells_of three_nodes)
      nine tt client-HasCells

insert_search_example :
    InsertSearchEnds ram memory ram-PosixLaws 2
      (omega arith)
      (omega arith)
      client
      (cells_of three_nodes)
      nine
      (int 7)
insert_search_example =
    insert_search_lem ram memory ram-PosixLaws 2 (omega arith) (omega arith) client
      (cells_of three_nodes) nine (int 7) tt tt client-HasCells

update_example :
    UpdateEnds ram memory 2
      (omega arith)
      (int 7)
      (int 7 ∷ int 1 ∷ [])
      tt
      client
      (cells_of three_nodes)
      client-HasCells
update_example =
    update_lem ram memory 2 (omega arith) (int 7) (int 7 ∷ int 1 ∷ []) tt client
      (cells_of three_nodes) client-HasCells
