-- ===== src/Tests/BtreeTests.antt =====
-- The theorems about src/backend/Btree.tpp at a tree of three nodes.
use kndb.Base.{◌≡◌, ◌≤◌, refl, [], ◌∷◌, some, ok, arith}
use kndb.Vari.{int}
use kndb.Vari.Order.{less, equal, less_value, index, equal_value}
use kndb.NodePage.{well_shaped}
use kndb.Pager.Client.{Client}
use kndb.Pager.Invariant.{IsOpen}
use kndb.Btree.{Btree, search, max_depth}
use kndb.Btree.Lookup.{find_key, Sorted, Ordinary}
use kndb.Btree.Tree.{Tree, tree, none_left, child, cells_of, count, height}
use kndb.Btree.Search.{TreeAt, Finds, value_of, search_lem, search_row_ptr_lem}
use kndb.Tests.IoTests.{ram}
use kndb.Tests.VariTests.{memory}
use kndb.Tests.PagerTests.{
  root_node, left_node, right_node, pages, at_root, at_left, at_right, no_map_free, cache,
  cache-IsOpen,
}

abbrev pub three_nodes : Tree
three_nodes =
    tree 1 root_node
      (child (tree 2 left_node none_left) (child (tree 3 right_node none_left) none_left))

pub three_nodes-TreeAt : TreeAt pages three_nodes
unfolding TreeAt well_shaped count
three_nodes-TreeAt = (
  record { object = 1; shown = at_root; own = refl; used = no_map_free 1 (omega arith) },
  record { shaped = refl; children = refl; leaf = λ e. cc; inner = λ e. refl; few = omega arith },
  (
    (
      record { object = 2; shown = at_left; own = refl; used = no_map_free 2 (omega arith) },
      record {
        shaped = refl;
        children = refl;
        leaf = λ e. refl;
        inner = λ e. cc;
        few = omega arith;
      },
      tt,
    ),
    (
      (
        record { object = 3; shown = at_right; own = refl; used = no_map_free 3 (omega arith) },
        record {
          shaped = refl;
          children = refl;
          leaf = λ e. refl;
          inner = λ e. cc;
          few = omega arith;
        },
        tt,
      ),
      tt,
    ),
  ),
)

pub three_nodes-Sorted : Sorted (cells_of three_nodes)
unfolding cells_of less less_value index
three_nodes-Sorted = ((refl, (refl, (refl, tt))), ((refl, (refl, tt)), ((refl, tt), (tt, tt))))

pub three_nodes-Ordinary : Ordinary (cells_of three_nodes)
unfolding cells_of
three_nodes-Ordinary = (tt, (tt, (tt, (tt, tt))))

pub three_nodes_low : height three_nodes ≤ max_depth
unfolding height
three_nodes_low = omega arith

abbrev pub client : Client ram Btree
client = record { pager = cache; self = record { root_page_id = 1; degree = 2 } }

search_example :
    (s' : Client ram Btree) × (search ram memory (int 8) client
      ≡ ok (value_of (find_key (int 8) (cells_of three_nodes))) s')
    × IsOpen s'.pager pages []
    × (s'.self ≡ client.self)
search_example =
    search_lem ram memory pages [] (int 8) tt three_nodes three_nodes_low three_nodes-TreeAt
      three_nodes-Sorted three_nodes-Ordinary client cache-IsOpen refl

search_row_ptr_example : Finds ram memory pages [] (int 8) tt 2 three_nodes
search_row_ptr_example =
    search_row_ptr_lem ram memory pages [] (int 8) tt 2 three_nodes (unfold height in omega arith)
      three_nodes-TreeAt three_nodes-Sorted three_nodes-Ordinary

found_eight : value_of (find_key (int 8) (cells_of three_nodes)) ≡ some (int 8 ∷ [])
unfolding find_key cells_of equal equal_value index
found_eight = refl
