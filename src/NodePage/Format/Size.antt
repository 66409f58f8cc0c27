-- ===== src/NodePage/Format/Size.antt =====
-- How long the serialized form of a node of src/backend/BtreeNodePage.tpp is.
use kndb.Base.{
  ℕ, suc, ◌+◌, ◌*◌, ◌<◌, ◌≤◌, ◌≡◌, refl, sym, ap, ◌∙◌, Bool, true, false, List, [], ◌∷◌, ◌++◌, map,
  length, arith, All, length-append,
}
use kndb.Base.Words.{word_bytes, length-word_bytes}
use kndb.Constants.{btree_node_page_type}
use kndb.Vari.{Vari, int, char, bool, float, double, string, visit_type_id, type_of, db_sizeof}
use kndb.Vari.Codec.{Memory, IsMemory, bool_byte}
use kndb.Vari.Codec.Roundtrip.{image, length-image}
use kndb.Vari.Codec.Types.{type_bytes, length-type_bytes}
use kndb.Vari.Degree.{row_size}
use kndb.NodePage.{NodePage, Cell}
use kndb.NodePage.Format.{
  IsCell, HasBranches, values_bytes, cells_bytes, children_bytes, links_bytes, rest_bytes,
  node_bytes,
}

length-types : (vs : List Vari) → length (map type_of vs) ≡ length vs
length-types [] = refl
length-types (v ∷ vs) = ap suc (length-types vs)

pub same_length : (vs ws : List Vari) → map type_of vs ≡ map type_of ws → length vs ≡ length ws
same_length vs ws e = sym (length-types vs) ∙ ap length e ∙ length-types ws

length-values_bytes :
    (mem : Memory) → IsMemory mem → (vs : List Vari) → length (values_bytes mem vs) ≡ row_size vs
unfolding values_bytes row_size
length-values_bytes mem good [] = refl
length-values_bytes mem good (v ∷ vs) = omega (
  arith,
  length-append (image mem v) (values_bytes mem vs),
  length-image mem good v,
  length-values_bytes mem good vs,
)

db_sizeof-type_of : (v : Vari) → db_sizeof (type_of v) ≡ db_sizeof v
unfolding db_sizeof type_of
db_sizeof-type_of (int n) = refl
db_sizeof-type_of (char n) = refl
db_sizeof-type_of (bool b) = refl
db_sizeof-type_of (float n) = refl
db_sizeof-type_of (double n) = refl
db_sizeof-type_of (string s) = refl

row_size-types : (vs : List Vari) → row_size (map type_of vs) ≡ row_size vs
unfolding row_size
row_size-types [] = refl
row_size-types (v ∷ vs) = omega (arith, db_sizeof-type_of v, row_size-types vs)

-- Cells of the same types are as long as another.
length-cells_bytes :
    (mem : Memory)
    → IsMemory mem
    → (key : Vari) (values : List Vari) (cs : List Cell) → All (IsCell key values) cs
    → length (cells_bytes mem cs) ≡ length cs * (db_sizeof key + row_size values)
unfolding cells_bytes
length-cells_bytes mem good key values [] h = omega arith
length-cells_bytes mem good key values (c ∷ cs) h =
    let same_key : db_sizeof c.key ≡ db_sizeof key =
      sym (db_sizeof-type_of c.key) ∙ ap db_sizeof h.0.0 ∙ db_sizeof-type_of key in
    let same_row : row_size c.value ≡ row_size values =
      sym (row_size-types c.value) ∙ ap row_size h.0.1 ∙ row_size-types values in
    let others = length-cells_bytes mem good key values cs h.1 in
    let whole = length-append (image mem c.key) (values_bytes mem c.value ++ cells_bytes mem cs) in
    let row = length-append (values_bytes mem c.value) (cells_bytes mem cs) in
    let key_size = length-image mem good c.key in
    let value_size = length-values_bytes mem good c.value in grind arith

length-children_bytes : (cs : List ℕ) → length (children_bytes cs) ≡ length cs * 4
unfolding children_bytes
length-children_bytes [] = refl
length-children_bytes (c ∷ cs) = omega (
  arith,
  length-append (word_bytes 4 c) (children_bytes cs),
  length-word_bytes 4 c,
  length-children_bytes cs,
)

length-links_bytes :
    (leaf : Bool) (cs : List ℕ) (n : ℕ)
    → HasBranches leaf cs n
    → length (links_bytes leaf cs) ≤ n * 4
unfolding links_bytes
length-links_bytes true cs n h = omega arith
length-links_bytes false cs n h = omega (arith, length-children_bytes cs, h)

module _ (mem : Memory) (good : IsMemory mem) (key : Vari) (values : List Vari) where
  length-rest_bytes :
      (leaf : Bool) (children : List ℕ) (cs : List Cell)
      → All (IsCell key values) cs
      → (0 < length cs → HasBranches leaf children (length cs + 1))
      → length (rest_bytes mem leaf children cs)
        ≤ 2 + length values + length cs * (db_sizeof key + row_size values) + (length cs + 1) * 4
  unfolding rest_bytes
  length-rest_bytes leaf children [] h links = omega arith
  length-rest_bytes leaf children (first ∷ others) h links = omega (
    arith,
    length-append (word_bytes 1 (visit_type_id first.key)) (
        word_bytes 1 (length first.value)
        ++ (type_bytes first.value
            ++ (cells_bytes mem (first ∷ others) ++ links_bytes leaf children))),
    length-append (word_bytes 1 (length first.value))
        (type_bytes first.value ++ (cells_bytes mem (first ∷ others) ++ links_bytes leaf children)),
    length-append (type_bytes first.value)
        (cells_bytes mem (first ∷ others) ++ links_bytes leaf children),
    length-append (cells_bytes mem (first ∷ others)) (links_bytes leaf children),
    length-word_bytes 1 (visit_type_id first.key),
    length-word_bytes 1 (length first.value),
    length-type_bytes first.value,
    same_length first.value values h.0.1,
    length-cells_bytes mem good key values (first ∷ others) h,
    length-links_bytes leaf children (length (first ∷ others) + 1) (links (omega arith)),
  )

  -- The metadata takes at most 15 bytes and one for each column.
  pub length-node_bytes :
      (p : NodePage)
      → All (IsCell key values) p.cells
      → (0 < length p.cells → HasBranches p.leaf p.children (length p.cells + 1))
      → length (node_bytes mem p)
        ≤ 15
          + length values
          + length p.cells * (db_sizeof key + row_size values)
          + (length p.cells + 1) * 4
  unfolding node_bytes
  length-node_bytes p h links =
      let rest = rest_bytes mem p.leaf p.children p.cells in
      let count = word_bytes 4 (length p.cells) in
      let root = word_bytes 1 (bool_byte p.root) in
      let leaf = word_bytes 1 (bool_byte p.leaf) in
      let parent = word_bytes 4 p.parent_id in
      let degree = word_bytes 2 p.degree in
      let type = word_bytes 1 btree_node_page_type in
      omega (
        arith,
        length-append type (degree ++ (parent ++ (leaf ++ (root ++ (count ++ rest))))),
        length-append degree (parent ++ (leaf ++ (root ++ (count ++ rest)))),
        length-append parent (leaf ++ (root ++ (count ++ rest))),
        length-append leaf (root ++ (count ++ rest)),
        length-append root (count ++ rest),
        length-append count rest,
        length-word_bytes 1 btree_node_page_type,
        length-word_bytes 2 p.degree,
        length-word_bytes 4 p.parent_id,
        length-word_bytes 1 (bool_byte p.leaf),
        length-word_bytes 1 (bool_byte p.root),
        length-word_bytes 4 (length p.cells),
        length-rest_bytes p.leaf p.children p.cells h links,
      )
