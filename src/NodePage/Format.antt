-- ===== src/NodePage/Format.antt =====
-- The serialized form of src/backend/BtreeNodePage.tpp.
pub mod Fits
pub mod Roundtrip
pub mod Size
use kndb.Base.{
  ℕ, suc, ◌+◌, ◌*◌, ◌%◌, ◌^◌, ◌<◌, ◌≤◌, ◌≡◌, refl, subst, ap, Bool, true, false, List, [], ◌∷◌,
  ◌++◌, map, append-nil, M, assume, pure, ◌>>=◌, ◌>>◌, length, arith, All, if◌then◌else◌,
}
use kndb.Base.Words.{word_bytes, length-word_bytes}
use kndb.Constants.{btree_node_page_type}
use kndb.Cursor.{Cursor, start, write_word}
use kndb.Cursor.Laws.{
  at, Writes, Reads, >>-Writes, >>=-Reads, pure-Reads, write_word-Writes, read_word-Reads,
  within_page-Writes, within_page-Reads,
}
use kndb.Vari.{Vari, IsVari, IsStorable, visit_type_id, variant_to_type_id, type_of}
use kndb.Vari.Codec.{Memory, IsMemory, bool_byte, db_serialize_bool, db_deserialize}
use kndb.Vari.Codec.Roundtrip.{image, db_serialize-Writes, db_deserialize-Reads, byte_bool-Reads}
use kndb.Vari.Codec.Types.{
  type_bytes, visit_type_id_small, variant_to_type_id_lem, last-Reads, assume-Reads, type-Reads,
}
use kndb.NodePage.{
  NodePage, Cell, new_page, write_types, write_values, write_cells, write_children, write_rest,
  write_body, read_types, read_values, read_cells, read_children, read_rest, read_body,
}

-- A value that its type can have and a page can keep.
abbrev pub IsKept : Vari → Type 0
IsKept v = IsVari v × IsStorable v

-- A cell with the types of a key and of a row, of values that a page can keep.
abbrev pub IsCell : Vari → List Vari → Cell → Type 0
IsCell key values c =
    (type_of c.key ≡ type_of key)
    × (map type_of c.value ≡ map type_of values)
    × IsKept c.key
    × All IsKept c.value

module _ (mem : Memory) where
  pub values_bytes : List Vari → List ℕ
  values_bytes [] = []
  values_bytes (v ∷ vs) = image mem v ++ values_bytes vs

  pub cells_bytes : List Cell → List ℕ
  cells_bytes [] = []
  cells_bytes (c ∷ cs) = image mem c.key ++ (values_bytes c.value ++ cells_bytes cs)

pub children_bytes : List ℕ → List ℕ
children_bytes [] = []
children_bytes (child ∷ children) = word_bytes 4 child ++ children_bytes children

pub links_bytes : Bool → List ℕ → List ℕ
links_bytes leaf children = if leaf then [] else children_bytes children

pub rest_bytes : Memory → Bool → List ℕ → List Cell → List ℕ
rest_bytes mem leaf children [] = []
rest_bytes mem leaf children (first ∷ others) =
    word_bytes 1 (visit_type_id first.key)
    ++ (word_bytes 1 (length first.value)
        ++ (type_bytes first.value
            ++ (cells_bytes mem (first ∷ others) ++ links_bytes leaf children)))

pub node_bytes : Memory → NodePage → List ℕ
node_bytes mem p =
    word_bytes 1 btree_node_page_type
    ++ (word_bytes 2 p.degree
        ++ (word_bytes 4 p.parent_id
            ++ (word_bytes 1 (bool_byte p.leaf)
                ++ (word_bytes 1 (bool_byte p.root)
                    ++ (word_bytes 4 (length p.cells)
                        ++ rest_bytes mem p.leaf p.children p.cells)))))

write_nothing : Writes (pure tt) []
write_nothing = record { run = λ before after room small. rw (append-nil) }

type_id-Writes :
    (v : Vari) (f : ℕ → M Cursor (Unit {0})) {bs : List ℕ}
    → Writes (f (visit_type_id v)) bs
    → Writes (variant_to_type_id v >>= f) bs
type_id-Writes v f w = record {
  run = λ before after room small.
      rw (variant_to_type_id_lem v (at before after)) (w.run before after room small);
}

write_types-Writes : (vs : List Vari) → Writes (write_types vs) (type_bytes vs)
unfolding write_types type_bytes
write_types-Writes [] = write_nothing
write_types-Writes (v ∷ vs) =
    type_id-Writes v _ (>>-Writes (write_word-Writes 1 (visit_type_id v)) (write_types-Writes vs))

read_types-Reads :
    (vs : List Vari) → Reads (read_types (length vs)) (type_bytes vs) (map type_of vs)
unfolding read_types type_bytes
read_types-Reads [] = pure-Reads []
read_types-Reads (v ∷ vs) =
    >>=-Reads _ (read_word-Reads 1 (visit_type_id v) (visit_type_id_small v)) (
      >>=-Reads _ (type-Reads v)
        (last-Reads _ (read_types-Reads vs) (pure-Reads (type_of v ∷ map type_of vs))))

write_children-Writes : (cs : List ℕ) → Writes (write_children (length cs) cs) (children_bytes cs)
unfolding write_children children_bytes
write_children-Writes [] = write_nothing
write_children-Writes (c ∷ cs) = >>-Writes (write_word-Writes 4 c) (write_children-Writes cs)

read_children-Reads :
    (cs : List ℕ)
    → All (λ c. c < 2 ^ 32) cs
    → Reads (read_children (length cs)) (children_bytes cs) cs
unfolding read_children children_bytes
read_children-Reads [] h = pure-Reads []
read_children-Reads (c ∷ cs) h =
    >>=-Reads _ (read_word-Reads 4 c (omega (arith, h.0)))
      (last-Reads _ (read_children-Reads cs h.1) (pure-Reads (c ∷ cs)))

-- A leaf has no children, another node has `n`.
abbrev pub HasBranches : Bool → List ℕ → ℕ → Type 0
HasBranches true cs n = cs ≡ []
HasBranches false cs n = length cs ≡ n

write_links-Writes :
    (leaf : Bool) (cs : List ℕ) (n : ℕ)
    → HasBranches leaf cs n
    → Writes (if leaf then pure tt else write_children n cs) (links_bytes leaf cs)
unfolding links_bytes
write_links-Writes true cs n h = write_nothing
write_links-Writes false cs n h =
    subst (λ m. Writes (write_children m cs) (children_bytes cs)) h (write_children-Writes cs)

read_links-Reads :
    (leaf : Bool) (cs : List ℕ) (n : ℕ)
    → HasBranches leaf cs n
    → All (λ c. c < 2 ^ 32) cs
    → Reads (if leaf then pure [] else read_children n) (links_bytes leaf cs) cs
unfolding links_bytes
read_links-Reads true cs n h small = rw h (pure-Reads [])
read_links-Reads false cs n h small =
    subst (λ m. Reads (read_children m) (children_bytes cs) cs) h (read_children-Reads cs small)

module _ (mem : Memory) where
  write_values-Writes :
      (vs : List Vari) → Writes (write_values mem (length vs) vs) (values_bytes mem vs)
  unfolding write_values values_bytes
  write_values-Writes [] = write_nothing
  write_values-Writes (v ∷ vs) = >>-Writes (db_serialize-Writes mem v) (write_values-Writes vs)

  write_cells-Writes :
      (n : ℕ) (cs : List Cell)
      → All (λ c. length c.value ≡ n) cs
      → Writes (write_cells mem n cs) (cells_bytes mem cs)
  unfolding write_cells cells_bytes
  write_cells-Writes n [] h = write_nothing
  write_cells-Writes n (c ∷ cs) h =
      let row : Writes (write_values mem n c.value) (values_bytes mem c.value) =
        subst (λ m. Writes (write_values mem m c.value) (values_bytes mem c.value)) h.0
          (write_values-Writes c.value) in
      >>-Writes (db_serialize-Writes mem c.key) (>>-Writes row (write_cells-Writes n cs h.1))

module _ (mem : Memory) (good : IsMemory mem) where
  read_values-Reads :
      (vs : List Vari)
      → All IsKept vs
      → Reads (read_values (map type_of vs)) (values_bytes mem vs) vs
  unfolding read_values values_bytes
  read_values-Reads [] h = pure-Reads []
  read_values-Reads (v ∷ vs) h =
      >>=-Reads _ (db_deserialize-Reads mem good v h.0.0 h.0.1)
        (last-Reads _ (read_values-Reads vs h.1) (pure-Reads (v ∷ vs)))

  read_cells-Reads :
      (key : Vari) (values : List Vari) (cs : List Cell)
      → All (IsCell key values) cs
      → Reads (read_cells (type_of key) (map type_of values) (length cs)) (cells_bytes mem cs) cs
  unfolding read_cells cells_bytes
  read_cells-Reads key values [] h = pure-Reads []
  read_cells-Reads key values (c ∷ cs) (((key_type, value_types, key_kept, value_kept), others)) =
      >>=-Reads _
        (subst (λ t. Reads (db_deserialize t) (image mem c.key) c.key) key_type
          (db_deserialize-Reads mem good c.key key_kept.0 key_kept.1))
        (>>=-Reads _
          (subst (λ ts. Reads (read_values ts) (values_bytes mem c.value) c.value) value_types
            (read_values-Reads c.value value_kept))
          (last-Reads _ (read_cells-Reads key values cs others) (pure-Reads (c ∷ cs))))
