-- ===== src/NodePage/Format/Roundtrip.antt =====
-- `toBytes` of src/backend/BtreeNodePage.tpp and the constructor from bytes, for nodes of the degree
-- that `calculateDegree` of src/backend/utility.hpp gives.
use kndb.Base.{
  ℕ, ◌+◌, ◌%◌, ◌^◌, ◌<◌, ◌≤◌, ◌≡◌, refl, sym, subst, Bool, List, [], ◌∷◌, ◌++◌, map, append-nil, ok,
  M, ◌>>=◌, length, drop, arith, All, length-append, length-drop, ◌⊎◌,
}
use kndb.Constants.{btree_node_page_type, pg_sz}
use kndb.Cursor.{Cursor, read_word}
use kndb.Cursor.Laws.{
  at, Writes, Reads, >>-Writes, >>=-Reads, pure-Reads, write_word-Writes, read_word-Reads,
  within_page-Writes, within_page-Reads, page_sized-run, Writes-from_start, Reads-from_start,
}
use kndb.Vari.{Vari, visit_type_id, type_of, calculate_degree}
use kndb.Vari.Codec.{Memory, IsMemory, bool_byte, db_serialize_bool, db_deserialize_bool}
use kndb.Vari.Codec.Roundtrip.{byte_bool-Reads}
use kndb.Vari.Codec.Types.{visit_type_id_small, last-Reads, assume-Reads, type-Reads}
use kndb.NodePage.{
  NodePage, Cell, new_page, max_keys, write_rest, write_body, read_cells, read_rest, read_body,
  to_bytes, from_bytes,
}
use kndb.NodePage.Format.{
  IsCell, HasBranches, cells_bytes, rest_bytes, node_bytes, write_nothing, type_id-Writes,
  write_types-Writes, read_types-Reads, write_links-Writes, read_links-Reads, write_cells-Writes,
  read_cells-Reads,
}
use kndb.NodePage.Format.Fits.{IsNode, low_degree, max_keys_lem, links_lem, node_fits}
use kndb.NodePage.Format.Size.{same_length}

-- What the constructor reads behind the flag of the root, the flag of a leaf, the parent's id, the
-- order and the page's type.
abbrev behind_root : ℕ → ℕ → ℕ → Bool → Bool → M Cursor NodePage
behind_root id degree parent leaf root = do
  num_cells ← read_word 4
  read_rest (new_page degree parent root leaf id) num_cells

abbrev behind_leaf : ℕ → ℕ → ℕ → Bool → M Cursor NodePage
behind_leaf id degree parent leaf = do
  root ← db_deserialize_bool
  behind_root id degree parent leaf root

abbrev behind_parent : ℕ → ℕ → ℕ → M Cursor NodePage
behind_parent id degree parent = do leaf ← db_deserialize_bool; behind_leaf id degree parent leaf

abbrev behind_degree : ℕ → ℕ → M Cursor NodePage
behind_degree id degree = do parent ← read_word 4; behind_parent id degree parent

module _ (key : Vari) (values : List Vari) where
  widths :
      (cs : List Cell) → All (IsCell key values) cs → All (λ c. length c.value ≡ length values) cs
  widths [] h = tt
  widths (c ∷ cs) h = (same_length c.value values h.0.1, widths cs h.1)

  module _ (mem : Memory) where
    rest-Writes :
        (p : NodePage) (cs : List Cell)
        → length values < 256
        → All (IsCell key values) cs
        → (0 < length cs → HasBranches p.leaf p.children (length p.cells + 1))
        → Writes (write_rest mem p cs) (rest_bytes mem p.leaf p.children cs)
    unfolding write_rest rest_bytes
    rest-Writes p [] few h links = write_nothing
    rest-Writes p (first ∷ others) few h links =
        let row : length first.value ≡ length values = same_length first.value values h.0.1 in
        let wide : length first.value % 2 ^ 8 ≡ length first.value = omega arith in
        let rows : All (λ (c : Cell). length c.value ≡ length first.value) (first ∷ others) =
          subst (λ n. All (λ (c : Cell). length c.value ≡ n) (first ∷ others)) (sym row)
            (widths (first ∷ others) h) in
        type_id-Writes first.key _ (
          >>-Writes (write_word-Writes 1 (visit_type_id first.key)) (
            rw wide (
              >>-Writes (write_word-Writes 1 (length first.value)) (
                >>-Writes (write_types-Writes first.value) (
                  >>-Writes (write_cells-Writes mem (length first.value) (first ∷ others) rows) (
                    rw (append-nil) at (
                      >>-Writes
                        (write_links-Writes p.leaf p.children (length p.cells + 1)
                          (links (omega arith)))
                        within_page-Writes)))))))

    body-Writes :
        (p : NodePage)
        → length values < 256
        → length p.cells < 2 ^ 32
        → All (IsCell key values) p.cells
        → (0 < length p.cells → HasBranches p.leaf p.children (length p.cells + 1))
        → Writes (write_body mem p) (node_bytes mem p)
    unfolding write_body node_bytes db_serialize_bool
    body-Writes p few some h links =
        let wide : length p.cells % 2 ^ 32 ≡ length p.cells = omega arith in
        rw wide (
          >>-Writes (write_word-Writes 1 btree_node_page_type) (
            >>-Writes (write_word-Writes 2 p.degree) (
              >>-Writes (write_word-Writes 4 p.parent_id) (
                >>-Writes (write_word-Writes 1 (bool_byte p.leaf)) (
                  >>-Writes (write_word-Writes 1 (bool_byte p.root)) (
                    >>-Writes (write_word-Writes 4 (length p.cells))
                      (rest-Writes p p.cells few h links)))))))

    module _ (good : IsMemory mem) where
      rest-Reads :
          (p : NodePage) (cs : List Cell) (children : List ℕ)
          → length values < 256
          → All (IsCell key values) cs
          → All (λ c. c < 2 ^ 32) children
          → (0 < length cs → HasBranches p.leaf children (length cs + 1))
          → (length cs ≡ 0 → children ≡ [])
          → Reads
              (read_rest (record p { children = []; cells = [] }) (length cs))
              (rest_bytes mem p.leaf children cs)
              (record p { children = children; cells = cs })
      unfolding read_rest rest_bytes
      rest-Reads p [] children few h small links none_left = rw (none_left refl) (pure-Reads _)
      rest-Reads p (first ∷ others) children few h small links none_left =
          let row : length first.value ≡ length values = same_length first.value values h.0.1 in
          let cells : Reads
              (read_cells (type_of first.key) (map type_of first.value) (length (first ∷ others)))
              (cells_bytes mem (first ∷ others)) (first ∷ others) =
            rw (h.0.0, h.0.1) (read_cells-Reads mem good key values (first ∷ others) h) in
          >>=-Reads _ (read_word-Reads 1 (visit_type_id first.key) (visit_type_id_small first.key))
            (>>=-Reads _ (type-Reads first.key) (
              >>=-Reads _ (read_word-Reads 1 (length first.value) (omega arith)) (
                >>=-Reads _ (read_types-Reads first.value) (
                  >>=-Reads _ cells (
                    last-Reads _
                      (read_links-Reads p.leaf children (length (first ∷ others) + 1)
                        (links (omega arith)) small)
                      (>>=-Reads _ within_page-Reads (pure-Reads _)))))))

      body-Reads :
          (p : NodePage)
          → length values < 256
          → p.degree < 2 ^ 16
          → p.parent_id < 2 ^ 32
          → length p.cells < 2 ^ 32
          → All (IsCell key values) p.cells
          → All (λ c. c < 2 ^ 32) p.children
          → (0 < length p.cells → HasBranches p.leaf p.children (length p.cells + 1))
          → (length p.cells ≡ 0 → p.children ≡ [])
          → Reads (read_body p.page_id) (node_bytes mem p) p
      unfolding read_body node_bytes
      body-Reads p few order parent some h small links none_left =
          >>=-Reads _ (read_word-Reads 1 btree_node_page_type (omega arith)) (
            >>=-Reads (λ _. read_word 2 >>= behind_degree p.page_id) (assume-Reads refl)
              (>>=-Reads (behind_degree p.page_id) (read_word-Reads 2 p.degree (omega arith)) (
                >>=-Reads (behind_parent p.page_id p.degree)
                  (read_word-Reads 4 p.parent_id (omega arith))
                  (>>=-Reads (behind_leaf p.page_id p.degree p.parent_id) (byte_bool-Reads p.leaf) (
                    >>=-Reads (behind_root p.page_id p.degree p.parent_id p.leaf)
                      (byte_bool-Reads p.root)
                      (>>=-Reads (read_rest (new_page p.degree p.parent_id p.root p.leaf p.page_id))
                        (read_word-Reads 4 (length p.cells) (omega arith))
                        (rest-Reads p p.cells p.children few h small links none_left)))))))

pub node_from_bytes-to_bytes :
    (mem : Memory)
    → IsMemory mem
    → (key : Vari) (values : List Vari) (p : NodePage) → length values ≤ 255
    → 1 ≤ calculate_degree key values
    → IsNode key values p
    → (length values ≤ 85) ⊎ (length p.cells < max_keys p)
    → (buf : List ℕ) → length buf ≡ pg_sz
    → (c : Cursor) × (d : Cursor) × (to_bytes mem p buf ≡ ok tt c)
      × (from_bytes c.bytes p.page_id ≡ ok p d)
unfolding to_bytes from_bytes
node_from_bytes-to_bytes mem good key values p columns some o room buf size =
    let fits = node_fits key values p o columns some mem good room in
    let low = low_degree key values p o columns some in
    let few = subst (λ m. length p.cells ≤ m) (max_keys_lem key values p o columns some) o.few in
    let links = links_lem key values p o columns some in
    let after : List ℕ = drop (length (node_bytes mem p)) buf in
    let whole : length (node_bytes mem p ++ after) ≡ pg_sz = omega (
      arith,
      length-append (node_bytes mem p) after,
      length-drop (length (node_bytes mem p)) buf,
    ) in
    (
      at (node_bytes mem p) after,
      at (node_bytes mem p) after,
      rw (page_sized-run buf size, o.shaped)
          (Writes-from_start buf
            (body-Writes key values mem p (omega arith) (omega arith) o.cells links) size fits),
      rw (page_sized-run (node_bytes mem p ++ after) whole) (
          Reads-from_start after
            (body-Reads key values mem good p (omega arith) (omega arith) o.parent (omega arith)
              o.cells o.children links o.none_left)
            fits),
    )
