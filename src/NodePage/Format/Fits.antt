-- ===== src/NodePage/Format/Fits.antt =====
-- A node of src/backend/BtreeNodePage.tpp of the degree that `calculateDegree` of
-- src/backend/utility.hpp gives, and the room on a page.
use kndb.Base.{
  ℕ, ◌+◌, ◌*◌, ◌-◌, ◌^◌, ◌<◌, ◌≤◌, ◌≡◌, refl, sym, subst, Bool, true, false, not, List, [], ◌∷◌,
  length, arith, All, ◌&&◌, ◌||◌, ◌==◌, if◌then◌else◌, ◌⊎◌, inl, inr,
}
use kndb.Constants.{pg_sz}
use kndb.Vari.{Vari, db_sizeof, calculate_degree}
use kndb.Vari.Codec.{Memory, IsMemory}
use kndb.Vari.Degree.{row_size, db_sizeof_bounds, calculate_degree_fits}
use kndb.NodePage.{NodePage, max_keys, well_shaped}
use kndb.NodePage.Format.{IsCell, HasBranches, node_bytes}
use kndb.NodePage.Format.Size.{length-node_bytes}

-- What the three assumptions on a node with cells make of its children.
links_of :
    (leaf root : Bool) (children : List ℕ) (n : ℕ)
    → ((if leaf then length children == 0 else true)
        && (if not leaf && root then n == 0 || length children == n + 1 else true)
        && (if not leaf && not root then length children == n + 1 && not (n == 0) else true))
      ≡ true
    → 0 < n
    → HasBranches leaf children (n + 1)
links_of true root [] n h some = refl
links_of true root (c ∷ cs) n h some = absurd (ground (arith, h))
links_of false true children n h some = ground (arith, h, some)
links_of false false children n h some = ground (arith, h, some)

-- A node of a tree over a table of the columns `values`, with keys as `key`.
pub record IsNode (key : Vari) (values : List Vari) (p : NodePage) : Type 0 where
  pub shaped : well_shaped p ≡ true
  pub degree : p.degree ≡ calculate_degree key values
  pub few : length p.cells ≤ max_keys p
  pub cells : All (IsCell key values) p.cells
  pub parent : p.parent_id < 2 ^ 32
  pub children : All (λ c. c < 2 ^ 32) p.children
  pub none_left : length p.cells ≡ 0 → p.children ≡ []

less_rows : (n m c : ℕ) → n ≤ m → n * c ≤ m * c
less_rows n m c h = grind arith

next_row : (n c : ℕ) → (n + 1) * c ≡ n * c + c
next_row n c = grind arith

columns_le : (vs : List Vari) → length vs ≤ row_size vs
unfolding row_size
columns_le [] = omega arith
columns_le (v ∷ vs) = omega (arith, db_sizeof_bounds v, columns_le vs)

-- The bytes of `n` cells of `c` bytes, one child more, and the metadata, against those of the most
-- cells that a node has.
room_left :
    (n d c k : ℕ)
    → 1 ≤ d
    → (2 * d - 1) * c + 2 * d * 4 + 100 ≤ 4096
    → k ≤ c
    → n ≤ 2 * d - 1
    → (k ≤ 85) ⊎ (n < 2 * d - 1)
    → 15 + k + n * c + (n + 1) * 4 ≤ 4096
room_left n d c k some room small most (inl few) =
    omega (arith, some, room, few, most, less_rows n (2 * d - 1) c most)
room_left n d c k some room small most (inr less) =
    omega (arith, room, small, less, less_rows (n + 1) (2 * d - 1) c (omega arith), next_row n c)

module _ (key : Vari) (values : List Vari) (p : NodePage) (o : IsNode key values p) where
  module _ (columns : length values ≤ 255) (some : 1 ≤ calculate_degree key values) where
    pub low_degree : p.degree ≤ 512
    low_degree = omega (arith, o.degree, calculate_degree_fits key values (omega arith) some)

    pub max_keys_lem : max_keys p ≡ 2 * p.degree - 1
    unfolding max_keys
    max_keys_lem = omega (arith, o.degree, low_degree, some)

    pub links_lem : 0 < length p.cells → HasBranches p.leaf p.children (length p.cells + 1)
    unfolding well_shaped
    links_lem = links_of p.leaf p.root p.children (length p.cells) o.shaped

    pub node_fits :
        (mem : Memory)
        → IsMemory mem
        → (length values ≤ 85) ⊎ (length p.cells < max_keys p)
        → length (node_bytes mem p) ≤ pg_sz
    node_fits mem good room =
        let size = db_sizeof key + row_size values in
        let full : (2 * p.degree - 1) * size + 2 * p.degree * 4 + 100 ≤ 4096 =
          subst (λ d. (2 * d - 1) * size + 2 * d * 4 + 100 ≤ 4096) (sym o.degree)
            (calculate_degree_fits key values (omega arith) some) in
        omega (
          arith,
          length-node_bytes mem good key values p o.cells links_lem,
          room_left (length p.cells) p.degree size (length values) (omega (arith, some, o.degree))
              full (omega (arith, columns_le values))
              (subst (λ m. length p.cells ≤ m) max_keys_lem o.few)
              (subst (λ m. (length values ≤ 85) ⊎ (length p.cells < m)) max_keys_lem room),
        )
