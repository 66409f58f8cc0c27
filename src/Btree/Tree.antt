-- ===== src/Btree/Tree.antt =====
-- The tree that the pages of a tree of src/backend/Btree.tpp make, and the cells of its nodes in order.
use kndb.Base.{
  ℕ, zero, suc, ◌≤◌, ◌≡◌, refl, subst, ◌∙◌, List, [], ◌∷◌, ◌++◌, Option, none, some, if◌then◌else◌,
  arith, inl, inr, Bool-cases, get_elem?, length,
}
use Prim.Native.Nat.{max}
use mathlib.Core.Option.{some-injective}
use kndb.Vari.{Vari}
use kndb.Vari.Order.{less}
use kndb.Vari.Order.Laws.{IsOrdinary}
use kndb.NodePage.{Cell, NodePage}
use kndb.Btree.{lower_bound, is_key}
use kndb.Btree.Lookup.{find_key, Sorted, Ordinary, Sorted-append, Ordinary-append, find_key-split}

mutual
  pub data Tree : Type 0 where
    tree : ℕ → NodePage → Forest → Tree

  pub data Forest : Type 0 where
    none_left : Forest
    child : Tree → Forest → Forest

unfoldable mutual
  -- The cells of a tree, those of each child before the cell that the child stands before.
  pub cells_of : Tree → List Cell
  cells_of (tree id p kids) = weave kids p.cells

  pub weave : Forest → List Cell → List Cell
  weave none_left cs = cs
  weave (child t kids) [] = cells_of t
  weave (child t kids) (c ∷ cs) = cells_of t ++ c ∷ weave kids cs

unfoldable pub child_at : Forest → ℕ → Option Tree
child_at none_left i = none
child_at (child t kids) zero = some t
child_at (child t kids) (suc i) = child_at kids i

unfoldable pub count : Forest → ℕ
count none_left = 0
count (child t kids) = suc (count kids)

-- The cells that a node leads to for a key that it does not have.
unfoldable pub below : Forest → ℕ → List Cell
below kids i = elim (child_at kids i) [ none ↦ [] | some t ↦ cells_of t ]

-- The first cell at or behind the key decides: it has the key, or the child before it leads on.
pub find_key-weave :
    (key : Vari)
    → IsOrdinary key
    → (kids : Forest) (cs : List Cell) → Sorted (weave kids cs)
    → Ordinary (weave kids cs)
    → find_key key (weave kids cs) ≡ (
        if is_key key (get_elem? cs (lower_bound key cs))
        then get_elem? cs (lower_bound key cs)
        else find_key key (below kids (lower_bound key cs)))
unfolding weave child_at count below lower_bound is_key find_key
find_key-weave key ok_key none_left [] s o = refl
find_key-weave key ok_key none_left (c ∷ cs) s o =
    find_key-split key ok_key [] cs c s o ∙ elim (Bool-cases (less c.key key)) [
      | inl l ↦ rw l (find_key-weave key ok_key none_left cs s.1 o.1)
      | inr n ↦ rw n
    ]
find_key-weave key ok_key (child t kids) [] s o = refl
find_key-weave key ok_key (child t kids) (c ∷ cs) s o =
    let (before, (st, sc)) = Sorted-append (cells_of t) (weave kids cs) c s in
    let (ot, oc) = Ordinary-append (cells_of t) (c ∷ weave kids cs) o in
    find_key-split key ok_key (cells_of t) (weave kids cs) c s o
    ∙ elim (Bool-cases (less c.key key)) [
      | inl l ↦ rw l (find_key-weave key ok_key kids cs sc.1 oc.1)
      | inr n ↦ rw n
    ]

-- What holds of the cells of a node and its children in order holds of those of a child.
pub child_at-ordered :
    (kids : Forest) (cs : List Cell) (i : ℕ) (t : Tree)
    → i ≤ length cs
    → child_at kids i ≡ some t
    → Sorted (weave kids cs)
    → Ordinary (weave kids cs)
    → Sorted (cells_of t) × Ordinary (cells_of t)
unfolding weave child_at
child_at-ordered none_left cs i t le e s o = cc
child_at-ordered (child r kids) [] zero t le e s o =
    let same = some-injective r t e in
    (subst (λ a. Sorted (cells_of a)) same s, subst (λ a. Ordinary (cells_of a)) same o)
child_at-ordered (child r kids) [] (suc i) t le e s o = absurd (omega arith)
child_at-ordered (child r kids) (c ∷ cs) zero t le e s o =
    let same = some-injective r t e in
    let (before, (sr, sc)) = Sorted-append (cells_of r) (weave kids cs) c s in
    let (or, oc) = Ordinary-append (cells_of r) (c ∷ weave kids cs) o in
    (subst (λ a. Sorted (cells_of a)) same sr, subst (λ a. Ordinary (cells_of a)) same or)
child_at-ordered (child r kids) (c ∷ cs) (suc i) t le e s o =
    let (before, (sr, sc)) = Sorted-append (cells_of r) (weave kids cs) c s in
    let (or, oc) = Ordinary-append (cells_of r) (c ∷ weave kids cs) o in
    child_at-ordered kids cs i t (omega arith) e sc.1 oc.1

unfoldable mutual
  pub height : Tree → ℕ
  height (tree id p kids) = suc (heights kids)

  pub heights : Forest → ℕ
  heights none_left = 0
  heights (child t kids) = max (height t) (heights kids)
