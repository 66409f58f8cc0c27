-- ===== src/Btree/Depth.antt =====
-- The height of a tree and the fuel of the recursions in src/backend/Btree.tpp.
use kndb.Base.{
  ℕ, zero, suc, ◌+◌, ◌<◌, ◌≤◌, ◌≡◌, subst, true, if◌then◌else◌, arith, ◌==◌, leb, inl, inr,
  Bool-cases, List,
}
use kndb.Constants.{pgid_invalid}
use kndb.Posix.{Posix}
use kndb.Cache.{PageCache}
use kndb.Cache.Steps.{View}
use kndb.Pager.Invariant.{IsOpen}
use kndb.Btree.{max_depth}
use kndb.Btree.Tree.{Tree, tree, Forest, none_left, child, height, heights}
use kndb.Btree.Shape.{occurs, occurs_in}
use kndb.Btree.Sound.{TreeOk, occurs_at, self_one}

-- The sum of what a function is below `n`.
unfoldable total : (ℕ → ℕ) → ℕ → ℕ
total f zero = 0
total f (suc n) = f n + total f n

total-add : (f g : ℕ → ℕ) (n : ℕ) → total (λ k. f k + g k) n ≡ total f n + total g n
unfolding total
total-add f g zero = omega arith
total-add f g (suc n) = omega (arith, total-add f g n)

total_le : (f : ℕ → ℕ) (n : ℕ) → ((k : ℕ) → f k ≤ 1) → total f n ≤ n
unfolding total
total_le f zero few = omega arith
total_le f (suc n) few = omega (arith, total_le f n few, few n)

total_some : (f : ℕ → ℕ) (i n : ℕ) → i < n → 0 < f i → 0 < total f n
unfolding total
total_some f i zero lt h = absurd (omega arith)
total_some f i (suc n) lt h = elim (Bool-cases (i == n)) [
  | inl e ↦ let same : i ≡ n = ground (arith, e) in omega (arith, subst (λ k. 0 < f k) same h)
  | inr off ↦ let less : i < n = ground (arith, off, lt) in omega (arith, total_some f i n less h)
]

below_bound : (id n m : ℕ) → (n ≤ id → (if id == id then 1 else 0) + m ≡ 0) → id < n
below_bound id n m beyond = elim (Bool-cases (leb n id)) [
  | inl le ↦
      let over : n ≤ id = ground (arith, le) in absurd (omega (arith, beyond over, self_one id))
  | inr lt ↦ ground (arith, lt)
]

mutual
  unfolding height occurs

  height-total :
      (t : Tree) (n : ℕ) → ((k : ℕ) → n ≤ k → occurs k t ≡ 0) → height t ≤ total (λ k. occurs k t) n
  height-total (tree id p kids) n beyond =
      let inside : id < n = below_bound id n (occurs_in id kids) (beyond id) in
      omega (
        arith,
        total-add (λ k. if id == k then 1 else 0) (λ k. occurs_in k kids) n,
        total_some (λ k. if id == k then 1 else 0) id n inside (self_one id),
        heights-total kids n (λ k le. omega (arith, beyond k le)),
      )

  heights-total :
      (kids : Forest) (n : ℕ)
      → ((k : ℕ) → n ≤ k → occurs_in k kids ≡ 0)
      → heights kids ≤ total (λ k. occurs_in k kids) n
  heights-total none_left n beyond = omega arith
  heights-total (child t kids) n beyond = omega (
    arith,
    total-add (λ k. occurs k t) (λ k. occurs_in k kids) n,
    height-total t n (λ k le. omega (arith, beyond k le)),
    heights-total kids n (λ k le. omega (arith, beyond k le)),
  )

-- On an open database a tree whose nodes are at different ids, in use, each with the order, its
-- parent's id and whether it is the root, with room for one more cell, a leaf without children or
-- with one child more than its cells, and as the code asserts, is less high than the fuel of the
-- recursions along the tree.
pub height_lem :
    {os : Posix} (c : PageCache os) (v : View) (ids : List ℕ) (d : ℕ) (t : Tree)
    → IsOpen c v ids
    → TreeOk v d pgid_invalid true t
    → ((k : ℕ) → occurs k t ≤ 1)
    → height t < max_depth
height_lem c v ids d t o ok once =
    let beyond = λ (k : ℕ) (le : c.io.blocks ≤ k). beyond_none k le in
    omega
      (arith, height-total t c.io.blocks beyond, total_le (λ k. occurs k t) c.io.blocks once, o.few)
  where
    beyond_none : (k : ℕ) → c.io.blocks ≤ k → occurs k t ≡ 0
    beyond_none k le = elim (Bool-cases (occurs k t == 0)) [
      | inl e ↦ ground (arith, e)
      | inr n ↦
          let there : 0 < occurs k t = ground (arith, n) in
          let (p, at) = occurs_at v d pgid_invalid true t k ok there in
          absurd (omega (arith, o.within k _ at.shown, le))
    ]
