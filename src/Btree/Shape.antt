-- ===== src/Btree/Shape.antt =====
-- A place in a tree of src/backend/Btree.tpp: the node there, and the nodes on the way up from it to the root.
use kndb.Base.{
  ℕ, suc, ◌+◌, ◌≤◌, ◌≡◌, refl, sym, ap, ◌∙◌, List, [], ◌∷◌, ◌++◌, if◌then◌else◌, arith, ◌==◌,
  length, some,
}
use kndb.NodePage.{Cell, NodePage}
use kndb.Btree.Tree.{
  Tree, tree, Forest, none_left, child, cells_of, weave, count, child_at, height, heights,
}
use kndb.Btree.Search.{root_of, roots_of}

unfoldable pub join : Forest → Forest → Forest
join none_left ts = ts
join (child t kids) ts = child t (join kids ts)

-- A node without one of its children, with the cells and the other children on both sides of it.
pub record Frame : Type 0 where
  pub id : ℕ
  pub page : NodePage
  pub left : Forest
  pub right : Forest
  pub before : List Cell
  pub behind : List Cell
  pub cells : page.cells ≡ before ++ behind
  pub even : count left ≡ length before

abbrev pub graft : Frame → Tree → Tree
graft f t = tree f.id f.page (join f.left (child t f.right))

-- The whole tree, from the frames on the way up.
unfoldable pub plug : List Frame → Tree → Tree
plug [] t = t
plug (f ∷ fs) t = plug fs (graft f t)

-- How often an id is that of a node.
unfoldable mutual
  pub occurs : ℕ → Tree → ℕ
  occurs k (tree id p kids) = (if id == k then 1 else 0) + occurs_in k kids

  pub occurs_in : ℕ → Forest → ℕ
  occurs_in k none_left = 0
  occurs_in k (child t kids) = occurs k t + occurs_in k kids

unfoldable pub occurs_above : ℕ → List Frame → ℕ
occurs_above k [] = 0
occurs_above k (f ∷ fs) =
    (if f.id == k then 1 else 0) + occurs_in k f.left + occurs_in k f.right + occurs_above k fs

pub occurs_in-join : (k : ℕ) (a b : Forest) → occurs_in k (join a b) ≡ occurs_in k a + occurs_in k b
unfolding occurs join
occurs_in-join k none_left b = omega arith
occurs_in-join k (child t a) b = omega (arith, occurs_in-join k a b)

pub occurs-plug :
    (k : ℕ) (fs : List Frame) (t : Tree) → occurs k (plug fs t) ≡ occurs k t + occurs_above k fs
unfolding occurs plug occurs_above
occurs-plug k [] t = omega arith
occurs-plug k (f ∷ fs) t =
    omega (arith, occurs-plug k fs (graft f t), occurs_in-join k f.left (child t f.right))

pub count-join : (a b : Forest) → count (join a b) ≡ count a + count b
unfolding count join
count-join none_left b = omega arith
count-join (child t a) b = omega (arith, count-join a b)

pub roots_of-join : (a b : Forest) → roots_of (join a b) ≡ roots_of a ++ roots_of b
unfolding join
roots_of-join none_left b = refl
roots_of-join (child t a) b = ap (◌∷◌ (root_of t)) (roots_of-join a b)

pub length-roots_of : (a : Forest) → length (roots_of a) ≡ count a
unfolding count
length-roots_of none_left = refl
length-roots_of (child t a) = ap suc (length-roots_of a)

append_assoc : (xs ys zs : List Cell) → (xs ++ ys) ++ zs ≡ xs ++ (ys ++ zs)
append_assoc [] ys zs = refl
append_assoc (x ∷ xs) ys zs = ap (◌∷◌ x) (append_assoc xs ys zs)

-- A node with as many children as cells before the one in the middle and one more.
pub weave-halves :
    (a b : Forest) (ls rs : List Cell) (c : Cell)
    → count a ≡ length ls + 1
    → weave (join a b) (ls ++ c ∷ rs) ≡ weave a ls ++ c ∷ weave b rs
unfolding weave join count
weave-halves none_left b ls rs c e = absurd (omega arith)
weave-halves (child t none_left) b [] rs c e = refl
weave-halves (child t (child u a)) b [] rs c e = absurd (omega arith)
weave-halves (child t a) b (l ∷ ls) rs c e =
    ap (λ zs. cells_of t ++ l ∷ zs) (weave-halves a b ls rs c (omega arith))
    ∙ sym (append_assoc (cells_of t) (l ∷ weave a ls) (c ∷ weave b rs))

-- A child in two halves, with a cell in between.
pub weave-split :
    (a b : Forest) (t l r : Tree) (ls rs : List Cell) (c : Cell)
    → count a ≡ length ls
    → cells_of t ≡ cells_of l ++ c ∷ cells_of r
    → weave (join a (child l (child r b))) (ls ++ c ∷ rs) ≡ weave (join a (child t b)) (ls ++ rs)
unfolding weave join count
weave-split none_left b t l r [] [] c e h = sym h
weave-split none_left b t l r [] (d ∷ rs) c e h =
    sym (append_assoc (cells_of l) (c ∷ cells_of r) (d ∷ weave b rs))
    ∙ ap (λ zs. zs ++ d ∷ weave b rs) (sym h)
weave-split none_left b t l r (d ∷ ls) rs c e h = absurd (omega arith)
weave-split (child u a) b t l r [] rs c e h = absurd (omega arith)
weave-split (child u a) b t l r (d ∷ ls) rs c e h =
    ap (λ zs. cells_of u ++ d ∷ zs) (weave-split a b t l r ls rs c (omega arith) h)

-- Another child with the same cells.
pub weave-child :
    (a b : Forest) (t u : Tree) (cs : List Cell)
    → cells_of t ≡ cells_of u
    → weave (join a (child t b)) cs ≡ weave (join a (child u b)) cs
unfolding weave join
weave-child none_left b t u [] h = h
weave-child none_left b t u (c ∷ cs) h = ap (λ zs. zs ++ c ∷ weave b cs) h
weave-child (child r a) b t u [] h = refl
weave-child (child r a) b t u (c ∷ cs) h =
    ap (λ zs. cells_of r ++ c ∷ zs) (weave-child a b t u cs h)

pub cells_of-plug :
    (fs : List Frame) (t u : Tree)
    → cells_of t ≡ cells_of u
    → cells_of (plug fs t) ≡ cells_of (plug fs u)
unfolding cells_of plug
cells_of-plug [] t u h = h
cells_of-plug (f ∷ fs) t u h =
    cells_of-plug fs (graft f t) (graft f u) (weave-child f.left f.right t u f.page.cells h)

pub root_of-plug :
    (fs : List Frame) (t u : Tree)
    → root_of t ≡ root_of u
    → root_of (plug fs t) ≡ root_of (plug fs u)
unfolding plug
root_of-plug [] t u h = h
root_of-plug (f ∷ fs) t u h = root_of-plug fs (graft f t) (graft f u) refl

-- The child between the others.
pub child_at-join : (a b : Forest) (t : Tree) → child_at (join a (child t b)) (count a) ≡ some t
unfolding child_at join count
child_at-join none_left b t = refl
child_at-join (child u a) b t = child_at-join a b t

pub height-join : (a b : Forest) (t : Tree) → height t ≤ heights (join a (child t b))
unfolding height join
height-join none_left b t = omega arith
height-join (child u a) b t = omega (arith, height-join a b t)
