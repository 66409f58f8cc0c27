-- ===== src/Btree/Sound.antt =====
-- What holds of the nodes of a tree of src/backend/Btree.tpp while nobody inserts, and of the nodes around a place.
use kndb.Base.{
  ℕ, suc, ◌+◌, ◌*◌, ◌<◌, ◌≤◌, ◌≡◌, ◌≢◌, refl, sym, ap, subst, ◌∙◌, Bool, true, false, List, [], ◌∷◌,
  ◌++◌, if◌then◌else◌, arith, ◌==◌, length, inl, inr, Bool-cases,
}
use kndb.Constants.{pgid_invalid}
use kndb.NodePage.{NodePage}
use kndb.Cache.Steps.{View}
use kndb.Btree.Tree.{Tree, tree, Forest, none_left, child, count}
use kndb.Btree.Reads.{NodeAt}
use kndb.Btree.Search.{root_of, roots_of, Fits, TreeAt, ForestAt}
use kndb.Btree.Shape.{
  join, Frame, graft, plug, occurs, occurs_in, occurs_above, roots_of-join, count-join,
}
use kndb.Btree.Writes.{Same, same_NodeAt}

-- A node with its children, the parent it names and whether it says that it is the root.
pub record NodeOk (d par : ℕ) (root : Bool) (p : NodePage) (kids : Forest) : Type 0 where
  pub fits : Fits p kids
  pub degree : p.degree ≡ d
  pub parent : p.parent_id ≡ par
  pub is_root : p.root ≡ root

-- Spare for one more cell.
abbrev pub Spare : ℕ → NodePage → Type 0
Spare d p = length p.cells + 2 ≤ 2 * d

-- The nodes of a tree below `par`.
unfoldable mutual
  pub TreeOk : View → ℕ → ℕ → Bool → Tree → Type 0
  TreeOk v d par root (tree id p kids) =
      NodeAt v id p × NodeOk d par root p kids × Spare d p × ForestOk v d id kids

  pub ForestOk : View → ℕ → ℕ → Forest → Type 0
  ForestOk v d par none_left = Unit
  ForestOk v d par (child t kids) = TreeOk v d par false t × ForestOk v d par kids

mutual
  unfolding TreeOk TreeAt

  pub TreeOk-TreeAt :
      (v : View) (d par : ℕ) (root : Bool) (t : Tree) → TreeOk v d par root t → TreeAt v t
  TreeOk-TreeAt v d par root (tree id p kids) (at, ok, room, all) =
      (at, ok.fits, ForestOk-ForestAt v d id kids all)

  ForestOk-ForestAt :
      (v : View) (d par : ℕ) (kids : Forest) → ForestOk v d par kids → ForestAt v kids
  ForestOk-ForestAt v d par none_left h = tt
  ForestOk-ForestAt v d par (child t kids) h =
      (TreeOk-TreeAt v d par false t h.0, ForestOk-ForestAt v d par kids h.1)

-- The other view shows the same for the nodes of which this holds.
abbrev pub Keeps : View → View → (ℕ → Type 0) → Type 0
Keeps v w P = (k : ℕ) (p : NodePage) → NodeAt v k p → P k → Same v w k

pub self_one : (k : ℕ) → 0 < (if k == k then 1 else 0)
self_one k = ground arith

-- Ids with different counts.
pub apart_none : (f : ℕ → ℕ) (i j : ℕ) → f i ≡ 0 → 0 < f j → j ≢ i
apart_none f i j none_there o same = omega (arith, subst (λ k. 0 < f k) same o, none_there)

pub apart_some : (f : ℕ → ℕ) (i j : ℕ) → 0 < f i → f j ≡ 0 → j ≢ i
apart_some f i j o none_there same = omega (arith, subst (λ k. 0 < f k) (sym same) o, none_there)

mutual
  unfolding TreeOk occurs

  pub keep_tree :
      (v w : View) (d par : ℕ) (root : Bool) (t : Tree)
      → Keeps v w (λ k. 0 < occurs k t)
      → TreeOk v d par root t
      → TreeOk w d par root t
  keep_tree v w d par root (tree id p kids) h (at, ok, room, all) =
      let here : 0 < (if id == id then 1 else 0) + occurs_in id kids = omega (arith, self_one id) in
      (
        same_NodeAt (h id p at here) at,
        ok,
        room,
        keep_forest v w d id kids (λ k q a o. h k q a (omega (arith, o))) all,
      )

  pub keep_forest :
      (v w : View) (d par : ℕ) (kids : Forest)
      → Keeps v w (λ k. 0 < occurs_in k kids)
      → ForestOk v d par kids
      → ForestOk w d par kids
  keep_forest v w d par none_left h all = tt
  keep_forest v w d par (child t kids) h (first, all) = (
    keep_tree v w d par false t (λ k q a o. h k q a (omega (arith, o))) first,
    keep_forest v w d par kids (λ k q a o. h k q a (omega (arith, o))) all,
  )

mutual
  unfolding TreeOk occurs

  -- What occurs is a node in use.
  pub occurs_at :
      (v : View) (d par : ℕ) (root : Bool) (t : Tree) (k : ℕ)
      → TreeOk v d par root t
      → 0 < occurs k t
      → (p : NodePage) × NodeAt v k p
  occurs_at v d par root (tree id p kids) k (at, ok, room, all) o = elim (Bool-cases (id == k)) [
    | inl e ↦ let same : id ≡ k = ground (arith, e) in (p, subst (λ i. NodeAt v i p) same at)
    | inr n ↦
        let below : 0 < occurs_in k kids = ground (arith, n, o) in
        occurs_in_at v d id kids k all below
  ]

  pub occurs_in_at :
      (v : View) (d par : ℕ) (kids : Forest) (k : ℕ)
      → ForestOk v d par kids
      → 0 < occurs_in k kids
      → (p : NodePage) × NodeAt v k p
  occurs_in_at v d par none_left k all o = absurd (omega arith)
  occurs_in_at v d par (child t kids) k (first, all) o = elim (Bool-cases (occurs k t == 0)) [
    | inl e ↦
        let rest : 0 < occurs_in k kids = ground (arith, e, o) in
        occurs_in_at v d par kids k all rest
    | inr n ↦
        let there : 0 < occurs k t = ground (arith, n) in occurs_at v d par false t k first there
  ]

pub join-ForestOk :
    (v : View) (d par : ℕ) (a b : Forest)
    → ForestOk v d par a
    → ForestOk v d par b
    → ForestOk v d par (join a b)
unfolding TreeOk join
join-ForestOk v d par none_left b ha hb = hb
join-ForestOk v d par (child t a) b ha hb = (ha.0, join-ForestOk v d par a b ha.1 hb)

pub ForestOk-join :
    (v : View) (d par : ℕ) (a b : Forest)
    → ForestOk v d par (join a b)
    → ForestOk v d par a × ForestOk v d par b
unfolding TreeOk join
ForestOk-join v d par none_left b h = (tt, h)
ForestOk-join v d par (child t a) b h = let (x, y) = ForestOk-join v d par a b h.1 in ((h.0, x), y)

-- A node around a place, with the child at the place, its parent and whether it is the root.
pub record FrameOk (v : View) (d par : ℕ) (root : Bool) (f : Frame) (t : Tree) : Type 0 where
  pub at : NodeAt v f.id f.page
  pub ok : NodeOk d par root f.page (join f.left (child t f.right))
  pub inner : f.page.leaf ≡ false
  pub room : Spare d f.page
  pub lefts : ForestOk v d f.id f.left
  pub rights : ForestOk v d f.id f.right

-- The id of the node above, and whether there is none.
abbrev pub above : List Frame → ℕ
above [] = pgid_invalid
above (f ∷ fs) = f.id

abbrev pub at_root : List Frame → Bool
at_root [] = true
at_root (f ∷ fs) = false

abbrev pub FramesOk : View → ℕ → List Frame → Tree → Type 0
FramesOk v d [] t = Unit
FramesOk v d (f ∷ fs) t = FrameOk v d (above fs) (at_root fs) f t × FramesOk v d fs (graft f t)

pub FramesOk-plug :
    (v : View) (d : ℕ) (fs : List Frame) (t : Tree)
    → FramesOk v d fs t
    → TreeOk v d (above fs) (at_root fs) t
    → TreeOk v d pgid_invalid true (plug fs t)
unfolding TreeOk plug
FramesOk-plug v d [] t h ok = ok
FramesOk-plug v d (f ∷ fs) t h ok =
    let k = h.0 in
    FramesOk-plug v d fs (graft f t) h.1
      (k.at, k.ok, k.room, join-ForestOk v d f.id f.left (child t f.right) k.lefts (ok, k.rights))

pub keep_frames :
    (v w : View) (d : ℕ) (fs : List Frame) (t : Tree)
    → Keeps v w (λ k. 0 < occurs_above k fs)
    → FramesOk v d fs t
    → FramesOk w d fs t
unfolding occurs_above
keep_frames v w d [] t h all = tt
keep_frames v w d (f ∷ fs) t h (k, all) =
    let here : 0
        < (if f.id == f.id then 1 else 0)
          + occurs_in f.id f.left
          + occurs_in f.id f.right
          + occurs_above f.id fs =
      omega (arith, self_one f.id) in
    (
      record {
        at = same_NodeAt (h f.id f.page k.at here) k.at;
        ok = k.ok;
        inner = k.inner;
        room = k.room;
        lefts = keep_forest v w d f.id f.left (λ j q a o. h j q a (omega (arith, o))) k.lefts;
        rights = keep_forest v w d f.id f.right (λ j q a o. h j q a (omega (arith, o))) k.rights;
      },
      keep_frames v w d fs (graft f t) (λ j q a o. h j q a (omega (arith, o))) all,
    )

abbrev pub Graft : Frame → Tree → Forest
Graft f t = join f.left (child t f.right)

-- What stands around a place may stand around another tree with the same root.
NodeOk-retarget :
    {d par : ℕ} {root : Bool} (f : Frame) (t u : Tree)
    → root_of t ≡ root_of u
    → f.page.leaf ≡ false
    → NodeOk d par root f.page (Graft f t)
    → NodeOk d par root f.page (Graft f u)
unfolding count
NodeOk-retarget f t u e inner h =
    let fits = h.fits in
    let roots : roots_of (Graft f t) ≡ roots_of (Graft f u) =
      roots_of-join f.left (child t f.right)
      ∙ ap (λ i. roots_of f.left ++ i ∷ roots_of f.right) e
      ∙ sym (roots_of-join f.left (child u f.right)) in
    let sizes : count (Graft f u) ≡ count (Graft f t) =
      same_count (count-join f.left (child t f.right)) (count-join f.left (child u f.right)) in
    record {
      fits = record {
        shaped = fits.shaped;
        children = fits.children ∙ roots;
        leaf = λ l. absurd (different (sym l ∙ inner));
        inner = λ l. sizes ∙ fits.inner l;
        few = fits.few;
      };
      degree = h.degree;
      parent = h.parent;
      is_root = h.is_root;
    }
  where
    different : true ≡ false → ⊥
    different d = cc

    same_count :
        count (Graft f t) ≡ count f.left + suc (count f.right)
        → count (Graft f u) ≡ count f.left + suc (count f.right)
        → count (Graft f u) ≡ count (Graft f t)
    same_count a b = b ∙ sym a

pub FramesOk-retarget :
    (v : View) (d : ℕ) (fs : List Frame) (t u : Tree)
    → root_of t ≡ root_of u
    → FramesOk v d fs t
    → FramesOk v d fs u
FramesOk-retarget v d [] t u e h = tt
FramesOk-retarget v d (f ∷ fs) t u e (k, all) = (
  record {
    at = k.at;
    ok = NodeOk-retarget f t u e k.inner k.ok;
    inner = k.inner;
    room = k.room;
    lefts = k.lefts;
    rights = k.rights;
  },
  FramesOk-retarget v d fs (graft f t) (graft f u) refl all,
)
