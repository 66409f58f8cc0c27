-- ===== src/Btree/Spot.antt =====
-- A node of src/backend/Btree.tpp that may be full, at its place in the tree, before `split` and after.
use kndb.Base.{
  ℕ, suc, ◌+◌, ◌*◌, ◌^◌, ◌≤◌, ◌≡◌, refl, sym, ap, ◌∙◌, Bool, false, List, ◌∷◌, ◌++◌, if◌then◌else◌,
  arith, ◌==◌, length, inl, inr,
}
use kndb.NodePage.{Cell, NodePage}
use kndb.Cache.Steps.{View}
use kndb.Btree.{Btree}
use kndb.Btree.Tree.{tree, Forest, child, cells_of, weave, count}
use kndb.Btree.Search.{root_of, roots_of}
use kndb.Btree.Shape.{
  join, Frame, graft, plug, occurs, occurs_in, occurs_above, roots_of-join, count-join,
  weave-halves, weave-split,
}
use kndb.Btree.Vectors.{length_append}
use kndb.Btree.Writes.{NodeRef}
use kndb.Btree.Sound.{NodeOk, Spare, ForestOk, FramesOk, above, at_root}
use kndb.Btree.Moves.{reparent, weave-reparent}
use kndb.Btree.Halves.{half_page, Shares}
use kndb.Btree.Spread.{Even-Fits, Cut}

-- A node that has at most one cell too many, with the frames on the way up and the tree object.
pub record Spot (v : View) (t : Btree) (d : ℕ) (fs : List Frame) (id r : ℕ) (p : NodePage)
    (kids : Forest) : Type 0 where
  pub node : NodeRef v id r p
  pub good : NodeOk d (above fs) (at_root fs) p kids
  pub few : length p.cells + 1 ≤ 2 * d
  pub kids_ok : ForestOk v d id kids
  pub frames : FramesOk v d fs (tree id p kids)
  pub once : (k : ℕ) → occurs k (plug fs (tree id p kids)) ≤ 1
  pub root : t.root_page_id ≡ root_of (plug fs (tree id p kids))
  pub degree : t.degree ≡ d

-- What a split of the node has to do with its parent, which may have no children yet.
pub record Full (v : View) (t : Btree) (d : ℕ) (gs : List Frame) (f : Frame) (id r rp : ℕ)
    (p : NodePage) (kids : Forest) : Type 0 where
  pub node : NodeRef v id r p
  pub good : NodeOk d f.id false p kids
  pub kids_ok : ForestOk v d id kids
  pub parent : NodeRef v f.id rp f.page
  pub inner : f.page.leaf ≡ false
  pub around_even : count f.left + count f.right ≡ length f.page.cells
  pub up_degree : f.page.degree ≡ d
  pub up_parent : f.page.parent_id ≡ above gs
  pub up_root : f.page.root ≡ at_root gs
  pub room : Spare d f.page
  pub lefts : ForestOk v d f.id f.left
  pub rights : ForestOk v d f.id f.right
  pub frames : FramesOk v d gs (graft f (tree id p kids))
  pub once :
      (k : ℕ)
      → (if id == k then 1 else 0)
          + occurs_in k kids
          + (if f.id == k then 1 else 0)
          + (occurs_in k f.left + occurs_in k f.right + occurs_above k gs)
        ≤ 1
  pub root : t.root_page_id ≡ root_of (plug gs (graft f (tree id p kids)))
  pub degree : t.degree ≡ d

-- The cells of a node are those of its halves and the one between.
pub halves_cells :
    (p : NodePage) (ls rs : List Cell) (c : Cell) (kl kr : Forest) (new : ℕ)
    → Shares p ls rs kl kr
    → weave (join kl kr) (ls ++ c ∷ rs) ≡ weave kl ls ++ c ∷ weave (reparent new kr) rs
unfolding join weave reparent
halves_cells p ls rs c kl kr new (inl (leaf, el, er)) = rw (el, er) refl
halves_cells p ls rs c kl kr new (inr (inner, el, er)) =
    weave-halves kl kr ls rs c el
    ∙ ap (λ zs. weave kl ls ++ c ∷ zs) (sym (weave-reparent new kr rs))

module _ (d : ℕ) (f : Frame) (id : ℕ) (p : NodePage) (kids : Forest) (cut : Cut d p kids) where
  -- The parent when the cell in the middle has gone up, and with the new node.
  abbrev pub fed : NodePage
  fed = record f.page { cells = f.before ++ cut.c ∷ f.behind }

  abbrev pub linked : ℕ → NodePage
  linked new = record fed { children = roots_of f.left ++ id ∷ new ∷ roots_of f.right }

  abbrev pub half_l : NodePage
  half_l = record p { cells = cut.ls; children = roots_of cut.kl }

  abbrev pub half_r : ℕ → NodePage
  half_r new = record (half_page d f.id p new) { cells = cut.rs; children = roots_of cut.kr }

  abbrev pub new_kids : ℕ → Forest
  new_kids new =
      join f.left (
        child (tree id half_l cut.kl) (child (tree new (half_r new) (reparent new cut.kr)) f.right))

  pub fed_cells :
      (new : ℕ)
      → cells_of (tree f.id (linked new) (new_kids new)) ≡ cells_of (graft f (tree id p kids))
  unfolding cells_of
  fed_cells new =
      let whole : weave kids p.cells
          ≡ weave cut.kl cut.ls ++ cut.c ∷ weave (reparent new cut.kr) cut.rs =
        ap (λ ks. weave ks p.cells) cut.kids_join
        ∙ ap (weave (join cut.kl cut.kr)) cut.cells
        ∙ halves_cells p cut.ls cut.rs cut.c cut.kl cut.kr new cut.shares in
      weave-split f.left f.right (tree id p kids) (tree id half_l cut.kl)
        (tree new (half_r new) (reparent new cut.kr)) f.before f.behind cut.c f.even whole
      ∙ ap (weave (join f.left (child (tree id p kids) f.right))) (sym f.cells)

  pub linked_ok :
      (par : ℕ) (root : Bool) (new : ℕ)
      → d ≤ 2 ^ 15
      → f.page.degree ≡ d
      → f.page.parent_id ≡ par
      → f.page.root ≡ root
      → count f.left + count f.right ≡ length f.page.cells
      → f.page.leaf ≡ false
      → Spare d f.page
      → NodeOk d par root (linked new) (new_kids new)
  unfolding count
  linked_ok par root new narrow degree parent is_root even inner room =
      let sizes : length f.page.cells ≡ length f.before + length f.behind =
        ap length f.cells ∙ length_append f.before f.behind in
      let more : length (f.before ++ cut.c ∷ f.behind) ≡ length f.before + suc (length f.behind) =
        length_append f.before (cut.c ∷ f.behind) in
      let now : count (new_kids new) ≡ count f.left + suc (suc (count f.right)) =
        count-join f.left (
          child (tree id half_l cut.kl)
            (child (tree new (half_r new) (reparent new cut.kr)) f.right)) in
      record {
        fits =
            Even-Fits (linked new) (new_kids new)
              (sym (
                roots_of-join f.left (
                  child (tree id half_l cut.kl)
                    (child (tree new (half_r new) (reparent new cut.kr)) f.right))))
              (omega (arith, more, sizes, room, narrow))
              (inr (inner, omega (arith, now, even, more, sizes), omega (arith, more)));
        degree = degree;
        parent = parent;
        is_root = is_root;
      }
