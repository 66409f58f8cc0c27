-- ===== src/Btree/Descent.antt =====
-- The way of `searchRowPtr` in src/backend/Btree.tpp to the leaf where a key belongs that the tree does not have.
use kndb.Base.{
  ℕ, zero, suc, ◌+◌, ◌<◌, ◌≤◌, ◌≡◌, refl, sym, ap, subst, ◌∙◌, true, false, List, ◌∷◌, ◌++◌, none,
  some, if◌then◌else◌, All, arith, length, get_elem?, inl, inr, Bool-cases,
}
use kndb.Constants.{cellid_invalid}
use kndb.Posix.{Posix}
use kndb.Vari.Codec.{Memory}
use kndb.Vari.Order.{less}
use kndb.Vari.Order.Laws.{IsOrdinary}
use kndb.NodePage.{Cell, NodePage}
use kndb.Cache.Steps.{View}
use kndb.Btree.{lower_bound, is_key, search_row_ptr}
use kndb.Btree.Lookup.{find_key, Sorted, Ordinary}
use kndb.Btree.Tree.{
  Tree, tree, Forest, none_left, child, cells_of, weave, count, child_at, below, height,
  find_key-weave, child_at-ordered,
}
use kndb.Btree.Reads.{NodeAt, Reads}
use kndb.Btree.Search.{
  root_of, roots_of, lower_bound_le, no_key, visit, descend_leaf, descend_inner, below_at,
}
use kndb.Btree.Shape.{
  join, Frame, graft, plug, roots_of-join, count-join, length-roots_of, child_at-join, height-join,
}
use kndb.Btree.Order.{Stops, insert_cell, lower_split, insert_cell-weave}
use kndb.Btree.Vectors.{cut_forest, get_elem?-front}
use kndb.Btree.Sound.{NodeOk, Spare, TreeOk, FrameOk, FramesOk, above, at_root, ForestOk-join}

module _ (os : Posix) (mem : Memory) (v : View) (ids : List ℕ) (d : ℕ) (new : Cell)
    (ordinary : IsOrdinary new.key) where
  -- A tree that has one cell more at the place makes the whole tree have one cell more.
  abbrev pub Grows : List Frame → Tree → Type 0
  Grows fs t =
      (u : Tree)
      → cells_of u ≡ insert_cell new (cells_of t)
      → cells_of (plug fs u) ≡ insert_cell new (cells_of (plug fs t))

  -- The leaf that the search ends at, and the way up from it.
  pub record Reaches (fuel : ℕ) (fs : List Frame) (t : Tree) : Type 0 where
    pub frames : List Frame
    pub id : ℕ
    pub page : NodePage
    pub run :
        Reads
          (search_row_ptr os mem fuel new.key (root_of t))
          v
          ids
          (record { page_id = id; cell_id = cellid_invalid })
    pub same : plug frames (tree id page none_left) ≡ plug fs t
    pub leaf : page.leaf ≡ true
    pub at : NodeAt v id page
    pub good : NodeOk d (above frames) (at_root frames) page none_left
    pub room : Spare d page
    pub frames_ok : FramesOk v d frames (tree id page none_left)
    pub grows : Grows frames (tree id page none_left)
    pub low : length frames + 1 ≤ length fs + height t

  abbrev pub Descends : ℕ → List Frame → Tree → Type 0
  Descends fuel fs t =
      height t ≤ fuel
      → TreeOk v d (above fs) (at_root fs) t
      → FramesOk v d fs t
      → Sorted (cells_of t)
      → Ordinary (cells_of t)
      → find_key new.key (cells_of t) ≡ none
      → Grows fs t
      → Reaches fuel fs t

  -- The key is in none of the cells of the node, nor below it.
  not_here :
      (kids : Forest) (cs : List Cell)
      → Sorted (weave kids cs)
      → Ordinary (weave kids cs)
      → find_key new.key (weave kids cs) ≡ none
      → (is_key new.key (get_elem? cs (lower_bound new.key cs)) ≡ false)
        × (find_key new.key (below kids (lower_bound new.key cs)) ≡ none)
  not_here kids cs s o absent =
      let here = get_elem? cs (lower_bound new.key cs) in
      let rest = find_key new.key (below kids (lower_bound new.key cs)) in
      let split = sym (find_key-weave new.key ordinary kids cs s o) ∙ absent in
      elim (Bool-cases (is_key new.key here)) [
        | inl found ↦ absurd (
            no_key os mem v ids new.key ordinary here
              (subst (λ b. (if b then here else rest) ≡ none) found split) found)
        | inr n ↦ (n, subst (λ b. (if b then here else rest) ≡ none) n split)
      ]

  reach_leaf :
      (fuel id : ℕ) (p : NodePage) (fs : List Frame)
      → p.leaf ≡ true
      → Descends (suc fuel) fs (tree id p none_left)
  unfolding TreeOk height cells_of
  reach_leaf fuel id p fs leaf low (at, good, room, all) frames s o absent grows =
      let (other, rest) = not_here none_left p.cells s o absent in
      record {
        frames = fs;
        id = id;
        page = p;
        run =
            visit os mem v ids new.key ordinary fuel id p _ at good.fits.shaped
              (rw other (descend_leaf os mem v ids new.key ordinary fuel id p leaf));
        same = refl;
        leaf = leaf;
        at = at;
        good = good;
        room = room;
        frames_ok = frames;
        grows = grows;
        low = omega arith;
      }

  -- A cell more in a child is a cell more in the node.
  grow_node :
      (fs : List Frame) (f : Frame) (t : Tree)
      → All (λ (x : Cell). less x.key new.key ≡ true) f.before
      → Stops new f.behind
      → Sorted (cells_of (graft f t))
      → Ordinary (cells_of (graft f t))
      → Grows fs (graft f t)
      → Grows (f ∷ fs) t
  unfolding plug cells_of
  grow_node fs f t lo hi s o grows u more =
      let path = λ (x : Tree). ap (weave (join f.left (child x f.right))) f.cells in
      grows (graft f u) (
        path u
        ∙ insert_cell-weave new f.left f.right t u f.before f.behind ordinary f.even
            (subst Sorted (path t) s) (subst Ordinary (path t) o) lo hi more
        ∙ ap (insert_cell new) (sym (path t)))

  reach_inner :
      (fuel : ℕ) (fs : List Frame) (f : Frame) (t : Tree)
      → f.page.leaf ≡ false
      → Descends fuel (f ∷ fs) t
      → length f.before ≡ lower_bound new.key f.page.cells
      → All (λ (x : Cell). less x.key new.key ≡ true) f.before
      → Stops new f.behind
      → Descends (suc fuel) fs (graft f t)
  unfolding TreeOk height cells_of plug
  reach_inner fuel fs f t inner next place lo hi low (at, good, room, all) frames s o absent grows =
      let kids = join f.left (child t f.right) in
      let i = lower_bound new.key f.page.cells in
      let (lefts, (first, rights)) = ForestOk-join v d f.id f.left (child t f.right) all in
      let there : child_at kids i ≡ some t =
        subst (λ j. child_at kids j ≡ some t) (f.even ∙ place) (child_at-join f.left f.right t) in
      let root : get_elem? f.page.children i ≡ some (root_of t) =
        rw (good.fits.children, roots_of-join f.left (child t f.right))
          (subst
            (λ j. get_elem? (roots_of f.left ++ root_of t ∷ roots_of f.right) j ≡ some (root_of t))
            (length-roots_of f.left ∙ f.even ∙ place)
            (get_elem?-front (roots_of f.left) (roots_of f.right) (root_of t))) in
      let (other, rest) = not_here kids f.page.cells s o absent in
      let (st, ot) =
        child_at-ordered kids f.page.cells i t (lower_bound_le new.key f.page.cells) there s o in
      let frame : FrameOk v d (above fs) (at_root fs) f t = record {
        at = at;
        ok = good;
        inner = inner;
        room = room;
        lefts = lefts;
        rights = rights;
      } in
      let r =
        next (omega (arith, low, height-join f.left f.right t)) first (frame, frames) st ot
          (ap (find_key new.key) (sym (below_at kids i t there)) ∙ rest)
          (grow_node fs f t lo hi s o grows) in
      record {
        frames = r.frames;
        id = r.id;
        page = r.page;
        run = visit os mem v ids new.key ordinary fuel f.id f.page _ at good.fits.shaped (
            rw other (
              descend_inner os mem v ids new.key ordinary fuel f.id (root_of t) f.page _ inner root
                r.run));
        same = r.same;
        leaf = r.leaf;
        at = r.at;
        good = r.good;
        room = r.room;
        frames_ok = r.frames_ok;
        grows = r.grows;
        low = omega (arith, r.low, height-join f.left f.right t);
      }

  pub first_child : (b : Forest) → 0 < count b → (t : Tree) × (rest : Forest) × (b ≡ child t rest)
  unfolding count
  first_child none_left some_left = absurd (omega arith)
  first_child (child t rest) some_left = (t, rest, refl)

  pub descent : (fuel : ℕ) (fs : List Frame) (t : Tree) → Descends fuel fs t
  unfolding TreeOk height
  descent zero fs (tree id p kids) low ok = absurd (omega arith)
  descent (suc fuel) fs (tree id p kids) low ok = elim (Bool-cases p.leaf) [
    | inl leaf ↦
        let none_there = ok.1.fits.leaf leaf in
        subst (λ ks. Descends (suc fuel) fs (tree id p ks)) (sym none_there)
          (reach_leaf fuel id p fs leaf) low ok
    | inr inner ↦
        let (ls, rs, e, size, lo, hi) = lower_split new p.cells in
        let (a, b, f, n) =
          cut_forest (length ls) kids
            (omega (arith, size, ok.1.fits.inner inner, lower_bound_le new.key p.cells)) in
        let all : count kids ≡ count a + count b = ap count f ∙ count-join a b in
        let (t, rest, g) =
          first_child b
            (omega (arith, all, n, size, ok.1.fits.inner inner, lower_bound_le new.key p.cells)) in
        let here : Frame = record {
          id = id;
          page = p;
          left = a;
          right = rest;
          before = ls;
          behind = rs;
          cells = e;
          even = n;
        } in
        subst (λ ks. Descends (suc fuel) fs (tree id p ks)) (sym (f ∙ ap (join a) g))
          (reach_inner fuel fs here t inner (descent fuel (here ∷ fs) t) size lo hi) low ok
  ]
