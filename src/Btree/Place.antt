-- ===== src/Btree/Place.antt =====
-- The way of `searchRowPtr` in src/backend/Btree.tpp to the cell of a key that the tree has.
use kndb.Base.{
  ℕ, zero, suc, ◌+◌, ◌≤◌, ◌≡◌, refl, sym, ap, subst, ◌∙◌, true, false, List, ◌∷◌, ◌++◌, none, some,
  if◌then◌else◌, All, arith, length, get_elem?, inl, inr, Bool-cases,
}
use kndb.Posix.{Posix}
use kndb.Vari.{Vari}
use kndb.Vari.Codec.{Memory}
use kndb.Vari.Order.{less}
use kndb.Vari.Order.Laws.{IsOrdinary}
use kndb.NodePage.{Cell, NodePage}
use kndb.Cache.Steps.{View}
use kndb.Btree.{lower_bound, is_key, search_row_ptr}
use kndb.Btree.Lookup.{find_key, Sorted, Ordinary}
use kndb.Btree.Tree.{
  Tree, tree, Forest, child, cells_of, weave, count, child_at, below, height, find_key-weave,
  child_at-ordered,
}
use kndb.Btree.Reads.{Reads, pure-Reads}
use kndb.Btree.Search.{
  root_of, roots_of, lower_bound_le, visit, descend_inner, below_at, below_leaf,
}
use kndb.Btree.Shape.{
  join, Frame, graft, plug, roots_of-join, count-join, length-roots_of, child_at-join, height-join,
}
use kndb.Btree.Order.{lower_split}
use kndb.Btree.Replace.{replace_value, replace_child}
use kndb.Btree.Vectors.{cut_forest, get_elem?-front}
use kndb.Btree.Sound.{TreeOk, FrameOk, FramesOk, above, at_root, ForestOk-join}
use kndb.Btree.Descent.{first_child}

module _ (os : Posix) (mem : Memory) (v : View) (ids : List ℕ) (d : ℕ) (key : Vari)
    (values : List Vari) (ordinary : IsOrdinary key) where
  -- A tree with other values at the place makes the whole tree have them.
  abbrev pub Changes : List Frame → Tree → Type 0
  Changes fs t =
      (u : Tree)
      → cells_of u ≡ replace_value key values (cells_of t)
      → cells_of (plug fs u) ≡ replace_value key values (cells_of (plug fs t))

  -- The node of the cell that the search ends at, and the way up from it.
  pub record Meets (fuel : ℕ) (fs : List Frame) (t : Tree) : Type 0 where
    pub frames : List Frame
    pub id : ℕ
    pub page : NodePage
    pub kids : Forest
    pub run :
        Reads
          (search_row_ptr os mem fuel key (root_of t))
          v
          ids
          (record { page_id = id; cell_id = lower_bound key page.cells })
    pub same : plug frames (tree id page kids) ≡ plug fs t
    pub found : is_key key (get_elem? page.cells (lower_bound key page.cells)) ≡ true
    pub ok : TreeOk v d (above frames) (at_root frames) (tree id page kids)
    pub frames_ok : FramesOk v d frames (tree id page kids)
    pub sorted : Sorted (cells_of (tree id page kids))
    pub keys : Ordinary (cells_of (tree id page kids))
    pub changes : Changes frames (tree id page kids)

  abbrev pub Approaches : ℕ → List Frame → Tree → Type 0
  Approaches fuel fs t =
      height t ≤ fuel
      → TreeOk v d (above fs) (at_root fs) t
      → FramesOk v d fs t
      → Sorted (cells_of t)
      → Ordinary (cells_of t)
      → (c : Cell) → find_key key (cells_of t) ≡ some c
      → Changes fs t
      → Meets fuel fs t

  meet_here :
      (fuel id : ℕ) (p : NodePage) (kids : Forest) (fs : List Frame)
      → is_key key (get_elem? p.cells (lower_bound key p.cells)) ≡ true
      → Approaches (suc fuel) fs (tree id p kids)
  unfolding TreeOk
  meet_here fuel id p kids fs found low (at, good, room, all) frames s o c there changes = record {
    frames = fs;
    id = id;
    page = p;
    kids = kids;
    run =
        visit os mem v ids key ordinary fuel id p _ at good.fits.shaped
          (rw found (pure-Reads v ids _));
    same = refl;
    found = found;
    ok = (at, good, room, all);
    frames_ok = frames;
    sorted = s;
    keys = o;
    changes = changes;
  }

  -- The key is below the node.
  down :
      (kids : Forest) (cs : List Cell) (c : Cell)
      → Sorted (weave kids cs)
      → Ordinary (weave kids cs)
      → find_key key (weave kids cs) ≡ some c
      → is_key key (get_elem? cs (lower_bound key cs)) ≡ false
      → find_key key (below kids (lower_bound key cs)) ≡ some c
  down kids cs c s o there other =
      let here = get_elem? cs (lower_bound key cs) in
      let rest = find_key key (below kids (lower_bound key cs)) in
      subst (λ b. (if b then here else rest) ≡ some c) other
        (sym (find_key-weave key ordinary kids cs s o) ∙ there)

  -- Other values in a child are other values in the node.
  change_node :
      (fs : List Frame) (f : Frame) (t : Tree) (c : Cell)
      → All (λ (x : Cell). less x.key key ≡ true) f.before
      → Sorted (cells_of (graft f t))
      → Ordinary (cells_of (graft f t))
      → find_key key (cells_of t) ≡ some c
      → Changes fs (graft f t)
      → Changes (f ∷ fs) t
  unfolding plug cells_of
  change_node fs f t c lo s o there changes u more =
      let path = λ (x : Tree). ap (weave (join f.left (child x f.right))) f.cells in
      changes (graft f u) (
        path u
        ∙ replace_child key values ordinary f.left f.right t u f.before f.behind c f.even lo
            (subst Sorted (path t) s) (subst Ordinary (path t) o) there more
        ∙ ap (replace_value key values) (sym (path t)))

  meet_below :
      (fuel : ℕ) (fs : List Frame) (f : Frame) (t : Tree)
      → f.page.leaf ≡ false
      → Approaches fuel (f ∷ fs) t
      → length f.before ≡ lower_bound key f.page.cells
      → All (λ (x : Cell). less x.key key ≡ true) f.before
      → is_key key (get_elem? f.page.cells (lower_bound key f.page.cells)) ≡ false
      → Approaches (suc fuel) fs (graft f t)
  unfolding TreeOk height cells_of plug
  meet_below fuel fs f t inner next place lo other low (at, good, room, all) frames s o c there
        changes =
      let kids = join f.left (child t f.right) in
      let i = lower_bound key f.page.cells in
      let (lefts, (first, rights)) = ForestOk-join v d f.id f.left (child t f.right) all in
      let at_child : child_at kids i ≡ some t =
        subst (λ j. child_at kids j ≡ some t) (f.even ∙ place) (child_at-join f.left f.right t) in
      let root : get_elem? f.page.children i ≡ some (root_of t) =
        rw (good.fits.children, roots_of-join f.left (child t f.right))
          (subst
            (λ j. get_elem? (roots_of f.left ++ root_of t ∷ roots_of f.right) j ≡ some (root_of t))
            (length-roots_of f.left ∙ f.even ∙ place)
            (get_elem?-front (roots_of f.left) (roots_of f.right) (root_of t))) in
      let (st, ot) =
        child_at-ordered kids f.page.cells i t (lower_bound_le key f.page.cells) at_child s o in
      let frame : FrameOk v d (above fs) (at_root fs) f t = record {
        at = at;
        ok = good;
        inner = inner;
        room = room;
        lefts = lefts;
        rights = rights;
      } in
      let found =
        ap (find_key key) (sym (below_at kids i t at_child))
        ∙ down kids f.page.cells c s o there other in
      let r =
        next (omega (arith, low, height-join f.left f.right t)) first (frame, frames) st ot c found
          (change_node fs f t c lo s o found changes) in
      record {
        frames = r.frames;
        id = r.id;
        page = r.page;
        kids = r.kids;
        run = visit os mem v ids key ordinary fuel f.id f.page _ at good.fits.shaped (
            rw other (
              descend_inner os mem v ids key ordinary fuel f.id (root_of t) f.page _ inner root
                r.run));
        same = r.same;
        found = r.found;
        ok = r.ok;
        frames_ok = r.frames_ok;
        sorted = r.sorted;
        keys = r.keys;
        changes = r.changes;
      }

  pub approach : (fuel : ℕ) (fs : List Frame) (t : Tree) → Approaches fuel fs t
  unfolding TreeOk height cells_of
  approach zero fs (tree id p kids) low ok frames s o c there changes = absurd (omega arith)
  approach (suc fuel) fs (tree id p kids) low ok frames s o c there changes =
      elim (Bool-cases (is_key key (get_elem? p.cells (lower_bound key p.cells)))) [
        | inl found ↦ meet_here fuel id p kids fs found low ok frames s o c there changes
        | inr other ↦ elim (Bool-cases p.leaf) [
          | inl leaf ↦
              let gone = below_leaf key kids (lower_bound key p.cells) (ok.1.fits.leaf leaf) in
              absurd (different c (sym gone ∙ down kids p.cells c s o there other))
          | inr inner ↦
              let new : Cell = record { key = key; value = values } in
              let (ls, rs, e, size, lo, hi) = lower_split new p.cells in
              let (a, b, f, n) =
                cut_forest (length ls) kids
                  (omega (arith, size, ok.1.fits.inner inner, lower_bound_le key p.cells)) in
              let all : count kids ≡ count a + count b = ap count f ∙ count-join a b in
              let (t, rest, g) =
                first_child os mem v ids d new ordinary b (
                  omega (arith, all, n, size, ok.1.fits.inner inner, lower_bound_le key p.cells)) in
              let here : Frame = record {
                id = id;
                page = p;
                left = a;
                right = rest;
                before = ls;
                behind = rs;
                cells = e;
                even = n;
              } in
              subst (λ ks. Approaches (suc fuel) fs (tree id p ks)) (sym (f ∙ ap (join a) g))
                (meet_below fuel fs here t inner (approach fuel (here ∷ fs) t) size lo other) low ok
                frames s o c there changes
        ]
      ]
    where
      different : (c : Cell) → none ≡ some c → ⊥
      different c e = cc
