-- ===== src/Btree/Changed.antt =====
-- A node of src/backend/Btree.tpp with other values in one cell, in its tree.
use kndb.Base.{
  ℕ, suc, ◌+◌, ◌^◌, ◌<◌, ◌≤◌, ◌≡◌, refl, sym, ap, subst, ◌∙◌, true, List, [], ◌∷◌, ◌++◌, All, arith,
  length, inl, inr, Bool-cases,
}
use kndb.Posix.{Posix}
use kndb.Vari.{Vari}
use kndb.Vari.Codec.{Memory}
use kndb.Vari.Order.{less, equal}
use kndb.Vari.Order.Laws.{IsOrdinary}
use kndb.NodePage.{Cell, NodePage}
use kndb.Cache.Steps.{View}
use kndb.Btree.{Btree, max_depth}
use kndb.Btree.Lookup.{Sorted, Ordinary}
use kndb.Btree.Tree.{Tree, tree, cells_of, weave}
use kndb.Btree.Search.{Fits, root_of}
use kndb.Btree.Shape.{plug, occurs, occurs_in, occurs_above, occurs-plug, root_of-plug}
use kndb.Btree.Vectors.{length_append}
use kndb.Btree.Writes.{NodeRef, at_of, write_node, written, unwritten}
use kndb.Btree.Sound.{
  TreeOk, keep_forest, keep_frames, FramesOk-retarget, FramesOk-plug, self_one, apart_none,
}
use kndb.Btree.Spread.{Even-Fits}
use kndb.Btree.Split.{Stored}
use kndb.Btree.Replace.{replace_value, replace_here}
use kndb.Btree.Place.{Meets}

module _ (os : Posix) (mem : Memory) (d : ℕ) (narrow : d ≤ 2 ^ 15) (key : Vari) (values : List Vari)
    (on : IsOrdinary key) where
  module _ (v : View) (ids : List ℕ) (t : Btree) (whole : Tree) (stored : Stored v t d whole)
      (at : Meets os mem v ids d key values on max_depth [] whole) (ls rs : List Cell) (c : Cell)
      (cut : at.page.cells ≡ ls ++ c ∷ rs) where
    abbrev pub changed : NodePage
    changed = record (at.page) { cells = ls ++ record c { value = values } ∷ rs }

    keys_same : length changed.cells ≡ length at.page.cells
    keys_same =
        let old : length at.page.cells ≡ length ls + suc (length rs) =
          ap length cut ∙ length_append ls (c ∷ rs) in
        length_append ls (record c { value = values } ∷ rs) ∙ sym old

    changed-Fits : Fits at.page at.kids → Fits changed at.kids
    changed-Fits h =
        let some_cells : 0 < length at.page.cells =
          omega (arith, ap length cut ∙ length_append ls (c ∷ rs)) in
        Even-Fits changed at.kids h.children (omega (arith, h.few, keys_same))
          (elim (Bool-cases at.page.leaf) [
            | inl leaf ↦ inl (leaf, h.leaf leaf)
            | inr inner ↦ inr (
              inner,
              omega (arith, h.inner inner, keys_same),
              omega (arith, some_cells, keys_same),
            )
          ])

    once : (k : ℕ) → occurs k (plug at.frames (tree at.id at.page at.kids)) ≤ 1
    unfolding plug
    once k = subst (λ x. occurs k x ≤ 1) (sym at.same) (stored.once k)

    pub changed-Stored :
        (w : View) (r : ℕ)
        → w ≡ write_node v at.id r changed
        → NodeRef v at.id r at.page
        → Stored w t d (plug at.frames (tree at.id changed at.kids))
    unfolding TreeOk plug occurs
    changed-Stored w r e h =
        let (found, good, room, kids) = at.ok in
        let below = λ (k : ℕ). occurs-plug k at.frames (tree at.id at.page at.kids) in
        let none_else : occurs_in at.id at.kids + occurs_above at.id at.frames ≡ 0 =
          omega (arith, once at.id, below at.id, self_one at.id) in
        let keep = λ (j : ℕ) (o : 0 < occurs_in j at.kids + occurs_above j at.frames).
          unwritten h changed j (
            apart_none (λ k. occurs_in k at.kids + occurs_above k at.frames) at.id j none_else o) in
        let u = write_node v at.id r changed in
        subst (λ x. Stored x t d (plug at.frames (tree at.id changed at.kids))) (sym e)
          (record {
            sound =
                FramesOk-plug u d at.frames (tree at.id changed at.kids)
                  (FramesOk-retarget u d at.frames (tree at.id at.page at.kids)
                    (tree at.id changed at.kids) refl
                    (keep_frames v u d at.frames (tree at.id at.page at.kids)
                      (λ j x a o. keep j (omega (arith, o))) at.frames_ok))
                  (
                    at_of (written h changed h.own),
                    record {
                      fits = changed-Fits good.fits;
                      degree = good.degree;
                      parent = good.parent;
                      is_root = good.is_root;
                    },
                    omega (arith, room, keys_same),
                    keep_forest v u d at.id at.kids (λ j x a o. keep j (omega (arith, o))) kids,
                  );
            once = λ k.
                omega
                  (arith, once k, below k, occurs-plug k at.frames (tree at.id changed at.kids));
            root = stored.root ∙ ap root_of (sym at.same) ∙ root_of-plug at.frames _ _ refl;
            degree = stored.degree;
          })

    -- The cells of the whole tree.
    pub changed_cells :
        All (λ (x : Cell). less x.key key ≡ true) ls
        → equal key c.key ≡ true
        → cells_of (plug at.frames (tree at.id changed at.kids))
          ≡ replace_value key values (cells_of whole)
    unfolding cells_of plug
    changed_cells lo e =
        let path = ap (weave at.kids) cut in
        at.changes (tree at.id changed at.kids) (
          replace_here key values on at.kids ls rs c lo e (subst Sorted path at.sorted)
            (subst Ordinary path at.keys)
          ∙ ap (replace_value key values) (sym path))
        ∙ ap (λ x. replace_value key values (cells_of x)) at.same
