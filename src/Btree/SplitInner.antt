-- ===== src/Btree/SplitInner.antt =====
-- `split` of a full node of src/backend/Btree.tpp below another one.
use kndb.Base.{
  ℕ, suc, ◌+◌, ◌*◌, ◌/◌, ◌^◌, ◌<◌, ◌≤◌, ◌≡◌, refl, sym, ap, subst, ◌∙◌, true, false, not, List, ◌∷◌,
  ◌++◌, some, M, expect, ◌>>=◌, ◌>>◌, arith, ◌==◌, length,
}
use kndb.Constants.{childid_invalid}
use kndb.Posix.{Posix, PosixLaws}
use kndb.Vari.Codec.{Memory}
use kndb.NodePage.{Cell, NodePage}
use kndb.Cache.Steps.{View}
use kndb.Pager.Client.{Client}
use kndb.Btree.{
  Btree, b_node, b_new, move_half, fields, on_node, set_children, find_child, insert_at,
  split_inner,
}
use kndb.Btree.Tree.{tree, Forest, child, cells_of, count}
use kndb.Btree.Search.{roots_of}
use kndb.Btree.Shape.{
  Frame, plug, occurs, occurs_above, roots_of-join, count-join, occurs-plug, cells_of-plug,
  length-roots_of,
}
use kndb.Btree.Vectors.{length_append, insert_at-behind, find_child-roots_of}
use kndb.Btree.Writes.{NodeRef, ref_of, Writes, b_node-Writes, fields-Writes, on_node-Writes}
use kndb.Btree.Runs.{Runs, Writes-Runs, Writes-done, expect-Runs, assume-Runs, get_self-Runs}
use kndb.Btree.Sound.{self_one}
use kndb.Btree.Halves.{raise_median_lem}
use kndb.Btree.Spread.{Cut, cut_node}
use kndb.Btree.NewHalf.{Spread, new_half_at}
use kndb.Btree.Spot.{Spot, Full, linked, half_l, new_kids, fed_cells}
use kndb.Btree.Fed.{after_raise, id_apart, opened, opened-Open, fed-Spot, fed_kept, low_kept}

-- After a split: the node above, which may be full now, with the cells of the whole tree as they were; the node is not the root.
pub record Stepped (w : View) (u : Btree) (d : ℕ) (gs : List Frame) (id r : ℕ) (cells : List Cell)
    : Type 0 where
  pub up : ℕ
  pub object : ℕ
  pub page : NodePage
  pub kids : Forest
  pub spot : Spot w u d gs up object page kids
  pub same_cells : cells_of (plug gs (tree up page kids)) ≡ cells
  pub low : NodePage
  pub node : NodeRef w id r low
  pub not_root : low.root ≡ false
  pub parent : low.parent_id ≡ up

module _ (d : ℕ) (two : 2 ≤ d) (narrow : d ≤ 2 ^ 15) where
  Full-below :
      (v : View) (t : Btree) (gs : List Frame) (f : Frame) (id r : ℕ) (p : NodePage) (kids : Forest)
      → (h : Spot v t d (f ∷ gs) id r p kids) → Full v t d gs f id r (h.frames.0.at.object) p kids
  unfolding count plug occurs occurs_above
  Full-below v t gs f id r p kids h =
      let k = h.frames.0 in
      record {
        node = h.node;
        good = h.good;
        kids_ok = h.kids_ok;
        parent = ref_of k.at;
        inner = k.inner;
        around_even =
            omega
              (arith, k.ok.fits.inner k.inner, count-join f.left (child (tree id p kids) f.right));
        up_degree = k.ok.degree;
        up_parent = k.ok.parent;
        up_root = k.ok.is_root;
        room = k.room;
        lefts = k.lefts;
        rights = k.rights;
        frames = h.frames.1;
        once = λ j. omega (arith, h.once j, occurs-plug j (f ∷ gs) (tree id p kids));
        root = h.root;
        degree = h.degree;
      }

  module _ (os : Posix) (mem : Memory) (laws : PosixLaws os) where
    abbrev link_code : Frame → ℕ → ℕ → M (Client os Btree) (Unit {0})
    link_code f rp new = do
      q ← fields os mem rp
      children ← expect (insert_at (length f.before + 1) new q.children)
      on_node os mem rp (set_children os mem children)

    -- The new child goes behind the node that was full.
    link :
        (v : View) (t : Btree) (gs : List Frame) (f : Frame) (id r rp : ℕ) (p : NodePage)
        (kids : Forest) (full : Full v t d gs f id r rp p kids) (cut : Cut d p kids) (new : ℕ)
        (w : View) (list : List ℕ)
        → f.page.children ≡ roots_of f.left ++ id ∷ roots_of f.right
        → Spread
            (after_raise d narrow v t gs f id r rp p kids full cut)
            w
            d
            id
            r
            f.id
            new
            (opened d narrow v t gs f id r rp p kids full cut)
            cut.ls
            cut.rs
            cut.kl
            cut.kr
        → Runs
            (link_code f rp new)
            w
            list
            t
            (λ a w list u. Stepped w u d gs id r (cells_of (plug (f ∷ gs) (tree id p kids))))
    unfolding plug
    link v t gs f id r rp p kids full cut new w list around s =
        let up = fed_kept d narrow v t gs f id r rp p kids full cut w new s in
        let behind : length f.before + 1 ≡ suc (length (roots_of f.left)) =
          omega (arith, f.even, length-roots_of f.left) in
        let put_in : insert_at (length f.before + 1) new f.page.children
            ≡ some (roots_of f.left ++ id ∷ new ∷ roots_of f.right) =
          rw (around, behind) (insert_at-behind (roots_of f.left) (roots_of f.right) id new) in
        Writes-Runs _ (fields-Writes up mem) (
          expect-Runs _ put_in (
            Writes-done
              (on_node-Writes up mem _ tt (linked d f id p kids cut new) refl full.parent.own)
              (record {
                up = f.id;
                object = rp;
                page = linked d f id p kids cut new;
                kids = new_kids d f id p kids cut new;
                spot = fed-Spot d narrow v t gs f id r rp p kids full cut w new s;
                same_cells = cells_of-plug gs _ _ (fed_cells d f id p kids cut new);
                low = half_l d f id p kids cut;
                node = low_kept d narrow v t gs f id r rp p kids full cut w new s;
                not_root = full.good.is_root;
                parent = full.good.parent;
              })))

    few_children : (n : ℕ) → n < childid_invalid → not (n == childid_invalid) ≡ true
    few_children n few = ground (arith, few)

    pub split_inner_ends :
        (v : View) (ids : List ℕ) (t : Btree) (gs : List Frame) (f : Frame) (id r : ℕ)
        (p : NodePage) (kids : Forest)
        → Spot v t d (f ∷ gs) id r p kids
        → length p.cells + 1 ≡ 2 * d
        → Runs
            (split_inner os mem r id)
            v
            ids
            t
            (λ a w list u. Stepped w u d gs id r (cells_of (plug (f ∷ gs) (tree id p kids))))
    unfolding split_inner plug
    split_inner_ends v ids t gs f id r p kids h size =
        let k = h.frames.0 in
        let full = Full-below v t gs f id r p kids h in
        let cut = cut_node d p kids two size h.good.fits in
        let around = k.ok.fits.children ∙ roots_of-join f.left (child (tree id p kids) f.right) in
        let place : find_child id f.page.children 0 ≡ length f.before =
          ap (λ xs. find_child id xs 0) around
          ∙ find_child-roots_of id f.left (roots_of f.right) 0
              (omega (arith, full.once id, self_one id))
          ∙ omega (arith, f.even) in
        let few : not (length f.before == childid_invalid) ≡ true =
          few_children (length f.before)
            (omega (arith, k.room, narrow, ap length f.cells ∙ length_append f.before f.behind)) in
        let v1 = after_raise d narrow v t gs f id r k.at.object p kids full cut in
        let p1 = opened d narrow v t gs f id r k.at.object p kids full cut in
        let o1 = opened-Open d narrow v t gs f id r k.at.object p kids full cut in
        let parent =
          subst (λ i. Writes (b_node os mem i) v v ids k.at.object) (sym h.good.parent)
            (b_node-Writes full.parent mem) in
        Writes-Runs _ (fields-Writes h.node mem) (
          Writes-Runs _ parent (
            Writes-Runs _ (fields-Writes full.parent mem) (
              rw place (
                assume-Runs _ _ few (
                  Writes-Runs _
                    (raise_median_lem os mem ids v id r f.id k.at.object p f.page cut.ls cut.rs
                      f.before f.behind cut.c h.node full.parent
                      (id_apart d narrow v t gs f id r k.at.object p kids full cut) cut.cells
                      cut.half f.cells)
                    (get_self-Runs
                      (λ u. b_new os mem u.degree f.page.page_id false p.leaf >>= λ n.
                        move_half os mem r n (length p.cells / 2)
                        >> (fields os mem n >>= λ x. link_code f k.at.object x.page_id))
                      (new_half_at d two narrow os mem laws (λ x. link_code f k.at.object x.page_id)
                        v1 id r f.id p1 cut.ls cut.rs cut.kl cut.kr o1
                        (λ new w list s.
                          link v t gs f id r k.at.object p kids full cut new w list around s)
                        t.degree f.page.page_id (length p.cells / 2) h.degree full.parent.own
                        cut.half)))))))
