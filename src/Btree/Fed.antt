-- ===== src/Btree/Fed.antt =====
-- What the steps of `split_inner` in src/backend/Btree.tpp leave as it is, and the parent afterwards.
use kndb.Base.{
  ℕ, ◌+◌, ◌^◌, ◌<◌, ◌≤◌, ◌≡◌, ◌≢◌, refl, sym, ap, subst, ◌∙◌, false, List, ◌∷◌, ◌++◌, if◌then◌else◌,
  arith, ◌==◌, length, inl, inr, Bool-cases,
}
use kndb.NodePage.{NodePage}
use kndb.Cache.Steps.{View}
use kndb.Btree.{Btree}
use kndb.Btree.Tree.{tree, Forest, child}
use kndb.Btree.Reads.{NodeAt}
use kndb.Btree.Search.{roots_of}
use kndb.Btree.Shape.{
  Frame, graft, plug, occurs, occurs_in, occurs_above, roots_of-join, occurs_in-join, occurs-plug,
  root_of-plug,
}
use kndb.Btree.Vectors.{length_append}
use kndb.Btree.Writes.{
  NodeRef, at_of, Same, Same-trans, same_NodeRef, same_NodeAt, write_node, written, unwritten,
}
use kndb.Btree.Sound.{
  TreeOk, ForestOk, above, at_root, keep_tree, keep_forest, keep_frames, FramesOk-retarget,
  join-ForestOk, ForestOk-join, self_one, apart_none,
}
use kndb.Btree.Moves.{reparent, occurs_in-reparent}
use kndb.Btree.Halves.{raised}
use kndb.Btree.Spread.{Cut}
use kndb.Btree.NewHalf.{Absent, Absent-in, Absent-above, Spread, Open}
use kndb.Btree.Spot.{Spot, Full, fed, linked, half_l, half_r, new_kids, linked_ok}

module _ (d : ℕ) (narrow : d ≤ 2 ^ 15) (v : View) (t : Btree) (gs : List Frame) (f : Frame)
    (id r rp : ℕ) (p : NodePage) (kids : Forest) (h : Full v t d gs f id r rp p kids)
    (cut : Cut d p kids) where
  abbrev one : ℕ → ℕ → ℕ
  one i j = if i == j then 1 else 0

  -- How often an id occurs around the node and its parent.
  abbrev around : ℕ → ℕ
  around j = occurs_in j f.left + occurs_in j f.right + occurs_above j gs

  once_around :
      (j : ℕ) → one id j + (occurs_in j cut.kl + occurs_in j cut.kr) + one f.id j + around j ≤ 1
  once_around j =
      let halves : occurs_in j kids ≡ occurs_in j cut.kl + occurs_in j cut.kr =
        ap (occurs_in j) cut.kids_join ∙ occurs_in-join j cut.kl cut.kr in
      omega (arith, h.once j, halves)

  pub id_apart : id ≢ f.id
  id_apart e =
      apart_none (one f.id) id f.id (omega (arith, once_around id, self_one id)) (self_one f.id)
        (sym e)

  abbrev pub after_raise : View
  after_raise = raised v id r p f.id rp f.page cut.ls cut.rs f.before f.behind cut.c

  raise_stays : (j : ℕ) → j ≢ id → j ≢ f.id → Same v after_raise j
  raise_stays j oi of = Same-trans (unwritten h.parent (fed d f id p kids cut) j of) (
      unwritten (same_NodeRef (unwritten h.parent (fed d f id p kids cut) id id_apart) h.node)
        (record p { cells = cut.ls ++ cut.rs }) j oi)

  abbrev pub opened : NodePage
  opened = record p { cells = cut.ls ++ cut.rs }

  pub opened_ref : NodeRef after_raise id r opened
  opened_ref =
      written (same_NodeRef (unwritten h.parent (fed d f id p kids cut) id id_apart) h.node) opened
        h.node.own

  pub fed_ref : NodeRef after_raise f.id rp (fed d f id p kids cut)
  fed_ref =
      same_NodeRef
        (unwritten (same_NodeRef (unwritten h.parent (fed d f id p kids cut) id id_apart) h.node)
          opened f.id (λ e. id_apart (sym e)))
        (written h.parent (fed d f id p kids cut) h.parent.own)

  none_kids : (i : ℕ) → 0 < one id i + one f.id i → occurs_in i cut.kl + occurs_in i cut.kr ≡ 0
  none_kids i o = omega (arith, once_around i, o)

  none_around : (i : ℕ) → 0 < one id i + one f.id i → around i ≡ 0
  none_around i o = omega (arith, once_around i, o)

  below_id : 0 < one id id + one f.id id
  below_id = omega (arith, self_one id)

  below_up : 0 < one id f.id + one f.id f.id
  below_up = omega (arith, self_one f.id)

  abbrev halves_of : ℕ → ℕ
  halves_of j = occurs_in j cut.kl + occurs_in j cut.kr

  kids_stay : (j : ℕ) → 0 < halves_of j → Same v after_raise j
  kids_stay j o =
      raise_stays j (apart_none halves_of id j (none_kids id below_id) o)
        (apart_none halves_of f.id j (none_kids f.id below_up) o)

  pub opened-Open : Open after_raise d id r f.id opened cut.ls cut.rs cut.kl cut.kr
  opened-Open =
      let (lows, highs) =
        ForestOk-join v d id cut.kl cut.kr (subst (ForestOk v d id) cut.kids_join h.kids_ok) in
      record {
        node = opened_ref;
        cells = refl;
        children = h.good.fits.children ∙ ap roots_of cut.kids_join ∙ roots_of-join cut.kl cut.kr;
        degree = h.good.degree;
        parent = h.good.parent;
        not_root = h.good.is_root;
        size_l = cut.size_l;
        size_r = cut.size_r;
        shares = cut.shares;
        once = λ k. omega (arith, once_around k);
        lows =
            keep_forest v after_raise d id cut.kl (λ j x a o. kids_stay j (omega (arith, o))) lows;
        highs =
            keep_forest v after_raise d id cut.kr (λ j x a o. kids_stay j (omega (arith, o))) highs;
      }

  module _ (w : View) (new : ℕ)
      (s : Spread after_raise w d id r f.id new opened cut.ls cut.rs cut.kl cut.kr) where
    pub fed_kept : NodeRef w f.id rp (fed d f id p kids cut)
    fed_kept =
        same_NodeRef
          (s.kept f.id (fed d f id p kids cut) (at_of fed_ref) (λ e. id_apart (sym e))
            (omega (arith, none_kids f.id below_up)))
          fed_ref

    abbrev pub after_link : View
    after_link = write_node w f.id rp (linked d f id p kids cut new)

    link_stays : (j : ℕ) (x : NodePage) → NodeAt v j x → 0 < around j → Same v after_link j
    link_stays j x a o =
        let oi = apart_none around id j (none_around id below_id) o in
        let of = apart_none around f.id j (none_around f.id below_up) o in
        let first = raise_stays j oi of in
        Same-trans first (
          Same-trans (s.kept j x (same_NodeAt first a) oi (omega (arith, once_around j, o)))
            (unwritten fed_kept (linked d f id p kids cut new) j of))

    -- The new node is none of the others.
    none_is_new : Absent v new
    none_is_new j x a = elim (Bool-cases (j == id)) [
      | inl e ↦
          let same : id ≡ j = ground (arith, e) in
          subst (λ k. k ≢ new) same (s.apart id opened (at_of opened_ref))
      | inr n ↦ elim (Bool-cases (j == f.id)) [
        | inl e ↦
            let same : f.id ≡ j = ground (arith, e) in
            subst (λ k. k ≢ new) same (s.apart f.id (fed d f id p kids cut) (at_of fed_ref))
        | inr m ↦
            let oi : j ≢ id = ground (arith, n) in
            let of : j ≢ f.id = ground (arith, m) in
            s.apart j x (same_NodeAt (raise_stays j oi of) a)
      ]
    ]

    new_apart : new ≢ f.id
    new_apart e = s.apart f.id (fed d f id p kids cut) (at_of fed_ref) (sym e)

    -- How often an id occurs in the two halves.
    abbrev in_halves : ℕ → ℕ
    in_halves j = one id j + halves_of j + one new j

    halves_stay : (j : ℕ) → 0 < in_halves j → Same w after_link j
    halves_stay j o =
        let off : one new f.id ≡ 0 = ground (arith, new_apart) in
        unwritten fed_kept (linked d f id p kids cut new) j
          (apart_none in_halves f.id j (omega (arith, once_around f.id, self_one f.id, off)) o)

    none_new :
        one id new + (occurs_in new cut.kl + occurs_in new cut.kr) + one f.id new + around new ≡ 0
    none_new =
        let (lows, highs) =
          ForestOk-join v d id cut.kl cut.kr (subst (ForestOk v d id) cut.kids_join h.kids_ok) in
        let off : (id == new) ≡ false = ground (arith, s.apart id opened (at_of opened_ref)) in
        let off_up : (f.id == new) ≡ false = ground (arith, new_apart) in
        rw (off, off_up)
          (omega (
            arith,
            Absent-in v d id cut.kl new lows none_is_new,
            Absent-in v d id cut.kr new highs none_is_new,
            Absent-in v d f.id f.left new h.lefts none_is_new,
            Absent-in v d f.id f.right new h.rights none_is_new,
            Absent-above v d gs _ new h.frames none_is_new,
          ))

    once_linked :
        (k : ℕ)
        → occurs k
            (plug gs (tree f.id (linked d f id p kids cut new) (new_kids d f id p kids cut new)))
          ≤ 1
    unfolding occurs
    once_linked k =
        let l = tree id (half_l d f id p kids cut) cut.kl in
        let u = tree new (half_r d f id p kids cut new) (reparent new cut.kr) in
        let all : occurs k
              (plug gs (tree f.id (linked d f id p kids cut new) (new_kids d f id p kids cut new)))
            ≡ one id k
              + (occurs_in k cut.kl + occurs_in k cut.kr)
              + one f.id k
              + around k
              + one new k =
          omega (
            arith,
            occurs-plug k gs
                (tree f.id (linked d f id p kids cut new) (new_kids d f id p kids cut new)),
            occurs_in-join k f.left (child l (child u f.right)),
            occurs_in-reparent k new cut.kr,
          ) in
        elim (Bool-cases (new == k)) [
          | inl e ↦
              let same : new ≡ k = ground (arith, e) in
              let none_here : one id k
                    + (occurs_in k cut.kl + occurs_in k cut.kr)
                    + one f.id k
                    + around k
                  ≡ 0 =
                subst
                  (λ j.
                    one id j + (occurs_in j cut.kl + occurs_in j cut.kr) + one f.id j + around j
                    ≡ 0)
                  same none_new in
              let at_most : one new k ≤ 1 = ground arith in omega (arith, all, none_here, at_most)
          | inr n ↦ let here : one new k ≡ 0 = rw n refl in omega (arith, all, once_around k, here)
        ]

    pub fed-Spot :
        Spot after_link t d gs f.id rp
          (linked d f id p kids cut new)
          (new_kids d f id p kids cut new)
    unfolding TreeOk plug occurs
    fed-Spot =
        let l = tree id (half_l d f id p kids cut) cut.kl in
        let u = tree new (half_r d f id p kids cut new) (reparent new cut.kr) in
        let sizes : length f.page.cells ≡ length f.before + length f.behind =
          ap length f.cells ∙ length_append f.before f.behind in
        record {
          node = written fed_kept (linked d f id p kids cut new) h.parent.own;
          good =
              linked_ok d f id p kids cut (above gs) (at_root gs) new narrow h.up_degree h.up_parent
                h.up_root h.around_even h.inner h.room;
          few = omega (arith, length_append f.before (cut.c ∷ f.behind), sizes, h.room);
          kids_ok =
              join-ForestOk after_link d f.id f.left (child l (child u f.right))
                (keep_forest v after_link d f.id f.left
                  (λ j x a o. link_stays j x a (omega (arith, o))) h.lefts)
                (
                  keep_tree w after_link d f.id false l
                      (λ j x a o. halves_stay j (omega (arith, o))) s.low_ok,
                  (
                    keep_tree w after_link d f.id false u
                        (λ j x a o.
                          halves_stay j (omega (arith, o, occurs_in-reparent j new cut.kr)))
                        s.high_ok,
                    keep_forest v after_link d f.id f.right
                        (λ j x a o. link_stays j x a (omega (arith, o))) h.rights,
                  ),
                );
          frames = FramesOk-retarget after_link d gs (graft f (tree id p kids)) _ refl (
              keep_frames v after_link d gs _ (λ j x a o. link_stays j x a (omega (arith, o)))
                h.frames);
          once = once_linked;
          root = h.root ∙ root_of-plug gs (graft f (tree id p kids)) _ refl;
          degree = h.degree;
        }

    pub low_kept : NodeRef after_link id r (half_l d f id p kids cut)
    low_kept = same_NodeRef (halves_stay id (omega (arith, self_one id))) s.low
