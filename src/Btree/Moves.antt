-- ===== src/Btree/Moves.antt =====
-- Nodes of src/backend/Btree.tpp that get another parent.
use kndb.Base.{
  ℕ, suc, ◌+◌, ◌<◌, ◌≤◌, ◌≡◌, ◌≢◌, refl, ap, false, List, [], ◌∷◌, ◌++◌, if◌then◌else◌, arith, ◌==◌,
}
use kndb.Posix.{Posix}
use kndb.Vari.Codec.{Memory}
use kndb.NodePage.{Cell, NodePage, well_shaped}
use kndb.Cache.Steps.{View}
use kndb.Btree.{b_node, on_node, set_parent, set_parents}
use kndb.Btree.Tree.{tree, Forest, none_left, child, weave, count}
use kndb.Btree.Search.{Fits, roots_of}
use kndb.Btree.Shape.{occurs, occurs_in}
use kndb.Btree.Writes.{
  ref_of, at_of, Writes, >>=-Writes, pure-Writes, Same, Same-trans, Same-refl, write_node, written,
  unwritten, b_node-Writes, on_node-Writes,
}
use kndb.Btree.Sound.{TreeOk, ForestOk, self_one, apart_none, apart_some, keep_tree, keep_forest}

-- Children of another node.
unfoldable pub reparent : ℕ → Forest → Forest
reparent n none_left = none_left
reparent n (child (tree id p kids) rest) =
    child (tree id (record p { parent_id = n }) kids) (reparent n rest)

pub roots_of-reparent : (n : ℕ) (kids : Forest) → roots_of (reparent n kids) ≡ roots_of kids
unfolding reparent
roots_of-reparent n none_left = refl
roots_of-reparent n (child (tree id p ks) kids) = ap (◌∷◌ id) (roots_of-reparent n kids)

pub count-reparent : (n : ℕ) (kids : Forest) → count (reparent n kids) ≡ count kids
unfolding reparent count
count-reparent n none_left = refl
count-reparent n (child (tree id p ks) kids) = ap suc (count-reparent n kids)

pub weave-reparent :
    (n : ℕ) (kids : Forest) (cs : List Cell) → weave (reparent n kids) cs ≡ weave kids cs
unfolding reparent weave
weave-reparent n none_left cs = refl
weave-reparent n (child (tree id p ks) kids) [] = refl
weave-reparent n (child (tree id p ks) kids) (c ∷ cs) =
    ap (λ zs. weave ks p.cells ++ c ∷ zs) (weave-reparent n kids cs)

pub occurs_in-reparent :
    (k n : ℕ) (kids : Forest) → occurs_in k (reparent n kids) ≡ occurs_in k kids
unfolding reparent occurs
occurs_in-reparent k n none_left = refl
occurs_in-reparent k n (child (tree id p ks) kids) =
    ap (λ m. (if id == k then 1 else 0) + occurs_in k ks + m) (occurs_in-reparent k n kids)

-- The view after `setParent` of all children.
abbrev pub Reparented : Posix → Memory → View → View → List ℕ → ℕ → ℕ → Forest → Type 0
Reparented os mem v w ids d n kids =
    Writes (set_parents os mem n (roots_of kids)) v w ids tt
    × ForestOk w d n (reparent n kids)
    × ((j : ℕ) → occurs_in j kids ≡ 0 → Same v w j)

Fits-parent :
    (n : ℕ) (p : NodePage) (kids : Forest) → Fits p kids → Fits (record p { parent_id = n }) kids
unfolding well_shaped
Fits-parent n p kids h = record {
  shaped = h.shaped;
  children = h.children;
  leaf = h.leaf;
  inner = h.inner;
  few = h.few;
}

module _ (os : Posix) (mem : Memory) (ids : List ℕ) (d n : ℕ) where
  set_parents_one :
      (v : View) (par : ℕ) (id : ℕ) (p : NodePage) (ks kids : Forest)
      → ((k : ℕ) → occurs_in k (child (tree id p ks) kids) ≤ 1)
      → TreeOk v d par false (tree id p ks)
      → ForestOk v d par kids
      → (r : ℕ) × Writes (b_node os mem id) v v ids r
        × Writes
            (on_node os mem r (set_parent os mem n))
            v
            (write_node v id r (record p { parent_id = n }))
            ids
            tt
        × ForestOk (write_node v id r (record p { parent_id = n })) d par kids
        × TreeOk
            (write_node v id r (record p { parent_id = n }))
            d
            n
            false
            (tree id (record p { parent_id = n }) ks)
        × ((j : ℕ)
            → occurs_in j (child (tree id p ks) kids) ≡ 0
            → Same v (write_node v id r (record p { parent_id = n })) j)
  unfolding TreeOk occurs
  set_parents_one v par id p ks kids once (at, good, room, all) rest =
      let q = record p { parent_id = n } in
      let h = ref_of at in
      let none_below : occurs_in id ks + occurs_in id kids ≡ 0 =
        omega (arith, once id, self_one id) in
      let all_but = λ (j : ℕ) (off : j ≢ id). unwritten h q j off in
      let apart = λ (j : ℕ) (o : 0 < occurs_in j ks + occurs_in j kids).
        apart_none (λ k. occurs_in k ks + occurs_in k kids) id j none_below o in
      (
        at.object,
        b_node-Writes h mem,
        on_node-Writes h mem (set_parent os mem n) tt q refl at.own,
        keep_forest v (write_node v id at.object q) d par kids
            (λ j x a o. all_but j (apart j (omega (arith, o)))) rest,
        (
          at_of (written h q at.own),
          record {
            fits = Fits-parent n p ks good.fits;
            degree = good.degree;
            parent = refl;
            is_root = good.is_root;
          },
          room,
          keep_forest v (write_node v id at.object q) d id ks
              (λ j x a o. all_but j (apart j (omega (arith, o)))) all,
        ),
        λ j none_there. all_but j (
            apart_some (λ k. (if id == k then 1 else 0)) id j (self_one id)
              (omega (arith, none_there))),
      )

  pub set_parents_lem :
      (v : View) (par : ℕ) (kids : Forest)
      → ((k : ℕ) → occurs_in k kids ≤ 1)
      → ForestOk v d par kids
      → (w : View) × Reparented os mem v w ids d n kids
  unfolding set_parents TreeOk occurs reparent
  set_parents_lem v par none_left once all = (v, (pure-Writes v ids tt, tt, λ j o. Same-refl v j))
  set_parents_lem v par (child (tree id p ks) kids) once (first, rest) =
      let (r, found, wrote, rest1, first1, same1) =
        set_parents_one v par id p ks kids once first rest in
      let v1 = write_node v id r (record p { parent_id = n }) in
      let (w, (run, rest2, same2)) =
        set_parents_lem v1 par kids (λ k. omega (arith, once k)) rest1 in
      (
        w,
        (
          >>=-Writes _ found (>>=-Writes _ wrote run),
          (
            keep_tree v1 w d n false (tree id (record p { parent_id = n }) ks)
                (λ j x a o. same2 j (omega (arith, o, once j))) first1,
            rest2,
          ),
          λ j o. Same-trans (same1 j o) (same2 j (omega (arith, o))),
        ),
      )
