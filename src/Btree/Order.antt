-- ===== src/Btree/Order.antt =====
-- A new cell among the cells of a tree of src/backend/Btree.tpp in the order of their keys, and the reference
-- definition of an insertion.
use kndb.Base.{
  suc, ◌≡◌, refl, sym, ap, ◌∙◌, true, false, List, [], ◌∷◌, ◌++◌, if◌then◌else◌, All, arith, length,
  inl, inr, Bool-cases,
}
use kndb.Vari.Order.{less}
use kndb.Vari.Order.Laws.{IsOrdinary, less_trans}
use kndb.NodePage.{Cell}
use kndb.Btree.{lower_bound}
use kndb.Btree.Lookup.{Sorted, Ordinary, Sorted-append, Ordinary-append}
use kndb.Btree.Tree.{Tree, Forest, none_left, child, cells_of, weave, count}
use kndb.Btree.Shape.{join}

-- Before the first cell with a key that is not less.
unfoldable pub insert_cell : Cell → List Cell → List Cell
insert_cell c [] = c ∷ []
insert_cell c (x ∷ xs) =
    let rest = insert_cell c xs in if less x.key c.key then x ∷ rest else c ∷ x ∷ xs

module _ (new : Cell) where
  abbrev pub Below : List Cell → Type 0
  Below = All (λ (x : Cell). less x.key new.key ≡ true)

  -- The cell that stands first, if any, is not less.
  abbrev pub Stops : List Cell → Type 0
  Stops [] = Unit
  Stops (x ∷ xs) = less x.key new.key ≡ false

  -- The cells before the place that the code looks for, and those from there on.
  pub lower_split :
      (cs : List Cell)
      → (ls : List Cell) × (rs : List Cell) × (cs ≡ ls ++ rs)
        × (length ls ≡ lower_bound new.key cs)
        × Below ls
        × Stops rs
  unfolding lower_bound
  lower_split [] = ([], [], refl, refl, tt, tt)
  lower_split (c ∷ cs) = elim (Bool-cases (less c.key new.key)) [
    | inl l ↦
        let (ls, rs, e, size, lo, hi) = lower_split cs in
        (c ∷ ls, rs, ap (◌∷◌ c) e, rw l (ap suc size), (l, lo), hi)
    | inr n ↦ ([], c ∷ cs, refl, rw n refl, tt, n)
  ]

  insert_cell-Below :
      (xs zs : List Cell) → Below xs → insert_cell new (xs ++ zs) ≡ xs ++ insert_cell new zs
  unfolding insert_cell
  insert_cell-Below [] zs h = refl
  insert_cell-Below (x ∷ xs) zs h = rw (h.0) (ap (◌∷◌ x) (insert_cell-Below xs zs h.1))

  pub insert_cell-Stops :
      (xs zs : List Cell) → Stops zs → insert_cell new (xs ++ zs) ≡ insert_cell new xs ++ zs
  unfolding insert_cell
  insert_cell-Stops [] [] h = refl
  insert_cell-Stops [] (z ∷ zs) h = rw h
  insert_cell-Stops (x ∷ xs) zs h = elim (Bool-cases (less x.key new.key)) [
    | inl l ↦ rw l (ap (◌∷◌ x) (insert_cell-Stops xs zs h))
    | inr n ↦ rw n
  ]

  -- In a leaf.
  pub insert_cell-between :
      (xs zs : List Cell) → Below xs → Stops zs → insert_cell new (xs ++ zs) ≡ xs ++ new ∷ zs
  unfolding insert_cell
  insert_cell-between xs [] b s = insert_cell-Below xs [] b
  insert_cell-between xs (z ∷ zs) b s = insert_cell-Below xs (z ∷ zs) b ∙ rw s

  less_all :
      (c : Cell) (xs : List Cell)
      → IsOrdinary new.key
      → IsOrdinary c.key
      → Ordinary xs
      → less c.key new.key ≡ true
      → All (λ (x : Cell). less x.key c.key ≡ true) xs
      → Below xs
  less_all c [] on oc o h a = tt
  less_all c (x ∷ xs) on oc o h a =
      (less_trans x.key c.key new.key o.0 oc on a.0 h, less_all c xs on oc o.1 h a.1)

  -- In the child that stands behind all cells that are less.
  pub insert_cell-weave :
      (a b : Forest) (t u : Tree) (ls rs : List Cell)
      → IsOrdinary new.key
      → count a ≡ length ls
      → Sorted (weave (join a (child t b)) (ls ++ rs))
      → Ordinary (weave (join a (child t b)) (ls ++ rs))
      → Below ls
      → Stops rs
      → cells_of u ≡ insert_cell new (cells_of t)
      → weave (join a (child u b)) (ls ++ rs)
        ≡ insert_cell new (weave (join a (child t b)) (ls ++ rs))
  unfolding weave join count
  insert_cell-weave none_left b t u [] [] on e s o lo hi h = h
  insert_cell-weave none_left b t u [] (r ∷ rs) on e s o lo hi h =
      ap (λ zs. zs ++ r ∷ weave b rs) h ∙ sym (insert_cell-Stops (cells_of t) (r ∷ weave b rs) hi)
  insert_cell-weave none_left b t u (l ∷ ls) rs on e s o lo hi h = absurd (omega arith)
  insert_cell-weave (child r a) b t u [] rs on e s o lo hi h = absurd (omega arith)
  insert_cell-weave (child r a) b t u (l ∷ ls) rs on e s o lo hi h =
      let rest = weave (join a (child t b)) (ls ++ rs) in
      let (before, (sr, sl)) = Sorted-append (cells_of r) rest l s in
      let (or, ol) = Ordinary-append (cells_of r) (l ∷ rest) o in
      ap (λ zs. cells_of r ++ l ∷ zs)
        (insert_cell-weave a b t u ls rs on (omega arith) sl.1 ol.1 lo.1 hi h)
      ∙ sym (
          insert_cell-Below (cells_of r) (l ∷ rest) (less_all l (cells_of r) on ol.0 or lo.0 before)
          ∙ ap (λ zs. cells_of r ++ zs) (insert_cell-Below (l ∷ []) rest (lo.0, tt)))
