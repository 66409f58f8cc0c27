-- ===== src/Btree/Replace.antt =====
-- The reference definition of an update among the cells of a tree of src/backend/Btree.tpp, and what it does to the
-- cells of a node and its children.
use kndb.Base.{
  ℕ, get_elem?, suc, ◌≡◌, refl, sym, ap, subst, ◌∙◌, true, false, List, [], ◌∷◌, ◌++◌, none, some,
  if◌then◌else◌, All, arith, length, inl, inr, Bool-cases,
}
use kndb.Vari.{Vari}
use kndb.Vari.Order.{less, equal}
use kndb.Vari.Order.Laws.{IsOrdinary, less_not_equal}
use kndb.NodePage.{Cell}
use kndb.Btree.{lower_bound, is_key}
use kndb.Btree.Lookup.{
  find_key, Sorted, Ordinary, Other, Sorted-append, Ordinary-append, before_less, before_equal,
}
use kndb.Btree.Tree.{Tree, Forest, none_left, child, cells_of, weave, count}
use kndb.Btree.Shape.{join}

-- The values of the first cell with an equal key.
unfoldable pub replace_value : Vari → List Vari → List Cell → List Cell
replace_value key values [] = []
replace_value key values (c ∷ cs) =
    let rest = replace_value key values cs in
    if equal key c.key then record c { value = values } ∷ cs else c ∷ rest

module _ (key : Vari) (values : List Vari) (ordinary : IsOrdinary key) where
  replace_Other :
      (xs ys : List Cell)
      → Other key xs
      → replace_value key values (xs ++ ys) ≡ xs ++ replace_value key values ys
  unfolding replace_value
  replace_Other [] ys h = refl
  replace_Other (x ∷ xs) ys h = rw (h.0) (ap (◌∷◌ x) (replace_Other xs ys h.1))

  replace_found :
      (xs ys : List Cell) (c : Cell)
      → find_key key xs ≡ some c
      → replace_value key values (xs ++ ys) ≡ replace_value key values xs ++ ys
  unfolding replace_value find_key
  replace_found [] ys c h = absurd (different h)
    where
      different : none ≡ some c → ⊥
      different e = cc
  replace_found (x ∷ xs) ys c h = elim (Bool-cases (equal key x.key)) [
    | inl y ↦ rw y refl
    | inr n ↦
        let rest = subst (λ b. (if b then some x else find_key key xs) ≡ some c) n h in
        rw n (ap (◌∷◌ x) (replace_found xs ys c rest))
  ]

  replace_behind :
      (xs zs : List Cell) (l : Cell)
      → IsOrdinary l.key
      → Ordinary xs
      → All (λ (x : Cell). less x.key l.key ≡ true) xs
      → less l.key key ≡ true
      → replace_value key values (xs ++ l ∷ zs) ≡ xs ++ l ∷ replace_value key values zs
  unfolding replace_value
  replace_behind xs zs l ol ox before h =
      let other = less_not_equal l.key key key ol ordinary ordinary h in
      replace_Other xs (l ∷ zs) (before_less key ordinary l xs ol ox h before)
      ∙ ap (λ ys. xs ++ ys) (rw other refl)

  -- At a cell of the node.
  pub replace_here :
      (kids : Forest) (ls rs : List Cell) (c : Cell)
      → All (λ (x : Cell). less x.key key ≡ true) ls
      → equal key c.key ≡ true
      → Sorted (weave kids (ls ++ c ∷ rs))
      → Ordinary (weave kids (ls ++ c ∷ rs))
      → weave kids (ls ++ record c { value = values } ∷ rs)
        ≡ replace_value key values (weave kids (ls ++ c ∷ rs))
  unfolding weave replace_value
  replace_here none_left [] rs c lo e s o = rw e refl
  replace_here none_left (l ∷ ls) rs c lo e s o =
      let other = less_not_equal l.key key key o.0 ordinary ordinary lo.0 in
      rw other (ap (◌∷◌ l) (replace_here none_left ls rs c lo.1 e s.1 o.1))
  replace_here (child t kids) [] rs c lo e s o =
      let (before, (st, sc)) = Sorted-append (cells_of t) (weave kids rs) c s in
      let (ot, oc) = Ordinary-append (cells_of t) (c ∷ weave kids rs) o in
      sym (
        replace_Other (cells_of t) (c ∷ weave kids rs)
          (before_equal key ordinary c (cells_of t) oc.0 ot e before)
        ∙ ap (λ zs. cells_of t ++ zs) (rw e refl))
  replace_here (child t kids) (l ∷ ls) rs c lo e s o =
      let rest = weave kids (ls ++ c ∷ rs) in
      let (before, (st, sl)) = Sorted-append (cells_of t) rest l s in
      let (ot, ol) = Ordinary-append (cells_of t) (l ∷ rest) o in
      ap (λ zs. cells_of t ++ l ∷ zs) (replace_here kids ls rs c lo.1 e sl.1 ol.1)
      ∙ sym (replace_behind (cells_of t) rest l ol.0 ot before lo.0)

  -- In the child that stands behind all cells that are less.
  pub replace_child :
      (a b : Forest) (t u : Tree) (ls rs : List Cell) (c : Cell)
      → count a ≡ length ls
      → All (λ (x : Cell). less x.key key ≡ true) ls
      → Sorted (weave (join a (child t b)) (ls ++ rs))
      → Ordinary (weave (join a (child t b)) (ls ++ rs))
      → find_key key (cells_of t) ≡ some c
      → cells_of u ≡ replace_value key values (cells_of t)
      → weave (join a (child u b)) (ls ++ rs)
        ≡ replace_value key values (weave (join a (child t b)) (ls ++ rs))
  unfolding weave join count
  replace_child none_left b t u [] [] c n lo s o found h = h
  replace_child none_left b t u [] (r ∷ rs) c n lo s o found h =
      ap (λ zs. zs ++ r ∷ weave b rs) h ∙ sym (replace_found (cells_of t) (r ∷ weave b rs) c found)
  replace_child none_left b t u (l ∷ ls) rs c n lo s o found h = absurd (omega arith)
  replace_child (child r a) b t u [] rs c n lo s o found h = absurd (omega arith)
  replace_child (child r a) b t u (l ∷ ls) rs c n lo s o found h =
      let rest = weave (join a (child t b)) (ls ++ rs) in
      let (before, (sr, sl)) = Sorted-append (cells_of r) rest l s in
      let (or, ol) = Ordinary-append (cells_of r) (l ∷ rest) o in
      ap (λ zs. cells_of r ++ l ∷ zs)
        (replace_child a b t u ls rs c (omega (arith, n)) lo.1 sl.1 ol.1 found h)
      ∙ sym (replace_behind (cells_of r) rest l ol.0 or before lo.0)

module _ (key : Vari) (values : List Vari) where
  -- A node's cells at that of the key.
  pub at_key :
      (cs : List Cell)
      → is_key key (get_elem? cs (lower_bound key cs)) ≡ true
      → (ls : List Cell) × (rs : List Cell) × (c : Cell) × (cs ≡ ls ++ c ∷ rs)
        × (length ls ≡ lower_bound key cs)
        × All (λ (x : Cell). less x.key key ≡ true) ls
        × (equal key c.key ≡ true)
  unfolding lower_bound is_key
  at_key [] h = absurd (different h)
    where
      different : false ≡ true → ⊥
      different e = cc
  at_key (c ∷ cs) h = elim (Bool-cases (less c.key key)) [
    | inl l ↦
        let next = λ (i : ℕ). is_key key (get_elem? (c ∷ cs) i) ≡ true in
        let there =
          subst
            (λ b.
              is_key key (get_elem? (c ∷ cs) (if b then suc (lower_bound key cs) else 0)) ≡ true)
            l h in
        let (ls, rs, d, e, size, lo, same) = at_key cs there in
        (c ∷ ls, rs, d, ap (◌∷◌ c) e, rw l (ap suc size), (l, lo), same)
    | inr n ↦
        let there =
          subst
            (λ b.
              is_key key (get_elem? (c ∷ cs) (if b then suc (lower_bound key cs) else 0)) ≡ true)
            n h in
        ([], cs, c, refl, rw n refl, tt, there)
  ]

  -- The keys are the same.
  pub replace_value-All :
      (P : Vari → Type 0) (cs : List Cell)
      → All (λ (x : Cell). P x.key) cs
      → All (λ (x : Cell). P x.key) (replace_value key values cs)
  unfolding replace_value
  replace_value-All P [] h = tt
  replace_value-All P (c ∷ cs) h = elim (Bool-cases (equal key c.key)) [
    | inl y ↦ rw y h
    | inr n ↦ rw n (h.0, replace_value-All P cs h.1)
  ]

  pub replace_value-Sorted : (cs : List Cell) → Sorted cs → Sorted (replace_value key values cs)
  unfolding replace_value
  replace_value-Sorted [] h = tt
  replace_value-Sorted (c ∷ cs) h = elim (Bool-cases (equal key c.key)) [
    | inl y ↦ rw y h
    | inr n ↦
        rw n (replace_value-All (λ k. less c.key k ≡ true) cs h.0, replace_value-Sorted cs h.1)
  ]
