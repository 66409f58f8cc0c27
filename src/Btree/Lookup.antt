-- ===== src/Btree/Lookup.antt =====
-- The cells of a tree of src/backend/Btree.tpp in the order of their keys, and the reference definition of a
-- search: the first cell with an equal key.
use kndb.Base.{
  ◌≡◌, refl, ◌∙◌, true, false, List, [], ◌∷◌, ◌++◌, Option, none, some, if◌then◌else◌, All, inl,
  inr, Bool-cases,
}
use kndb.Vari.{Vari}
use kndb.Vari.Order.{less, equal}
use kndb.Vari.Order.Laws.{
  IsOrdinary, less_trans, less_not_equal, less_not_same, not_less_not_equal, less-equal,
}
use kndb.NodePage.{Cell}

unfoldable pub find_key : Vari → List Cell → Option Cell
find_key key [] = none
find_key key (c ∷ cs) = let rest = find_key key cs in if equal key c.key then some c else rest

-- Each key is less than those behind it.
abbrev pub Sorted : List Cell → Type 0
Sorted [] = Unit
Sorted (c ∷ cs) = All (λ (d : Cell). less c.key d.key ≡ true) cs × Sorted cs

abbrev pub Ordinary : List Cell → Type 0
Ordinary = All (λ (c : Cell). IsOrdinary c.key)

abbrev pub Other : Vari → List Cell → Type 0
Other key = All (λ (c : Cell). equal key c.key ≡ false)

All-append : (P : Cell → Type 0) (xs ys : List Cell) → All P (xs ++ ys) → All P xs × All P ys
All-append P [] ys h = (tt, h)
All-append P (x ∷ xs) ys h = let (a, b) = All-append P xs ys h.1 in ((h.0, a), b)

pub Ordinary-append : (xs ys : List Cell) → Ordinary (xs ++ ys) → Ordinary xs × Ordinary ys
Ordinary-append = All-append (λ (c : Cell). IsOrdinary c.key)

pub find_key-Other :
    (key : Vari) (xs ys : List Cell) → Other key xs → find_key key (xs ++ ys) ≡ find_key key ys
unfolding find_key
find_key-Other key [] ys h = refl
find_key-Other key (x ∷ xs) ys h = rw (h.0) (find_key-Other key xs ys h.1)

Other-find_key : (key : Vari) (ys : List Cell) → Other key ys → find_key key ys ≡ none
unfolding find_key
Other-find_key key [] h = refl
Other-find_key key (y ∷ ys) h = rw (h.0) (Other-find_key key ys h.1)

find_key-before :
    (key : Vari) (xs ys : List Cell) → Other key ys → find_key key (xs ++ ys) ≡ find_key key xs
unfolding find_key
find_key-before key [] ys h = Other-find_key key ys h
find_key-before key (x ∷ xs) ys h = rw (find_key-before key xs ys h)

pub Sorted-append :
    (xs ys : List Cell) (c : Cell)
    → Sorted (xs ++ c ∷ ys)
    → All (λ (x : Cell). less x.key c.key ≡ true) xs × (Sorted xs × Sorted (c ∷ ys))
Sorted-append [] ys c s = (tt, (tt, s))
Sorted-append (x ∷ xs) ys c s =
    let (a, (b, d)) = Sorted-append xs ys c s.1 in
    let (e, f) = All-append (λ (y : Cell). less x.key y.key ≡ true) xs (c ∷ ys) s.0 in
    ((f.0, a), ((e, b), d))

module _ (key : Vari) (ordinary : IsOrdinary key) where
  -- What is less than a cell that is less than the key is not the key.
  pub before_less :
      (c : Cell) (xs : List Cell)
      → IsOrdinary c.key
      → Ordinary xs
      → less c.key key ≡ true
      → All (λ (x : Cell). less x.key c.key ≡ true) xs
      → Other key xs
  before_less c [] oc o h a = tt
  before_less c (x ∷ xs) oc o h a = (
    less_not_equal x.key key key o.0 ordinary ordinary
        (less_trans x.key c.key key o.0 oc ordinary a.0 h),
    before_less c xs oc o.1 h a.1,
  )

  pub before_equal :
      (c : Cell) (xs : List Cell)
      → IsOrdinary c.key
      → Ordinary xs
      → equal key c.key ≡ true
      → All (λ (x : Cell). less x.key c.key ≡ true) xs
      → Other key xs
  before_equal c [] oc o h a = tt
  before_equal c (x ∷ xs) oc o h a = (
    less_not_equal x.key key key o.0 ordinary ordinary
        (less-equal x.key c.key key o.0 oc ordinary a.0 h),
    before_equal c xs oc o.1 h a.1,
  )

  after_less :
      (c : Cell) (ys : List Cell)
      → IsOrdinary c.key
      → Ordinary ys
      → less key c.key ≡ true
      → All (λ (y : Cell). less c.key y.key ≡ true) ys
      → Other key ys
  after_less c [] oc o h a = tt
  after_less c (y ∷ ys) oc o h a = (
    less_not_same key y.key key ordinary o.0 ordinary
        (less_trans key c.key y.key ordinary oc o.0 h a.0),
    after_less c ys oc o.1 h a.1,
  )

  -- Where the search goes at a cell with cells before and behind it.
  pub find_key-split :
      (xs ys : List Cell) (c : Cell)
      → Sorted (xs ++ c ∷ ys)
      → Ordinary (xs ++ c ∷ ys)
      → find_key key (xs ++ c ∷ ys) ≡ (
          if less c.key key
          then find_key key ys
          else if equal key c.key
          then some c
          else find_key key xs)
  unfolding find_key
  find_key-split xs ys c s o =
      let (before, (sx, sc)) = Sorted-append xs ys c s in
      let (ox, oc) = Ordinary-append xs (c ∷ ys) o in
      elim (Bool-cases (less c.key key)) [
        | inl l ↦ rw l (
            find_key-Other key xs (c ∷ ys) (before_less c xs oc.0 ox l before)
            ∙ rw (less_not_equal c.key key key oc.0 ordinary ordinary l))
        | inr nl ↦ elim (Bool-cases (equal key c.key)) [
          | inl e ↦
              rw (nl, e)
                (find_key-Other key xs (c ∷ ys) (before_equal c xs oc.0 ox e before) ∙ rw e)
          | inr ne ↦
              let more = not_less_not_equal c.key key key oc.0 ordinary ordinary nl ne in
              rw (nl, ne)
                (find_key-before key xs (c ∷ ys) (ne, after_less c ys oc.0 oc.1 more sc.0))
        ]
      ]
