-- ===== src/Btree/OrderKept.antt =====
-- Searches among the cells of a tree of src/backend/Btree.tpp after an insertion.
use kndb.Base.{
  ◌≡◌, refl, sym, subst, ◌∙◌, true, false, List, [], ◌∷◌, none, some, if◌then◌else◌, All, inl, inr,
  Bool-cases,
}
use kndb.Vari.{Vari}
use kndb.Vari.Order.{less, equal}
use kndb.Vari.Order.Laws.{IsOrdinary, less_trans, less_not_equal, not_less_not_equal, less-equal}
use kndb.NodePage.{Cell}
use kndb.Btree.Lookup.{find_key, Sorted, Ordinary}
use kndb.Btree.Order.{insert_cell}

module _ (new : Cell) (on : IsOrdinary new.key) where
  -- What is less than all cells and the new one.
  all_less :
      (c : Cell) (cs : List Cell)
      → less c.key new.key ≡ true
      → All (λ (x : Cell). less c.key x.key ≡ true) cs
      → All (λ (x : Cell). less c.key x.key ≡ true) (insert_cell new cs)
  unfolding insert_cell
  all_less c [] h a = (h, tt)
  all_less c (x ∷ xs) h a = elim (Bool-cases (less x.key new.key)) [
    | inl l ↦ rw l (a.0, all_less c xs h a.1)
    | inr n ↦ rw n (h, a)
  ]

  more_all :
      (c : Cell) (cs : List Cell)
      → IsOrdinary c.key
      → Ordinary cs
      → less new.key c.key ≡ true
      → All (λ (x : Cell). less c.key x.key ≡ true) cs
      → All (λ (x : Cell). less new.key x.key ≡ true) cs
  more_all c [] oc o h a = tt
  more_all c (x ∷ xs) oc o h a =
      (less_trans new.key c.key x.key on oc o.0 h a.0, more_all c xs oc o.1 h a.1)

  absent_head :
      (c : Cell) (cs : List Cell)
      → find_key new.key (c ∷ cs) ≡ none
      → (equal new.key c.key ≡ false) × (find_key new.key cs ≡ none)
  unfolding find_key
  absent_head c cs h = elim (Bool-cases (equal new.key c.key)) [
    | inl y ↦
        absurd (different c (subst (λ b. (if b then some c else find_key new.key cs) ≡ none) y h))
    | inr n ↦ (n, subst (λ b. (if b then some c else find_key new.key cs) ≡ none) n h)
  ]
    where
      different : (c : Cell) → some c ≡ none → ⊥
      different c e = cc

  pub insert_cell-Ordinary : (cs : List Cell) → Ordinary cs → Ordinary (insert_cell new cs)
  unfolding insert_cell
  insert_cell-Ordinary [] o = (on, tt)
  insert_cell-Ordinary (x ∷ xs) o = elim (Bool-cases (less x.key new.key)) [
    | inl l ↦ rw l (o.0, insert_cell-Ordinary xs o.1)
    | inr n ↦ rw n (on, o)
  ]

  pub insert_cell-Sorted :
      (cs : List Cell)
      → Sorted cs
      → Ordinary cs
      → find_key new.key cs ≡ none
      → Sorted (insert_cell new cs)
  unfolding insert_cell
  insert_cell-Sorted [] s o h = (tt, tt)
  insert_cell-Sorted (x ∷ xs) s o h =
      let (other, rest) = absent_head x xs h in
      elim (Bool-cases (less x.key new.key)) [
        | inl l ↦ rw l (all_less x xs l s.0, insert_cell-Sorted xs s.1 o.1 rest)
        | inr n ↦
            let more = not_less_not_equal x.key new.key new.key o.0 on on n other in
            rw n ((more, more_all x xs o.0 o.1 more s.0), s)
      ]

  -- A search finds the new cell, and the others as before.
  pub find_key-insert_cell :
      (key : Vari) (cs : List Cell)
      → IsOrdinary key
      → Ordinary cs
      → find_key new.key cs ≡ none
      → find_key key (insert_cell new cs)
        ≡ (if equal key new.key then some new else find_key key cs)
  unfolding find_key insert_cell
  find_key-insert_cell key [] ok o h = refl
  find_key-insert_cell key (x ∷ xs) ok o h =
      let (other, rest) = absent_head x xs h in
      elim (Bool-cases (less x.key new.key)) [
        | inr n ↦ rw n refl
        | inl l ↦ rw l (elim (Bool-cases (equal key x.key)) [
          | inr n ↦ rw n (find_key-insert_cell key xs ok o.1 rest)
          | inl y ↦ elim (Bool-cases (equal key new.key)) [
            | inr m ↦ rw (y, m) refl
            | inl m ↦
                let before = less-equal x.key new.key key o.0 on ok l m in
                absurd (clash (sym y ∙ less_not_equal x.key key key o.0 ok ok before))
          ]
        ])
      ]
    where
      clash : true ≡ false → ⊥
      clash e = cc
