-- ===== src/Btree/Vectors.antt =====
-- The vectors of a node in src/backend/Btree.tpp at a place that splits them.
use kndb.Base.{
  ℕ, zero, suc, ◌+◌, ◌≤◌, ◌≡◌, refl, ap, List, [], ◌∷◌, ◌++◌, some, arith, length, get_elem?, set,
  take, drop, ◌==◌, leb, true, false,
}
use kndb.Btree.{insert_at, erase_at, tail_from, find_child}
use kndb.Btree.Tree.{tree, Forest, none_left, child, count}
use kndb.Btree.Search.{roots_of}
use kndb.Btree.Shape.{join, occurs, occurs_in}

pub take-front {ℓ} : {A : Type ℓ} (xs ys : List A) → take (length xs) (xs ++ ys) ≡ xs
take-front [] ys = refl
take-front (x ∷ xs) ys = ap (◌∷◌ x) (take-front xs ys)

pub drop-front {ℓ} : {A : Type ℓ} (xs ys : List A) → drop (length xs) (xs ++ ys) ≡ ys
drop-front [] ys = refl
drop-front (x ∷ xs) ys = drop-front xs ys

length_front {ℓ} : {A : Type ℓ} (xs ys : List A) → length xs ≤ length (xs ++ ys)
length_front [] ys = omega arith
length_front (x ∷ xs) ys = omega (arith, length_front xs ys)

pub tail_from-front {ℓ} : {A : Type ℓ} (xs ys : List A) → tail_from (length xs) (xs ++ ys) ≡ some ys
unfolding tail_from
tail_from-front xs ys =
    let fits : leb (length xs) (length (xs ++ ys)) ≡ true = ground (arith, length_front xs ys) in
    rw (fits, drop-front xs ys)

pub insert_at-front {ℓ} :
    {A : Type ℓ} (xs ys : List A) (x : A) → insert_at (length xs) x (xs ++ ys) ≡ some (xs ++ x ∷ ys)
unfolding insert_at
insert_at-front [] ys x = refl
insert_at-front (y ∷ xs) ys x = rw (insert_at-front xs ys x)

pub insert_at-behind {ℓ} :
    {A : Type ℓ} (xs ys : List A) (x y : A)
    → insert_at (suc (length xs)) y (xs ++ x ∷ ys) ≡ some (xs ++ x ∷ y ∷ ys)
unfolding insert_at
insert_at-behind [] ys x y = refl
insert_at-behind (z ∷ xs) ys x y = rw (insert_at-behind xs ys x y)

pub erase_at-front {ℓ} :
    {A : Type ℓ} (xs ys : List A) (x : A) → erase_at (length xs) (xs ++ x ∷ ys) ≡ xs ++ ys
unfolding erase_at
erase_at-front [] ys x = refl
erase_at-front (y ∷ xs) ys x = ap (◌∷◌ y) (erase_at-front xs ys x)

pub get_elem?-front {ℓ} :
    {A : Type ℓ} (xs ys : List A) (x : A) → get_elem? (xs ++ x ∷ ys) (length xs) ≡ some x
get_elem?-front [] ys x = refl
get_elem?-front (y ∷ xs) ys x = get_elem?-front xs ys x

pub set-front {ℓ} :
    {A : Type ℓ} (xs ys : List A) (x y : A) → set (xs ++ x ∷ ys) (length xs) y ≡ xs ++ y ∷ ys
set-front [] ys x y = refl
set-front (z ∷ xs) ys x y = ap (◌∷◌ z) (set-front xs ys x y)

pub length_append {ℓ} : {A : Type ℓ} (xs ys : List A) → length (xs ++ ys) ≡ length xs + length ys
length_append [] ys = omega arith
length_append (x ∷ xs) ys = omega (arith, length_append xs ys)

-- A vector at an index.
pub cut {ℓ} :
    {A : Type ℓ} (n : ℕ) (xs : List A)
    → n ≤ length xs
    → (ls : List A) × (rs : List A) × (xs ≡ ls ++ rs) × (length ls ≡ n)
cut zero xs le = ([], xs, refl, refl)
cut (suc n) [] le = absurd (omega arith)
cut (suc n) (x ∷ xs) le =
    let (ls, rs, e, size) = cut n xs (omega arith) in (x ∷ ls, rs, ap (◌∷◌ x) e, omega arith)

pub cut_forest :
    (n : ℕ) (kids : Forest)
    → n ≤ count kids
    → (a : Forest) × (b : Forest) × (kids ≡ join a b) × (count a ≡ n)
unfolding count join
cut_forest zero kids le = (none_left, kids, refl, refl)
cut_forest (suc n) none_left le = absurd (omega arith)
cut_forest (suc n) (child t kids) le =
    let (a, b, e, size) = cut_forest n kids (omega arith) in
    (child t a, b, ap (child t) e, omega arith)

-- Where the search for a child stops.
pub find_child-roots_of :
    (id : ℕ) (left : Forest) (ys : List ℕ) (i : ℕ)
    → occurs_in id left ≡ 0
    → find_child id (roots_of left ++ id ∷ ys) i ≡ i + count left
unfolding find_child count occurs
find_child-roots_of id none_left ys i none_there =
    let here : (id == id) ≡ true = ground arith in rw here (omega arith)
find_child-roots_of id (child (tree k p kids) left) ys i none_there =
    let off : (k == id) ≡ false = ground (arith, none_there) in
    let there : occurs_in id left ≡ 0 = omega (arith, none_there) in
    rw off (omega (arith, find_child-roots_of id left ys (suc i) there))
