-- ===== src/Cache/Entries.antt =====
-- The cache of src/backend/PageCache.cpp as one sequence of entries, the page used last in front.
use kndb.Base.{
  ℕ, ◌<◌, ◌≡◌, ◌≢◌, refl, subst, true, false, List, [], ◌∷◌, Option, none, some, ◌==◌,
  if◌then◌else◌, arith, inl, inr, Bool-cases, ==_iff, map, All,
}
use mathlib.Core.Option.{some-injective}
use kndb.Posix.{Posix}
use kndb.Page.{get_page_id}
use kndb.Cache.{Owned, Node, PageCache, node_at, erase_node, move_out}

pub record Entry : Type 0 where
  pub addr : ℕ
  pub owned : Owned

abbrev pub id_of : Entry → ℕ
id_of e = get_page_id e.owned.page

abbrev pub node_of : Entry → Node
node_of e = record { addr = e.addr; ptr = some e.owned }

unfoldable pub find_id : ℕ → List Entry → Option Entry
find_id id [] = none
find_id id (e ∷ es) = if id_of e == id then some e else find_id id es

unfoldable pub remove_id : ℕ → List Entry → List Entry
remove_id id [] = []
remove_id id (e ∷ es) = if id_of e == id then es else e ∷ remove_id id es

abbrev pub Absent : ℕ → List Entry → Type 0
Absent id = All (λ e. id_of e ≢ id)

-- No two entries share a page id or a node, and the nodes' addresses are below `next`.
abbrev pub Distinct : ℕ → List Entry → Type 0
Distinct next [] = Unit
Distinct next (e ∷ es) =
    (e.addr < next) × Absent (id_of e) es × All (λ f. f.addr ≢ e.addr) es × Distinct next es

abbrev pub addr_of : Option Entry → Option ℕ
addr_of none = none
addr_of (some e) = some e.addr

-- The list and the map both hold the entries.
pub record Holds {os : Posix} (c : PageCache os) (es : List Entry) : Type 0 where
  pub nodes : c.list ≡ map node_of es
  pub indexed : (id : ℕ) → c.map id ≡ addr_of (find_id id es)
  pub distinct : Distinct c.next_addr es

pub find_id-Absent : (id : ℕ) (es : List Entry) → Absent id es → find_id id es ≡ none
unfolding find_id
find_id-Absent id [] h = refl
find_id-Absent id (e ∷ es) h = ground (arith, find_id-Absent id es h.1)

pub find_id_here : (id : ℕ) (es : List Entry) (e : Entry) → find_id id es ≡ some e → id_of e ≡ id
unfolding find_id
find_id_here id [] e h = cc
find_id_here id (f ∷ es) e h = ground (arith, find_id_here id es e)

pub found_here :
    (id : ℕ) (f e : Entry) (es : List Entry)
    → find_id id (f ∷ es) ≡ some e
    → (id_of f == id) ≡ true
    → f ≡ e
unfolding find_id
found_here id f e es h y = some-injective f e (rw y at h)

pub found_later :
    (id : ℕ) (f e : Entry) (es : List Entry)
    → find_id id (f ∷ es) ≡ some e
    → (id_of f == id) ≡ false
    → find_id id es ≡ some e
unfolding find_id
found_later id f e es h n = rw n at h

pub All-find_id :
    (P : Entry → Type 0) (id : ℕ) (es : List Entry) (e : Entry)
    → All P es
    → find_id id es ≡ some e
    → P e
unfolding find_id
All-find_id P id [] e h k = cc
All-find_id P id (f ∷ es) e h k = elim (Bool-cases (id_of f == id)) [
  | inl y ↦ subst P (found_here id f e es k y) h.0
  | inr n ↦ All-find_id P id es e h.1 (found_later id f e es k n)
]

pub All-remove_id :
    (P : Entry → Type 0) (id : ℕ) (es : List Entry) → All P es → All P (remove_id id es)
unfolding remove_id
All-remove_id P id [] h = tt
All-remove_id P id (e ∷ es) h = elim (Bool-cases (id_of e == id)) [
  | inl y ↦ rw y h.1
  | inr n ↦ rw n (h.0, All-remove_id P id es h.1)
]

pub remove_id-Absent :
    (id next : ℕ) (es : List Entry) → Distinct next es → Absent id (remove_id id es)
unfolding remove_id
remove_id-Absent id next [] d = tt
remove_id-Absent id next (e ∷ es) d = elim (Bool-cases (id_of e == id)) [
  | inl y ↦ let same : id_of e ≡ id = (==_iff _ _).0 y in rw y (subst (λ k. Absent k es) same d.1)
  | inr n ↦ rw n ((λ s. ground arith), remove_id-Absent id next es d.3)
]

pub remove_id-Distinct :
    (id next : ℕ) (es : List Entry) → Distinct next es → Distinct next (remove_id id es)
unfolding remove_id
remove_id-Distinct id next [] d = tt
remove_id-Distinct id next (e ∷ es) d = elim (Bool-cases (id_of e == id)) [
  | inl y ↦ rw y d.3
  | inr n ↦
      rw n (
        d.0,
        All-remove_id _ id es d.1,
        All-remove_id _ id es d.2,
        remove_id-Distinct id next es d.3,
      )
]

pub find_id-remove_id :
    (id j next : ℕ) (es : List Entry)
    → Distinct next es
    → find_id j (remove_id id es) ≡ (if id == j then none else find_id j es)
unfolding find_id remove_id
find_id-remove_id id j next [] d = ground arith
find_id-remove_id id j next (e ∷ es) d = elim (Bool-cases (id_of e == id)) [
  | inl y ↦
      let same : id_of e ≡ id = (==_iff _ _).0 y in
      let gone : find_id id es ≡ none = find_id-Absent id es (subst (λ k. Absent k es) same d.1) in
      elim (Bool-cases (id == j)) [
        | inl z ↦ rw (y, z, ← (==_iff _ _).0 z) gone
        | inr m ↦ rw (y, m) (ground arith)
      ]
  | inr n ↦ rw n (ground (arith, find_id-remove_id id j next es d.3))
]

-- At the address that the map has for a page, the list has that page's node.
pub node_at-found :
    (id : ℕ) (es : List Entry) (e : Entry) (next : ℕ)
    → Distinct next es
    → find_id id es ≡ some e
    → node_at e.addr (map node_of es) ≡ some (node_of e)
unfolding find_id node_at
node_at-found id [] e next d h = cc
node_at-found id (f ∷ es) e next d h = elim (Bool-cases (id_of f == id)) [
  | inl y ↦ let same = found_here id f e es h y in ground arith
  | inr n ↦
      let later = found_later id f e es h n in
      let apart = All-find_id (λ g. g.addr ≢ f.addr) id es e d.2 later in
      ground (arith, node_at-found id es e next d.3 later)
]

pub erase_node-found :
    (id : ℕ) (es : List Entry) (e : Entry) (next : ℕ)
    → Distinct next es
    → find_id id es ≡ some e
    → erase_node e.addr (map node_of es) ≡ map node_of (remove_id id es)
unfolding find_id erase_node remove_id
erase_node-found id [] e next d h = cc
erase_node-found id (f ∷ es) e next d h = elim (Bool-cases (id_of f == id)) [
  | inl y ↦ let same = found_here id f e es h y in rw y (ground arith)
  | inr n ↦
      let later = found_later id f e es h n in
      let apart = All-find_id (λ g. g.addr ≢ f.addr) id es e d.2 later in
      rw n (ground (arith, erase_node-found id es e next d.3 later))
]

pub erase_node-move_out : (a : ℕ) (ns : List Node) → erase_node a (move_out a ns) ≡ erase_node a ns
unfolding erase_node move_out
erase_node-move_out a [] = refl
erase_node-move_out a (n ∷ ns) = ground (arith, erase_node-move_out a ns)
