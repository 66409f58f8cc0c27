-- ===== src/Cache/Calls.antt =====
-- A method call through a reference, into the cache of src/backend/PageCache.hpp, as a change of what the cache shows.
use kndb.Base.{
  ℕ, ◌<◌, ◌≡◌, ◌≢◌, refl, sym, ap, subst, ◌∙◌, true, false, List, [], ◌∷◌, Option, some, M, ok,
  ◌==◌, if◌then◌else◌, length, arith, inl, inr, Bool-cases, ==_iff, map, All,
}
use kndb.Posix.{Posix}
use kndb.Page.{Page, get_page_id}
use kndb.Cache.{Owned, PageCache}
use kndb.Cache.Entries.{
  Entry, id_of, node_of, find_id, Absent, Distinct, addr_of, All-find_id, found_here, found_later,
}
use kndb.Cache.Refs.{find_object, set_object, on_page}
use kndb.Cache.Views.{Keeps, object_of, Objects, owned_of, Shows, put, owned_found}

abbrev pub with_page : Page → Entry → Entry
with_page page e = record e { owned = record { object = e.owned.object; page = page } }

unfoldable pub replace_id : ℕ → Page → List Entry → List Entry
replace_id id page [] = []
replace_id id page (e ∷ es) =
    if id_of e == id then with_page page e ∷ es else e ∷ replace_id id page es

find_object_here :
    (id r : ℕ) (es : List Entry) (e : Entry)
    → Objects es
    → find_id id es ≡ some e
    → e.owned.object ≡ r
    → find_object r (map node_of es) ≡ some e.owned.page
unfolding find_object find_id
find_object_here id r [] e d h s = cc
find_object_here id r (f ∷ es) e d h s = elim (Bool-cases (id_of f == id)) [
  | inl y ↦ let same = found_here id f e es h y in ground arith
  | inr n ↦
      let later = found_later id f e es h n in
      let apart = All-find_id (λ g. object_of g ≢ object_of f) id es e d.0 later in
      ground (arith, find_object_here id r es e d.1 later s)
]

set_object_other :
    (r : ℕ) (page : Page) (es : List Entry)
    → All (λ g. object_of g ≢ r) es
    → set_object r page (map node_of es) ≡ map node_of es
unfolding set_object
set_object_other r page [] h = refl
set_object_other r page (e ∷ es) h =
    let other : (object_of e == r) ≡ false = ground (arith, h.0) in
    rw (other, set_object_other r page es h.1)

set_object-replace_id :
    (id r : ℕ) (page : Page) (es : List Entry) (e : Entry)
    → Objects es
    → find_id id es ≡ some e
    → e.owned.object ≡ r
    → set_object r page (map node_of es) ≡ map node_of (replace_id id page es)
unfolding set_object replace_id
set_object-replace_id id r page [] e d h s = refl
set_object-replace_id id r page (f ∷ es) e d h s = elim (Bool-cases (id_of f == id)) [
  | inl y ↦
      let here : object_of f ≡ r = ap object_of (found_here id f e es h y) ∙ s in
      let hit : (object_of f == r) ≡ true = (==_iff _ _).1 here in
      rw (y, hit, set_object_other r page es (subst (λ k. All (λ g. object_of g ≢ k) es) here d.0))
  | inr n ↦
      let later = found_later id f e es h n in
      let apart = All-find_id (λ g. object_of g ≢ object_of f) id es e d.0 later in
      let miss : (object_of f == r) ≡ false = ground (arith, apart) in
      rw (n, miss, set_object-replace_id id r page es e d.1 later s)
]

module _ (id : ℕ) (page : Page) (same : get_page_id page ≡ id) where
  All-replace_id :
      (P : Entry → Type 0)
      → ((e : Entry) → id_of e ≡ id → P e → P (with_page page e))
      → (es : List Entry) → All P es
      → All P (replace_id id page es)
  unfolding replace_id
  All-replace_id P k [] h = tt
  All-replace_id P k (e ∷ es) h = elim (Bool-cases (id_of e == id)) [
    | inl y ↦ rw y (k e ((==_iff _ _).0 y) h.0, h.1)
    | inr n ↦ rw n (h.0, All-replace_id P k es h.1)
  ]

  replace_id-Distinct :
      (next : ℕ) (es : List Entry) → Distinct next es → Distinct next (replace_id id page es)
  unfolding replace_id
  replace_id-Distinct next [] d = tt
  replace_id-Distinct next (e ∷ es) d = elim (Bool-cases (id_of e == id)) [
    | inl y ↦ rw y (d.0, subst (λ k. Absent k es) ((==_iff _ _).0 y ∙ sym same) d.1, d.2, d.3)
    | inr n ↦ rw n (
      d.0,
      All-replace_id (λ f. id_of f ≢ id_of e) (λ f s k t. k (s ∙ sym same ∙ t)) es d.1,
      All-replace_id (λ f. f.addr ≢ e.addr) (λ f s k. k) es d.2,
      replace_id-Distinct next es d.3,
    )
  ]

  replace_id-Objects : (es : List Entry) → Objects es → Objects (replace_id id page es)
  unfolding replace_id
  replace_id-Objects [] d = tt
  replace_id-Objects (e ∷ es) d = elim (Bool-cases (id_of e == id)) [
    | inl y ↦ rw y d
    | inr n ↦ rw n (
      All-replace_id (λ f. object_of f ≢ object_of e) (λ f s k. k) es d.0,
      replace_id-Objects es d.1,
    )
  ]

  length-replace_id : (es : List Entry) → length (replace_id id page es) ≡ length es
  unfolding replace_id
  length-replace_id [] = refl
  length-replace_id (e ∷ es) = ground (arith, length-replace_id es)

  addr_of-replace_id :
      (j : ℕ) (es : List Entry)
      → addr_of (find_id j (replace_id id page es)) ≡ addr_of (find_id j es)
  unfolding replace_id find_id
  addr_of-replace_id j [] = refl
  addr_of-replace_id j (e ∷ es) = ground (arith, addr_of-replace_id j es)

  owned_of-replace_id :
      (j : ℕ) (es : List Entry) (e : Entry)
      → find_id id es ≡ some e
      → owned_of (find_id j (replace_id id page es)) ≡ (
          if id == j
          then some (record { object = e.owned.object; page = page })
          else owned_of (find_id j es))
  unfolding replace_id find_id
  owned_of-replace_id j [] e h = cc
  owned_of-replace_id j (f ∷ es) e h = elim (Bool-cases (id_of f == id)) [
    | inl y ↦ let here = found_here id f e es h y in ground arith
    | inr n ↦ ground (arith, owned_of-replace_id j es e (found_later id f e es h n))
  ]

-- A call through the reference to a page that the cache shows, which keeps the page's id, acts on what
-- the cache shows as it does on the page.
pub on_page-Shows {ℓ} :
    {A : Type ℓ} {os : Posix} {c : PageCache os} {v : ℕ → Option Owned} (id r : ℕ) (p q : Page)
    (m : M Page A) (a : A)
    → Shows c v
    → v id ≡ some (record { object = r; page = p })
    → m p ≡ ok a q
    → get_page_id q ≡ id
    → (c' : PageCache os) × (on_page os r m c ≡ ok a c')
      × Shows c' (put v id (record { object = r; page = q }))
      × Keeps c c'
unfolding on_page
on_page-Shows {A} {os} {c} {v} id r p q m a s h run same =
    let (e, found, own) =
      owned_found v id (record { object = r; page = p }) s.entries h (s.shown id) in
    let object : e.owned.object ≡ r = ap (λ (o : Owned). o.object) own in
    let here : find_object r c.list ≡ some p =
      rw (s.holds.nodes) (find_object_here id r s.entries e s.objects found object ∙ rw own) in
    let changed : set_object r q c.list ≡ map node_of (replace_id id q s.entries) =
      rw (s.holds.nodes) (set_object-replace_id id r q s.entries e s.objects found object) in
    (
      record c { list = set_object r q c.list },
      rw (here, run),
      record {
        entries = replace_id id q s.entries;
        holds = record {
          nodes = changed;
          indexed = λ j. s.holds.indexed j ∙ sym (addr_of-replace_id id q same j s.entries);
          distinct = replace_id-Distinct id q same c.next_addr s.entries s.holds.distinct;
        };
        within = rw (length-replace_id id q same s.entries) s.within;
        objects = replace_id-Objects id q same s.entries s.objects;
        fresh =
            All-replace_id id q same (λ g. object_of g < c.next_object) (λ f e k. k) s.entries
              s.fresh;
        shown =
            λ j. sym (owned_of-replace_id id q same j s.entries e found ∙ rw (object, s.shown j));
      },
      record { io = refl; capacity = refl; next_object = refl },
    )
