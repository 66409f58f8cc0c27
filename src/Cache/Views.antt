-- ===== src/Cache/Views.antt =====
-- What the code above src/backend/PageCache.cpp sees of the cache: for each page id the object that it is
-- given a reference to, as long as the cache holds all its pages.
use kndb.Base.{
  ℕ, ◌<◌, ◌≤◌, ◌≡◌, ◌≢◌, refl, sym, ap, subst, ◌∙◌, true, List, [], ◌∷◌, Option, none, some, ok,
  throws, bad_cast, ◌==◌, if◌then◌else◌, length, arith, inl, inr, Bool-cases, Option-cases, ==_iff,
  All,
}
use mathlib.Core.Option.{some-injective}
use kndb.Posix.{Posix}
use kndb.Vari.Codec.{Memory}
use kndb.Page.{Kind, has_kind}
use kndb.Cache.{Owned, PageCache, retrieve_page}
use kndb.Cache.Entries.{
  Entry, id_of, find_id, remove_id, Distinct, Holds, All-remove_id, find_id_here, find_id-remove_id,
  All-find_id, found_here, found_later,
}
use kndb.Cache.Hits.{retrieve_page_hit, length-remove_id}

abbrev pub object_of : Entry → ℕ
object_of e = e.owned.object

-- No two entries share an object.
abbrev pub Objects : List Entry → Type 0
Objects [] = Unit
Objects (e ∷ es) = All (λ f. object_of f ≢ object_of e) es × Objects es

abbrev pub owned_of : Option Entry → Option Owned
owned_of none = none
owned_of (some e) = some e.owned

-- `c'` has the file, the capacity and the count of objects of `c`.
pub record Keeps {os : Posix} (c c' : PageCache os) : Type 0 where
  pub io : c'.io ≡ c.io
  pub capacity : c'.capacity ≡ c.capacity
  pub next_object : c'.next_object ≡ c.next_object

pub Keeps-refl : {os : Posix} (c : PageCache os) → Keeps c c
Keeps-refl c = record { io = refl; capacity = refl; next_object = refl }

pub Keeps-trans : {os : Posix} {c c' c'' : PageCache os} → Keeps c c' → Keeps c' c'' → Keeps c c''
Keeps-trans h k = record {
  io = k.io ∙ h.io;
  capacity = k.capacity ∙ h.capacity;
  next_object = k.next_object ∙ h.next_object;
}

-- The cache holds, within its capacity, the objects that `v` gives for the ids of their pages.
pub record Shows {os : Posix} (c : PageCache os) (v : ℕ → Option Owned) : Type 0 where
  pub entries : List Entry
  pub holds : Holds c entries
  pub within : length entries ≤ c.capacity
  pub objects : Objects entries
  pub fresh : All (λ e. object_of e < c.next_object) entries
  pub shown : (id : ℕ) → v id ≡ owned_of (find_id id entries)

abbrev pub put : (ℕ → Option Owned) → ℕ → Owned → ℕ → Option Owned
put v id o j = if id == j then some o else v j

pub remove_id-Objects : (id : ℕ) (es : List Entry) → Objects es → Objects (remove_id id es)
unfolding remove_id
remove_id-Objects id [] d = tt
remove_id-Objects id (e ∷ es) d = elim (Bool-cases (id_of e == id)) [
  | inl y ↦ rw y d.1
  | inr n ↦ rw n (All-remove_id _ id es d.0, remove_id-Objects id es d.1)
]

remove_id-apart :
    (id next : ℕ) (es : List Entry) (e : Entry)
    → Objects es
    → find_id id es ≡ some e
    → All (λ f. object_of f ≢ object_of e) (remove_id id es)
unfolding remove_id
remove_id-apart id next [] e d h = tt
remove_id-apart id next (f ∷ es) e d h = elim (Bool-cases (id_of f == id)) [
  | inl y ↦
      rw y (subst (λ g. All (λ k. object_of k ≢ object_of g) es) (found_here id f e es h y) d.0)
  | inr n ↦
      let later = found_later id f e es h n in
      rw n (
        (λ s. All-find_id (λ g. object_of g ≢ object_of f) id es e d.0 later (sym s)),
        remove_id-apart id next es e d.1 later,
      )
]

pub owned_found :
    (v : ℕ → Option Owned) (id : ℕ) (o : Owned) (es : List Entry)
    → v id ≡ some o
    → v id ≡ owned_of (find_id id es)
    → (e : Entry) × (find_id id es ≡ some e) × (e.owned ≡ o)
owned_found v id o es h s = elim (Option-cases (find_id id es)) [
  | inl absent ↦ absurd (impossible (sym h ∙ s ∙ ap owned_of absent))
  | inr (e, found) ↦ (e, found, some-injective e.owned o (sym (ap owned_of found) ∙ sym s ∙ h))
]
  where
    impossible : some o ≡ none → ⊥
    impossible p = cc

-- A page moved to the front leaves what is found where.
find_id-front :
    (a next j : ℕ) (es : List Entry) (e : Entry)
    → Distinct next es
    → find_id (id_of e) es ≡ some e
    → owned_of (find_id j es)
      ≡ owned_of (find_id j (record { addr = a; owned = e.owned } ∷ remove_id (id_of e) es))
unfolding find_id
find_id-front a next j es e d h = elim (Bool-cases (id_of e == j)) [
  | inl y ↦ rw (y, ← (==_iff (id_of e) j).0 y, h)
  | inr n ↦ rw (n, find_id-remove_id (id_of e) j next es d, n)
]

-- A retrieval of a page that the cache shows gives the reference to its object, or throws at one of
-- another class, and shows the same.
pub retrieve_page-ends :
    {os : Posix} (mem : Memory) {c : PageCache os} {v : ℕ → Option Owned} (o : Owned) (kind : Kind)
    (id : ℕ)
    → Shows c v
    → v id ≡ some o
    → (c' : PageCache os) × (retrieve_page os mem kind id c
        ≡ (if has_kind kind o.page then ok o.object c' else throws bad_cast c'))
      × Shows c' v
      × Keeps c c'
retrieve_page-ends {os} mem {c} {v} o kind id s h =
    let (e, found, own) = owned_found v id o s.entries h (s.shown id) in
    let (c', f, run) = retrieve_page_hit os mem c s.entries s.holds kind id e found s.within in
    let same : id_of e ≡ id = find_id_here id s.entries e found in
    let own_found : find_id (id_of e) s.entries ≡ some e = rw same found in
    let first : Entry = record { addr = c.next_addr; owned = e.owned } in
    (
      c',
      run ∙ rw own,
      record {
        entries = first ∷ remove_id (id_of e) s.entries;
        holds = f.holds;
        within =
            omega
              (arith, f.same_capacity, length-remove_id (id_of e) s.entries e own_found, s.within);
        objects = (
          remove_id-apart (id_of e) c.next_addr s.entries e s.objects own_found,
          remove_id-Objects (id_of e) s.entries s.objects,
        );
        fresh =
            subst (λ n. All (λ g. object_of g < n) (first ∷ remove_id (id_of e) s.entries))
              (sym f.same_objects)
              (
                All-find_id (λ g. object_of g < c.next_object) id s.entries e s.fresh found,
                All-remove_id (λ g. object_of g < c.next_object) (id_of e) s.entries s.fresh,
              );
        shown = λ j.
            s.shown j
            ∙ find_id-front c.next_addr c.next_addr j s.entries e s.holds.distinct own_found;
      },
      record { io = f.same_io; capacity = f.same_capacity; next_object = f.same_objects },
    )

pub retrieve_page-Shows :
    {os : Posix} (mem : Memory) {c : PageCache os} {v : ℕ → Option Owned} (o : Owned) (kind : Kind)
    (id : ℕ)
    → Shows c v
    → v id ≡ some o
    → has_kind kind o.page ≡ true
    → (c' : PageCache os) × (retrieve_page os mem kind id c ≡ ok o.object c')
      × Shows c' v
      × Keeps c c'
retrieve_page-Shows mem o kind id s h k =
    let (c', run, s', kept) = retrieve_page-ends mem o kind id s h in (c', run ∙ rw k, s', kept)
