-- ===== src/Cache/Steps.antt =====
-- Code over the cache of src/backend/PageCache.hpp as steps from what the cache shows to what it shows then.
use kndb.Base.{
  ℕ, ◌≡◌, refl, sym, ap, ◌∙◌, true, false, Option, some, M, ok, aborts, ◌>>=◌, pure, ◌==◌, inl, inr,
  Bool-cases, ==_iff,
}
use mathlib.Core.Option.{some-injective}
use kndb.Posix.{Posix}
use kndb.Vari.Codec.{Memory}
use kndb.Page.{Page, Kind, has_kind, get_page_id}
use kndb.Cache.{Owned, PageCache, retrieve_page}
use kndb.Cache.Refs.{on_page}
use kndb.Cache.Views.{Keeps, Shows, put, retrieve_page-Shows}
use kndb.Cache.Calls.{on_page-Shows}

abbrev pub View : Type 0
View = ℕ → Option Owned

-- From a cache that shows `v` the code returns `a` with a cache that shows `w`, on the same file.
pub record Steps {ℓ} {A : Type ℓ} {os : Posix} (m : M (PageCache os) A) (v w : View) (a : A)
    : Type ℓ where
  pub run :
      (c : PageCache os)
      → Shows c v
      → (c' : PageCache os) × (m c ≡ ok a c') × Shows c' w × Keeps c c'

-- From a cache that shows `v` the code stops the process.
pub record Stops {ℓ} {A : Type ℓ} {os : Posix} (m : M (PageCache os) A) (v : View) : Type ℓ where
  pub run : (c : PageCache os) → Shows c v → m c ≡ aborts

pub >>=-Steps {ℓ κ} :
    {A : Type ℓ} {B : Type κ} {os : Posix} {m : M (PageCache os) A} (f : A → M (PageCache os) B)
    {v w u : View} {a : A} {b : B}
    → Steps m v w a
    → Steps (f a) w u b
    → Steps (m >>= f) v u b
>>=-Steps f h k = record {
  run = λ c s.
      let (c', r, s', i) = h.run c s in
      let (c'', r', s'', i') = k.run c' s' in
      (
        c'',
        rw (r, r'),
        s'',
        record {
          io = i'.io ∙ i.io;
          capacity = i'.capacity ∙ i.capacity;
          next_object = i'.next_object ∙ i.next_object;
        },
      );
}

pub >>=-Stops {ℓ κ} :
    {A : Type ℓ} {B : Type κ} {os : Posix} {m : M (PageCache os) A} (f : A → M (PageCache os) B)
    {v w : View} {a : A}
    → Steps m v w a
    → Stops (f a) w
    → Stops (m >>= f) v
>>=-Stops f h k = record { run = λ c s. let (c', r, s', i) = h.run c s in rw (r, k.run c' s') }

pub pure-Steps {ℓ} :
    {A : Type ℓ} {os : Posix} (v : View) (a : A) → Steps {A = A} {os = os} (pure a) v v a
pure-Steps v a = record {
  run = λ c s. (c, refl, s, record { io = refl; capacity = refl; next_object = refl });
}

-- The page that the cache shows for an id.
pub record PageAt (v : View) (id : ℕ) (p : Page) : Type 0 where
  pub object : ℕ
  pub shown : v id ≡ some (record { object = object; page = p })

pub PageAt-unique : (v : View) (id : ℕ) (p q : Page) → PageAt v id p → PageAt v id q → p ≡ q
PageAt-unique v id p q h k =
    ap (λ (o : Owned). o.page)
      (some-injective (record { object = h.object; page = p })
        (record { object = k.object; page = q }) (sym h.shown ∙ k.shown))

abbrev pub renewed_page : (v : View) (id : ℕ) (p q : Page) → PageAt v id p → View
renewed_page v id p q h = put v id (record { object = h.object; page = q })

module _ {v : View} (id : ℕ) (p : Page) (h : PageAt v id p) where
  abbrev pub renewed_page_at : (q : Page) → PageAt (renewed_page v id p q h) id q
  renewed_page_at q =
      let here : (id == id) ≡ true = (==_iff id id).1 refl in
      record { object = h.object; shown = rw here }

  abbrev pub other_page_at :
      (q : Page) (j : ℕ) (r : Page)
      → (id == j) ≡ false
      → PageAt v j r
      → PageAt (renewed_page v id p q h) j r
  other_page_at q j r apart k = record { object = k.object; shown = rw (apart, k.shown) }

  -- What is shown at another id was so before.
  abbrev pub before_page_at :
      (q : Page) (j : ℕ) (r : Page)
      → (id == j) ≡ false
      → PageAt (renewed_page v id p q h) j r
      → PageAt v j r
  before_page_at q j r apart k =
      let other : renewed_page v id p q h j ≡ v j = rw apart in
      record { object = k.object; shown = sym other ∙ k.shown }

module _ {os : Posix} (mem : Memory) {v : View} (id : ℕ) (p : Page) (h : PageAt v id p) where
  pub retrieve_page-Steps :
      (kind : Kind) → has_kind kind p ≡ true → Steps (retrieve_page os mem kind id) v v h.object
  retrieve_page-Steps kind is = record {
    run = λ c s.
        retrieve_page-Shows mem (record { object = h.object; page = p }) kind id s h.shown is;
  }

module _ {os : Posix} {v : View} (id : ℕ) (p : Page) (h : PageAt v id p) where
  pub on_page-Steps {ℓ} :
      {A : Type ℓ} (q : Page) (m : M Page A) (a : A)
      → m p ≡ ok a q
      → get_page_id q ≡ id
      → Steps (on_page os h.object m) v (renewed_page v id p q h) a
  on_page-Steps q m a run same = record {
    run = λ c s. on_page-Shows id h.object p q m a s h.shown run same;
  }

  -- A call that does not change the page.
  pub on_page-Steps_same {ℓ} :
      {A : Type ℓ} (m : M Page A) (a : A)
      → m p ≡ ok a p
      → get_page_id p ≡ id
      → Steps (on_page os h.object m) v v a
  on_page-Steps_same m a run own = record {
    run = λ c s.
        let (c', r, s', i) = on_page-Shows id h.object p p m a s h.shown run own in
        (
          c',
          r,
          record {
            entries = s'.entries;
            holds = s'.holds;
            within = s'.within;
            objects = s'.objects;
            fresh = s'.fresh;
            shown = λ j. unchanged j ∙ s'.shown j;
          },
          i,
        );
  }
    where
      unchanged : (j : ℕ) → v j ≡ renewed_page v id p p h j
      unchanged j = elim (Bool-cases (id == j)) [
        | inl y ↦ rw (y, ← (==_iff id j).0 y, h.shown)
        | inr n ↦ rw n
      ]
