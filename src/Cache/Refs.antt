-- ===== src/Cache/Refs.antt =====
-- References to the pages in the cache of src/backend/PageCache.hpp, as `retrievePage` returns them: a method
-- call through one acts on the object in the cache, whichever reference it is made through.
use kndb.Base.{
  ℕ, List, [], ◌∷◌, Option, none, some, M, Outcome, ok, throws, aborts, undefined, ◌==◌,
  if◌then◌else◌,
}
use kndb.Posix.{Posix}
use kndb.Page.{Page}
use kndb.Cache.{Owned, Node, PageCache}

-- The page that a reference stands for: the object of that number, if it is still there.
unfoldable pub find_object : ℕ → List Node → Option Page
find_object r [] = none
find_object r (n ∷ ns) = elim n.ptr [
  | none ↦ find_object r ns
  | some owned ↦ if owned.object == r then some owned.page else find_object r ns
]

abbrev pub renew : ℕ → Page → Owned → Owned
renew r page owned = if owned.object == r then record owned { page = page } else owned

unfoldable pub set_object : ℕ → Page → List Node → List Node
set_object r page [] = []
set_object r page (n ∷ ns) =
    record n { ptr = elim n.ptr [ none ↦ none | some owned ↦ some (renew r page owned) ] }
    ∷ set_object r page ns

-- What a method of a class derived from `Page` leaves, as a page.
abbrev pub made {ℓ} : {A : Type ℓ} {P : Type 0} → (P → Page) → Outcome P A → Outcome Page A
made f (ok a p) = ok a (f p)
made f (throws e p) = throws e (f p)
made f aborts = aborts
made f undefined = undefined

module _ (os : Posix) where
  -- How a method acts on the page in the cache.
  abbrev pub after_call {ℓ} :
      {A : Type ℓ} → ℕ → PageCache os → Outcome Page A → Outcome (PageCache os) A
  after_call r c (ok a page) = ok a (record c { list = set_object r page c.list })
  after_call r c (throws e page) = throws e (record c { list = set_object r page c.list })
  after_call r c aborts = aborts
  after_call r c undefined = undefined

  abbrev pub call_at {ℓ} :
      {A : Type ℓ} → ℕ → M Page A → PageCache os → Option Page → Outcome (PageCache os) A
  call_at r m c (some page) = after_call r c (m page)
  call_at r m c none = undefined

  -- A method call through a reference into the cache.
  unfoldable pub on_page {ℓ} : {A : Type ℓ} → ℕ → M Page A → M (PageCache os) A
  on_page r m c = call_at r m c (find_object r c.list)
