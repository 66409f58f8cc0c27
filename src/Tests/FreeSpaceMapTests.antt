-- ===== src/Tests/FreeSpaceMapTests.antt =====
-- Runs of the code of src/backend/FreeSpaceMap.cpp on two FSM pages, the second in the list of the first.
use kndb.Base.{
  ◌≤◌, ◌+◌, ℕ, ◌%◌, ◌≡◌, refl, sym, List, [], ◌∷◌, none, some, ok, ◌==◌, if◌then◌else◌, arith, inl,
  inr, map, ◌⊎◌, subst, ==_iff, Bool-cases,
}
use kndb.Fsm.{FsmPage, bitmap_bytes, get_blocks_in_page}
use kndb.Fsm.Scan.{blank, blank-IsValid}
use kndb.Page.{fsm}
use kndb.Constants.{pgid_invalid}
use kndb.FreeSpaceMap.Release.{FreeEnds, free_bit_ends}
use kndb.Cache.{Owned, PageCache}
use kndb.Cache.Entries.{Entry, node_of, addr_of, find_id}
use kndb.Cache.Views.{Shows}
use kndb.FreeSpaceMap.{is_free}
use kndb.FreeSpaceMap.Steps.{View, FsmAt, FsmAt-unique}
use kndb.FreeSpaceMap.Invariant.{Sound, IsValid, free_id, relinked, relinked-Sound}
use kndb.FreeSpaceMap.Alloc.{AllocEnds, alloc_bit_ends}
use kndb.FreeSpaceMap.Free.{is_free_ends}
use kndb.Tests.IoTests.{ram, three}
use kndb.Tests.VariTests.{memory}

abbrev first_page : FsmPage
first_page = relinked (blank bitmap_bytes 0) 32672

abbrev second_page : FsmPage
second_page = blank bitmap_bytes 32672

pages : View
pages id =
    if id == 0
    then some (record { object = 0; page = fsm first_page })
    else if id == 32672
    then some (record { object = 1; page = fsm second_page })
    else none

at_first : FsmAt pages 0 first_page
unfolding pages
at_first = record { object = 0; shown = refl }

at_second : FsmAt pages 32672 second_page
unfolding pages
at_second = record { object = 1; shown = refl }

page_cases :
    (id : ℕ) (p : FsmPage)
    → FsmAt pages id p
    → ((id ≡ 0) × (p ≡ first_page)) ⊎ ((id ≡ 32672) × (p ≡ second_page))
unfolding pages
page_cases id p k = elim (Bool-cases (id == 0)) [
  | inl y ↦
      let zero : id ≡ 0 = (==_iff id 0).0 y in
      inl (zero, FsmAt-unique pages 0 p first_page (subst (λ j. FsmAt pages j p) zero k) at_first)
  | inr n ↦ elim (Bool-cases (id == 32672)) [
    | inl y ↦
        let next : id ≡ 32672 = (==_iff id 32672).0 y in
        inr (
          next,
          FsmAt-unique pages 32672 p second_page (subst (λ j. FsmAt pages j p) next k) at_second,
        )
    | inr m ↦ absurd (nothing (record { object = k.object; page = fsm p }) (rw (n, m) at k.shown))
  ]
]
  where
    nothing : (o : Owned) → none ≡ some o → ⊥
    nothing o e = cc

pages-Sound : (id : ℕ) (p : FsmPage) → FsmAt pages id p → Sound id p
pages-Sound id p k = elim (page_cases id p k) [
  | inl (zero, same) ↦
      rw (zero, same)
        (relinked-Sound 0 (blank bitmap_bytes 0) 32672 (blank-Sound 0 refl (omega arith)))
  | inr (next, same) ↦ rw (next, same) (blank-Sound 32672 refl (omega arith))
]
  where
    blank-Sound :
        (id : ℕ)
        → id % get_blocks_in_page ≡ 0
        → id + get_blocks_in_page ≤ pgid_invalid
        → Sound id (blank bitmap_bytes id)
    blank-Sound id placed bounded = record {
      valid = blank-IsValid bitmap_bytes id refl;
      own = unfold blank in refl;
      placed = placed;
      bounded = bounded;
    }

pages-IsValid : IsValid pages (32672 ∷ [])
unfolding blank
pages-IsValid = record {
  first = first_page;
  at_first = at_first;
  chain = (refl, omega arith, omega arith, tt, second_page, at_second, omega arith, refl);
  pages = pages-Sound;
  listed = λ id p k behind off. elim (page_cases id p k) [
    | inl (zero, same) ↦ absurd (behind zero)
    | inr (next, same) ↦ absurd (off.0 (sym next))
  ];
}

abbrev entries : List Entry
entries =
    record { addr = 4; owned = record { object = 0; page = fsm first_page } }
    ∷ record { addr = 2; owned = record { object = 1; page = fsm second_page } }
    ∷ []

cache : PageCache ram
cache = record {
  io = three;
  capacity = 3;
  list = map node_of entries;
  map = λ id. addr_of (find_id id entries);
  next_addr = 5;
  next_object = 2;
}

cache-Shows : Shows cache pages
unfolding cache pages blank find_id
cache-Shows = record {
  entries = entries;
  holds = record {
    nodes = refl;
    indexed = λ id. refl;
    distinct = (
      omega arith,
      ((λ s. absurd (omega arith)), tt),
      ((λ s. absurd (omega arith)), tt),
      (omega arith, tt, tt, tt),
    );
  };
  within = omega arith;
  objects = (((λ s. absurd (omega arith)), tt), (tt, tt));
  fresh = (omega arith, (omega arith, tt));
  shown = λ id. ground arith;
}

alloc_bit_ends_example : AllocEnds ram memory cache pages
alloc_bit_ends_example =
    alloc_bit_ends ram memory cache pages (32672 ∷ []) cache-Shows pages-IsValid

is_free_ends_example :
    (c' : PageCache ram) × (is_free ram memory 40000 cache ≡ ok (free_id pages 40000) c')
    × Shows c' pages
    × (c'.io ≡ cache.io)
is_free_ends_example =
    is_free_ends ram memory cache pages (32672 ∷ []) cache-Shows pages-IsValid 40000 second_page
      at_second

free_bit_ends_example :
    FreeEnds ram memory pages (32672 ∷ []) pages-IsValid 40000 second_page at_second cache
free_bit_ends_example =
    free_bit_ends ram memory pages (32672 ∷ []) pages-IsValid 40000 second_page at_second cache
      cache-Shows
