-- ===== src/Tests/CacheTests.antt =====
-- Runs of the code of src/backend/PageCache.cpp on a cache that holds two pages.
use kndb.Base.{ℕ, ◌+◌, ◌≡◌, refl, arith, List, [], ◌∷◌, ok, map}
use kndb.Fsm.{bitmap_bytes}
use kndb.Fsm.Scan.{blank}
use kndb.Page.{Page, fsm, fsm_kind}
use kndb.Cache.{PageCache, insert_page}
use kndb.Cache.Entries.{Entry, node_of, find_id, remove_id, addr_of, Holds}
use kndb.Cache.Front.{Fronted}
use kndb.Cache.Hits.{Retrieves, retrieve_page_hit, insert_page_room}
use kndb.Tests.IoTests.{ram, three}
use kndb.Tests.VariTests.{memory}

abbrev page : ℕ → Page
page id = fsm (blank bitmap_bytes id)

abbrev entry : ℕ → ℕ → ℕ → Entry
entry a r id = record { addr = a; owned = record { object = r; page = page id } }

-- The pages 0 and 32672, at the nodes 4 and 2, with the objects 0 and 1.
abbrev entries : List Entry
entries = entry 4 0 0 ∷ entry 2 1 32672 ∷ []

two : PageCache ram
two = record {
  io = three;
  capacity = 3;
  list = map node_of entries;
  map = λ id. addr_of (find_id id entries);
  next_addr = 5;
  next_object = 2;
}

two-Holds : Holds two entries
unfolding two blank
two-Holds = record {
  nodes = refl;
  indexed = λ id. refl;
  distinct = (
    omega arith,
    ((λ s. absurd (omega arith)), tt),
    ((λ s. absurd (omega arith)), tt),
    (omega arith, tt, tt, tt),
  );
}

retrieve_page_hit_example :
    Retrieves ram memory two entries two-Holds fsm_kind 32672 (entry 2 1 32672)
unfolding find_id two blank
retrieve_page_hit_example =
    retrieve_page_hit ram memory two entries two-Holds fsm_kind 32672 (entry 2 1 32672) refl
      (omega arith)

insert_page_room_example :
    (c' : PageCache ram) × (insert_page ram memory (page 7) two ≡ ok tt c')
    × Fronted
        (record two { next_object = two.next_object + 1 })
        c'
        entries
        (record { object = two.next_object; page = page 7 })
unfolding remove_id two blank
insert_page_room_example = insert_page_room ram memory two entries two-Holds (page 7) (omega arith)
