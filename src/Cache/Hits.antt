-- ===== src/Cache/Hits.antt =====
-- `retrievePage` and `insertPage` of src/backend/PageCache.{cpp,tpp} while nothing has to leave the cache.
use kndb.Base.{
  ℕ, ◌+◌, ◌<◌, ◌≤◌, ◌≡◌, refl, ap, ◌∙◌, true, List, [], ◌∷◌, none, some, ok, throws, bad_cast, ◌==◌,
  if◌then◌else◌, length, arith, inl, inr, Bool-cases, Option-cases, map,
}
use kndb.Posix.{Posix}
use kndb.Vari.Codec.{Memory}
use kndb.Page.{Page, Kind, get_page_id, has_kind}
use kndb.Cache.{
  Owned, PageCache, node_at, move_out, erase_mapped, touch, retrieve_page, insert_page, mapped_page,
  make_page,
}
use kndb.Cache.Entries.{
  Entry, id_of, node_of, find_id, remove_id, addr_of, Holds, find_id_here, node_at-found,
  erase_node-found, erase_node-move_out,
}
use kndb.Cache.Front.{Fronted, update_lru-Fronted}

-- A page that is found is there once.
pub length-remove_id :
    (id : ℕ) (es : List Entry) (e : Entry)
    → find_id id es ≡ some e
    → length (remove_id id es) + 1 ≡ length es
unfolding find_id remove_id
length-remove_id id [] e h = cc
length-remove_id id (f ∷ es) e h = elim (Bool-cases (id_of f == id)) [
  | inl y ↦ rw y (omega arith)
  | inr n ↦ rw n (omega (arith, length-remove_id id es e (rw n at h)))
]

pub remove_id-unknown : (id : ℕ) (es : List Entry) → find_id id es ≡ none → remove_id id es ≡ es
unfolding find_id remove_id
remove_id-unknown id [] h = refl
remove_id-unknown id (f ∷ es) h = ground (arith, remove_id-unknown id es)

eq_self : (n : ℕ) → (n == n) ≡ true
eq_self n = ground arith

pub find_id-first : (e : Entry) (es : List Entry) → find_id (id_of e) (e ∷ es) ≡ some e
unfolding find_id
find_id-first e es = rw (eq_self (id_of e))

node_at-first :
    (e : Entry) (es : List Entry) → node_at e.addr (map node_of (e ∷ es)) ≡ some (node_of e)
unfolding node_at
node_at-first e es = rw (eq_self e.addr)

module _ (os : Posix) (mem : Memory) (c : PageCache os) (es : List Entry) (holds : Holds c es) where
  -- Moving a page of the cache to the front evicts nothing.
  touch-Fronted :
      (id : ℕ) (e : Entry)
      → find_id id es ≡ some e
      → length es ≤ c.capacity
      → (c' : PageCache os) × (touch os mem e.addr c ≡ ok tt c') × Fronted c c' es e.owned
  unfolding touch erase_mapped
  touch-Fronted id e found room =
      let own : find_id (id_of e) es ≡ some e = rw (find_id_here id es e found) found in
      let here : node_at e.addr c.list ≡ some (node_of e) =
        rw (holds.nodes) (node_at-found id es e c.next_addr holds.distinct found) in
      let (c', run, f) =
        update_lru-Fronted os mem moved es e.owned holds.indexed holds.distinct (behind own)
          (omega (arith, length-remove_id (id_of e) es e own)) in
      (
        c',
        rw (here) run,
        record {
          holds = f.holds;
          same_io = f.same_io;
          same_capacity = f.same_capacity;
          same_objects = f.same_objects;
        },
      )
    where
      moved : PageCache os
      moved = record c { list = move_out e.addr c.list }

      behind :
          find_id (id_of e) es ≡ some e
          → erase_mapped (c.map (id_of e)) (move_out e.addr c.list)
            ≡ map node_of (remove_id (id_of e) es)
      behind own =
          let known : c.map (id_of e) ≡ some e.addr = holds.indexed (id_of e) ∙ ap addr_of own in
          rw (known, erase_mapped, erase_node-move_out e.addr c.list, holds.nodes)
            (erase_node-found (id_of e) es e c.next_addr holds.distinct own)

  mapped_page-front :
      (c' : PageCache os) (owned : Owned)
      → Fronted c c' es owned
      → mapped_page os mem (get_page_id owned.page) c' ≡ ok owned c'
  unfolding mapped_page
  mapped_page-front c' owned f =
      let first : Entry = record { addr = c.next_addr; owned = owned } in
      let known : c'.map (id_of first) ≡ some c.next_addr =
        f.holds.indexed (id_of first)
        ∙ ap addr_of (find_id-first first (remove_id (id_of first) es)) in
      let here : node_at c.next_addr c'.list ≡ some (node_of first) =
        rw (f.holds.nodes) (node_at-first first (remove_id (id_of first) es)) in
      rw (known, here)

  -- The ends of `retrievePage` for a page in the cache.
  abbrev pub Retrieves : Kind → ℕ → Entry → Type 0
  Retrieves kind id e =
      (c' : PageCache os) × Fronted c c' es e.owned
      × (retrieve_page os mem kind id c
          ≡ (if has_kind kind e.owned.page then ok e.owned.object c' else throws bad_cast c'))

  -- For a page in a cache within its capacity `retrievePage` returns the object that is there, or throws
  -- at one of another class; in either case the page moves to the front, every other stays where it was,
  -- and no page is read, written or evicted.
  pub retrieve_page_hit :
      (kind : Kind) (id : ℕ) (e : Entry)
      → find_id id es ≡ some e
      → length es ≤ c.capacity
      → Retrieves kind id e
  unfolding retrieve_page
  retrieve_page_hit kind id e found room =
      let (c', run, f) = touch-Fronted id e found room in
      let known : c.map id ≡ some e.addr = holds.indexed id ∙ ap addr_of found in
      let same : id_of e ≡ id = find_id_here id es e found in
      let got : mapped_page os mem id c' ≡ ok e.owned c' =
        rw (← same) (mapped_page-front c' e.owned f) in
      (c', f, rw (known, run, got))

  -- A page put in where there is room becomes the first, in place of one of its id; no page is read,
  -- written or evicted.
  pub insert_page_room :
      (page : Page)
      → length (remove_id (get_page_id page) es) < c.capacity
      → (c' : PageCache os) × (insert_page os mem page c ≡ ok tt c')
        × Fronted
            (record c { next_object = c.next_object + 1 })
            c'
            es
            (record { object = c.next_object; page = page })
  unfolding insert_page make_page erase_mapped
  insert_page_room page room =
      let owned : Owned = record { object = c.next_object; page = page } in
      let made : PageCache os = record c { next_object = c.next_object + 1 } in
      update_lru-Fronted os mem made es owned holds.indexed holds.distinct behind room
    where
      behind :
          erase_mapped (c.map (get_page_id page)) c.list
          ≡ map node_of (remove_id (get_page_id page) es)
      behind = elim (Option-cases (find_id (get_page_id page) es)) [
        | inl absent ↦
            let unknown : c.map (get_page_id page) ≡ none =
              holds.indexed (get_page_id page) ∙ ap addr_of absent in
            rw (unknown, erase_mapped, remove_id-unknown (get_page_id page) es absent) holds.nodes
        | inr (e, found) ↦
            let known : c.map (get_page_id page) ≡ some e.addr =
              holds.indexed (get_page_id page) ∙ ap addr_of found in
            rw (known, erase_mapped, holds.nodes)
              (erase_node-found (get_page_id page) es e c.next_addr holds.distinct found)
      ]
