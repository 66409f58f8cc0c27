-- ===== src/Cache.antt =====
-- src/backend/PageCache.{hpp,cpp,tpp}: the cache of pages, a list with the page used last in front and a
-- map from page ids to the nodes of the list. A node has an address; a page object has a number, which
-- stands for the references to it. A reference to an object that is gone is undefined behaviour.
pub mod Entries
pub mod Front
pub mod Hits
pub mod Refs
pub mod Views
pub mod Calls
pub mod Steps
pub mod Room
use kndb.Base.{
  ℕ, ◌+◌, Bool, true, false, List, [], ◌∷◌, Option, none, some, M, Outcome, ok, throws, aborts,
  undefined, bad_cast, pure, get_state, ◌>>=◌, ◌>>◌, ltb, ◌==◌, if◌then◌else◌, length, noexcept,
}
use kndb.Posix.{Posix}
use kndb.Io.{IoHandler, read_block, write_block}
use kndb.Cursor.{Cursor}
use kndb.Vari.Codec.{Memory}
use kndb.Page.{Page, Kind, get_page_id, has_kind, to_bytes, from_bytes}

-- What a `Ptr<Page>` owns.
pub record Owned : Type 0 where
  pub object : ℕ
  pub page : Page

-- A node of `std::list<Ptr<Page>>`; its pointer is null after a `std::move`.
pub record Node : Type 0 where
  pub addr : ℕ
  pub ptr : Option Owned

pub record PageCache (os : Posix) : Type 0 where
  pub io : IoHandler os
  pub capacity : ℕ
  pub list : List Node
  pub map : ℕ → Option ℕ
  pub next_addr : ℕ
  pub next_object : ℕ

-- `*it`, for the node at an address.
unfoldable pub node_at : ℕ → List Node → Option Node
node_at a [] = none
node_at a (n ∷ ns) = if n.addr == a then some n else node_at a ns

-- `m_list.erase(it)`
unfoldable pub erase_node : ℕ → List Node → List Node
erase_node a [] = []
erase_node a (n ∷ ns) = if n.addr == a then ns else n ∷ erase_node a ns

-- `std::move(*it)`
unfoldable pub move_out : ℕ → List Node → List Node
move_out a [] = []
move_out a (n ∷ ns) = if n.addr == a then record n { ptr = none } ∷ ns else n ∷ move_out a ns

-- `m_list.back()` and `m_list.pop_back()`
unfoldable pub back : List Node → Option Node
back [] = none
back (n ∷ []) = some n
back (n ∷ m ∷ ns) = back (m ∷ ns)

unfoldable pub pop_back : List Node → List Node
pop_back [] = []
pop_back (n ∷ []) = []
pop_back (n ∷ m ∷ ns) = n ∷ pop_back (m ∷ ns)

abbrev pub map_set : (ℕ → Option ℕ) → ℕ → Option ℕ → ℕ → Option ℕ
map_set m id v j = if id == j then v else m j

-- `if (m_map.contains(pageID)) m_list.erase(m_map[pageID]);`
unfoldable pub erase_mapped : Option ℕ → List Node → List Node
erase_mapped none list = list
erase_mapped (some a) list = erase_node a list

module _ (os : Posix) (mem : Memory) where
  -- A call on the `IOHandler` that the cache refers to.
  abbrev pub on_io {ℓ} : {A : Type ℓ} → M (IoHandler os) A → M (PageCache os) A
  on_io m c = elim (m c.io) [
    | ok a io ↦ ok a (record c { io = io })
    | throws e io ↦ throws e (record c { io = io })
    | aborts ↦ aborts
    | undefined ↦ undefined
  ]

  -- Code on a local buffer, of which the cache sees the result.
  abbrev pub local {ℓ} : {A : Type ℓ} → Outcome Cursor A → M (PageCache os) (A × List ℕ)
  local r c = elim r [
    | ok a cur ↦ ok (a, cur.bytes) c
    | throws e _ ↦ throws e c
    | aborts ↦ aborts
    | undefined ↦ undefined
  ]

  -- A value that the code takes to be there: a dereferenced iterator or pointer.
  abbrev pub present {ℓ} : {A : Type ℓ} → Option A → M (PageCache os) A
  present o c = elim o [ none ↦ undefined | some a ↦ ok a c ]

  abbrev pub set_list : List Node → M (PageCache os) (Unit {0})
  set_list list c = ok tt (record c { list = list })

  abbrev pub set_map : (ℕ → Option ℕ) → M (PageCache os) (Unit {0})
  set_map map c = ok tt (record c { map = map })

  -- `**m_map[pageID]`
  unfoldable pub mapped_page : ℕ → M (PageCache os) Owned
  mapped_page id = do
    c ← get_state
    a ← present (c.map id)
    n ← present (node_at a c.list)
    present n.ptr

  unfoldable pub write_page : ℕ → M (PageCache os) (Unit {0})
  unfolding mapped_page
  write_page id = do
    owned ← mapped_page id
    (_, bytes) ← local (to_bytes mem owned.page mem.page_buffer)
    on_io (write_block os bytes id)

  -- `if (m_list.size() > m_capacity) { … }`
  unfoldable pub evict : M (PageCache os) (Unit {0})
  unfolding write_page
  evict = do
    c ← get_state
    last ← present (back c.list)
    owned ← present last.ptr
    let back_id = get_page_id owned.page
    write_page back_id
    c ← get_state
    set_map (map_set c.map back_id none)
    set_list (pop_back c.list)

  -- Steps 1 to 3 of `updateLRU`.
  unfoldable pub place_front : Owned → M (PageCache os) (Unit {0})
  place_front owned c =
      let id = get_page_id owned.page in
      ok tt (record c {
        list = record { addr = c.next_addr; ptr = some owned } ∷ erase_mapped (c.map id) c.list;
        map = map_set c.map id (some c.next_addr);
        next_addr = c.next_addr + 1;
      })

  unfoldable pub update_lru : Owned → M (PageCache os) (Unit {0})
  update_lru owned = do
    place_front owned
    c ← get_state
    (if ltb c.capacity (length c.list) then evict else pure tt)

  -- `std::make_unique`: a new object.
  unfoldable pub make_page : Page → M (PageCache os) Owned
  make_page page c =
      ok (record { object = c.next_object; page = page })
        (record c { next_object = c.next_object + 1 })

  unfoldable pub insert_page : Page → M (PageCache os) (Unit {0})
  insert_page page = do owned ← make_page page; update_lru owned

  -- The branch of `retrievePage` for a page in the cache, at the address that the map has for it.
  unfoldable pub touch : ℕ → M (PageCache os) (Unit {0})
  touch a = do
    c ← get_state
    n ← present (node_at a c.list)
    set_list (move_out a c.list)
    owned ← present n.ptr
    update_lru owned

  -- The branch for a page that is not.
  unfoldable pub load : Kind → ℕ → M (PageCache os) (Unit {0})
  load kind id = do
    buf ← on_io (read_block os mem.page_buffer id)
    (page, _) ← local (from_bytes kind buf id)
    owned ← make_page page
    update_lru owned

  -- `retrievePage<T>`: the reference is the number of the object.
  unfoldable pub retrieve_page : Kind → ℕ → M (PageCache os) ℕ
  retrieve_page kind id = do
    c ← get_state
    (elim (c.map id) [ none ↦ load kind id | some a ↦ touch a ])
    owned ← mapped_page id
    (λ c. if has_kind kind owned.page then ok owned.object c else throws bad_cast c)

  -- The loop of the destructor, over the ids in the order in which the map is iterated, with the one
  -- buffer that all the pages are written to.
  unfoldable pub flush : List ℕ → List ℕ → M (PageCache os) (Unit {0})
  unfolding mapped_page
  flush [] buf = pure tt
  flush (id ∷ ids) buf = do
    owned ← mapped_page id
    (_, bytes) ← local (to_bytes mem owned.page buf)
    on_io (write_block os bytes id)
    flush ids bytes

  -- The destructor.
  unfoldable pub destroy : List ℕ → M (PageCache os) (Unit {0})
  unfolding flush
  destroy ids = noexcept (flush ids mem.page_buffer)
