-- ===== src/Pager/Invariant.antt =====
-- The state in which src/backend/Pager.cpp keeps the database: the cache, the free space map and the file.
use kndb.Base.{
  ℕ, ◌*◌, ◌/◌, ◌%◌, ◌<◌, ◌≤◌, ◌≡◌, refl, sym, ◌∙◌, true, false, List, Option, none, some, arith,
  inl, inr, Bool-cases,
}
use kndb.Constants.{max_fsmpages}
use kndb.Posix.{Posix}
use kndb.Io.Blocks as Blocks
use kndb.Fsm.{FsmPage, get_blocks_in_page}
use kndb.Page.{Page, fsm, schema, table, node}
use kndb.Cache.{Owned, PageCache}
use kndb.Cache.Views.{Shows, Keeps}
use kndb.FreeSpaceMap.Steps.{View, FsmAt}
use kndb.FreeSpaceMap.Invariant.{IsValid, free_id}
use kndb.FreeSpaceMap.Same.{not_map_free}
use kndb.FreeSpaceMap.Others.{is_map, KeepsOthers}

-- An open database of one or more FSM pages and their blocks, with a cache that has room for all of them
-- and shows the FSM pages, none of which is free, among the pages that it shows.
pub record IsOpen {os : Posix} (c : PageCache os) (v : View) (ids : List ℕ) : Type 0 where
  pub shows : Shows c v
  pub map : IsValid v ids
  pub file : Blocks.IsValid os c.io
  pub covered :
      (n : ℕ)
      → n < c.io.blocks
      → (p : FsmPage) × FsmAt v (n / get_blocks_in_page * get_blocks_in_page) p
  pub within : (id : ℕ) (o : Owned) → v id ≡ some o → id < c.io.blocks
  pub own : (id : ℕ) → id < c.io.blocks → id % get_blocks_in_page ≡ 0 → free_id v id ≡ false
  pub whole : c.io.blocks % get_blocks_in_page ≡ 0
  pub few : c.io.blocks ≤ max_fsmpages * get_blocks_in_page
  pub room : max_fsmpages * get_blocks_in_page < c.capacity

abbrev FsmIn : ℕ → View → Option Owned → Type 0
FsmIn id v o = is_map o ≡ true → v id ≡ o → (p : FsmPage) × FsmAt v id p

pub map_at : (v : View) (id : ℕ) → is_map (v id) ≡ true → (p : FsmPage) × FsmAt v id p
map_at v id h = go (v id) h refl
  where
    go : (o : Option Owned) → FsmIn id v o
    go none m e = cc
    go (some o) m e = page o.page m e
      where
        page : (p : Page) → FsmIn id v (some (record { object = o.object; page = p }))
        page (fsm p) m e = (p, record { object = o.object; shown = e })
        page (schema p) m e = cc
        page (table p) m e = cc
        page (node p) m e = cc

-- What shows a page after a change of FSM pages did so before.
pub shown_before :
    (v w : View) (id : ℕ) (o : Owned)
    → KeepsOthers v w
    → w id ≡ some o
    → (o' : Owned) × (v id ≡ some o')
shown_before v w id o k h = elim (Bool-cases (is_map (v id))) [
  | inl y ↦ let (p, at) = map_at v id y in (record { object = at.object; page = fsm p }, at.shown)
  | inr n ↦ (o, sym (k.others id n) ∙ h)
]

module _ {os : Posix} {c c' : PageCache os} {v w : View} {ids after : List ℕ} where
  -- A change of FSM pages keeps the database open, if it frees none of them.
  pub moved_IsOpen :
      IsOpen c v ids
      → Shows c' w
      → Keeps c c'
      → IsValid w after
      → KeepsOthers v w
      → ((id : ℕ) → id < c.io.blocks → id % get_blocks_in_page ≡ 0 → free_id w id ≡ false)
      → IsOpen c' w after
  moved_IsOpen h s k valid others own = record {
    shows = s;
    map = valid;
    file = rw (k.io) h.file;
    covered = λ n lt.
        let (p, at) = h.covered n (rw (k.io) at lt) in
        map_at w (n / get_blocks_in_page * get_blocks_in_page)
          (others.maps (n / get_blocks_in_page * get_blocks_in_page) (rw (at.shown)));
    within = λ id o e.
        let (o', before) = shown_before v w id o others e in rw (k.io) (h.within id o' before);
    own = λ id lt placed. own id (rw (k.io) at lt) placed;
    whole = rw (k.io) h.whole;
    few = rw (k.io) h.few;
    room = rw (k.capacity) h.room;
  }

module _ {os : Posix} {c : PageCache os} {v : View} {ids : List ℕ} (h : IsOpen c v ids) where
  -- The FSM page of a free id is shown.
  map_of_free :
      (m : ℕ)
      → free_id v m ≡ true
      → (p : FsmPage) × FsmAt v (m / get_blocks_in_page * get_blocks_in_page) p
  map_of_free m free =
      let id = m / get_blocks_in_page * get_blocks_in_page in
      elim (Bool-cases (is_map (v id))) [
        | inl y ↦ map_at v id y
        | inr n ↦ let none_free = not_map_free (v id) (m % get_blocks_in_page) n in cc
      ]

  -- A free id is one of a block of the file.
  pub free_within : (m : ℕ) → free_id v m ≡ true → m < c.io.blocks
  free_within m free =
      let (p, at) = map_of_free m free in
      let inside = h.within (m / get_blocks_in_page * get_blocks_in_page) _ at.shown in
      omega (arith, h.whole)

  -- No FSM page is free.
  pub free_not_map : (m : ℕ) → free_id v m ≡ true → is_map (v m) ≡ false
  free_not_map m free = elim (Bool-cases (is_map (v m))) [
    | inr n ↦ n
    | inl y ↦
        let (p, at) = map_at v m y in
        let used = h.own m (free_within m free) (h.map.pages m p at).placed in cc
  ]
