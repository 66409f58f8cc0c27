-- ===== src/Pager/Create.antt =====
-- `createNewPage` of src/backend/Pager.tpp, on all its branches.
use kndb.Base.{
  ℕ, ◌<◌, ◌≡◌, ◌≢◌, refl, ap, subst, ◌∙◌, true, false, List, some, M, ok, arith, inl, inr,
  Bool-cases, ==_iff, ◌==◌, if◌then◌else◌, ◌>>=◌, ◌>>◌,
}
use kndb.Posix.{Posix}
use kndb.Io.{IoHandler}
use kndb.Vari.Codec.{Memory}
use kndb.Page.{Page, Kind, fsm_kind, get_page_id, has_kind}
use kndb.Cache.{Owned, PageCache, insert_page}
use kndb.Cache.Views.{Shows, put}
use kndb.Cache.Room.{insert_page-Shows}
use kndb.FreeSpaceMap.{alloc_bit}
use kndb.FreeSpaceMap.Steps.{View}
use kndb.FreeSpaceMap.Invariant.{free_id, full_map}
use kndb.FreeSpaceMap.Others.{is_map}
use kndb.FreeSpaceMap.Same.{put-SameMaps, same_IsValid, free_id-same}
use kndb.FreeSpaceMap.Alloc.{alloc_bit-Gives}
use kndb.Pager.{get_page}
use kndb.Pager.Invariant.{IsOpen, moved_IsOpen, free_within, free_not_map}
use kndb.Pager.Access.{get_page_ends}

-- A page that is put in place of one in use, if that is no FSM page, keeps the database open.
module _ {os : Posix} {c c' : PageCache os} {v : View} {ids : List ℕ} (h : IsOpen c v ids) (id : ℕ)
    (o : Owned) (inside : id < c.io.blocks) (before : is_map (v id) ≡ false)
    (now : is_map (some o) ≡ false) where
  pub placed_IsOpen :
      Shows c' (put v id o) → c'.io ≡ c.io → c'.capacity ≡ c.capacity → IsOpen c' (put v id o) ids
  placed_IsOpen s io capacity =
      let same = put-SameMaps v id o before now in
      record {
        shows = s;
        map = same_IsValid v (put v id o) ids same h.map;
        file = rw io h.file;
        covered = λ n lt. let (p, at) = h.covered n (rw io at lt) in (p, same.to _ p at);
        within = λ j p e. elim (Bool-cases (id == j)) [
          | inl y ↦ rw (io, ← (==_iff id j).0 y) inside
          | inr n ↦ rw io (h.within j p (rw n at e))
        ];
        own = λ j lt placed. free_id-same v (put v id o) same j ∙ h.own j (rw io at lt) placed;
        whole = rw io h.whole;
        few = rw io h.few;
        room = rw capacity h.room;
      }

-- A page in place of one that was free, which the code has just taken.
module _ {os : Posix} (mem : Memory) (kind : Kind) (construct : ℕ → M (PageCache os) Page)
    (page : ℕ → Page) (plain : (n : ℕ) (c : PageCache os) → construct n c ≡ ok (page n) c)
    (own_id : (n : ℕ) → get_page_id (page n) ≡ n)
    (is_kind : (n : ℕ) → has_kind kind (page n) ≡ true)
    (other : (n : ℕ) → has_kind fsm_kind (page n) ≡ false) where
  -- A new page at an id that was free, with the others as they were.
  pub record Placed (c : PageCache os) (v : View) (object : ℕ) (c' : PageCache os) : Type 0 where
    pub id : ℕ
    pub after : View
    pub ids : List ℕ
    pub opened : IsOpen c' after ids
    pub was_free : free_id v id ≡ true
    pub shown : after id ≡ some (record { object = object; page = page id })
    pub kept : (j : ℕ) → j ≢ id → is_map (v j) ≡ false → after j ≡ v j
    pub free : (m : ℕ) → free_id after m ≡ (if id == m then false else free_id v m)
    pub same_blocks : c'.io.blocks ≡ c.io.blocks

  -- The rest of `createNewPage`.
  abbrev pub place : M (PageCache os) ℕ
  place = do
    new_page_no ← alloc_bit os mem
    new_page ← construct new_page_no
    insert_page os mem new_page
    get_page os mem kind new_page_no

  module _ (c : PageCache os) (v : View) (ids : List ℕ) (h : IsOpen c v ids)
      (some_left : full_map v ids h.map ≡ false) where
    pub place_lem :
        (object : ℕ) × (c' : PageCache os) × (place c ≡ ok object c') × Placed c v object c'
    place_lem =
        let g = alloc_bit-Gives os mem v ids h.map some_left in
        let (c1, run1, s1, k1) = g.steps.run c h.shows in
        let h1 =
          moved_IsOpen h s1 k1 g.valid g.kept
            (λ id lt placed. g.free id ∙ ground (arith, h.own id lt placed)) in
        let (c2, run2, i) =
          insert_page-Shows s1 mem (page g.id) c1.io.blocks h1.within
            (omega (arith, h1.few, h1.room)) in
        let o : Owned = record { object = c1.next_object; page = page g.id } in
        let inside : g.id < c1.io.blocks = rw (k1.io) (free_within h g.id g.was_free) in
        let old = free_not_map h g.id g.was_free in
        let before : is_map (g.after g.id) ≡ false = ap is_map (g.kept.others g.id old) ∙ old in
        let s2 : Shows c2 (put g.after g.id o) =
          subst (λ n. Shows c2 (put g.after n o)) (own_id g.id) i.shows in
        let h2 = placed_IsOpen h1 g.id o inside before (other g.id) s2 i.same_io i.same_capacity in
        let here : (g.id == g.id) ≡ true = (==_iff g.id g.id).1 refl in
        let at : put g.after g.id o g.id ≡ some o = rw here in
        let same_free =
          free_id-same g.after (put g.after g.id o)
            (put-SameMaps g.after g.id o before (other g.id)) in
        let used : free_id (put g.after g.id o) g.id ≡ false =
          same_free g.id ∙ g.free g.id ∙ rw here in
        elim (get_page_ends os mem c2 (put g.after g.id o) g.ids h2 kind g.id o at) [
          | inl (free, stopped) ↦ cc
          | inr (taken, c3, run3, k3, h3) ↦ (
            c1.next_object,
            c3,
            rw (run1, plain g.id c1, run2, run3) (rw (is_kind g.id)),
            record {
              id = g.id;
              after = put g.after g.id o;
              ids = g.ids;
              opened = h3;
              was_free = g.was_free;
              shown = at;
              kept = λ j off not_map.
                  let apart : (g.id == j) ≡ false = ground arith in
                  rw apart (g.kept.others j not_map);
              free = λ m. same_free m ∙ g.free m;
              same_blocks = ap (λ (io : IoHandler os). io.blocks) (k3.io ∙ i.same_io ∙ k1.io);
            },
          )
        ]
