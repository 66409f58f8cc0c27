-- ===== src/Pager/Ends.antt =====
-- `createNewPage` of src/backend/Pager.tpp as an operation on the set of the page ids in use.
use kndb.Base.{
  ℕ, ◌+◌, ◌*◌, ◌/◌, ◌%◌, ◌<◌, ◌≡◌, ◌≢◌, refl, sym, ap, ◌∙◌, Bool, true, false, not, List, none,
  some, M, ok, throws, runtime_error, pure, arith, inl, inr, ◌⊎◌, Bool-cases, ==_iff, ltb, ◌==◌,
  ◌&&◌, if◌then◌else◌, ◌>>◌,
}
use kndb.Constants.{max_fsmpages, pg_sz, pgid_invalid}
use kndb.Posix.{Posix, PosixLaws}
use kndb.Io.{IoHandler, get_num_blocks}
use kndb.Io.Blocks as Blocks
use kndb.Vari.Codec.{Memory}
use kndb.Fsm.{FsmPage, get_blocks_in_page}
use kndb.Page.{Page, Kind, fsm_kind, get_page_id, has_kind}
use kndb.Cache.{Owned, PageCache}
use kndb.Cache.Views.{Shows}
use kndb.FreeSpaceMap.{is_full}
use kndb.FreeSpaceMap.Steps.{View, FsmAt-unique}
use kndb.FreeSpaceMap.Invariant.{IsValid, free_id, full_map}
use kndb.FreeSpaceMap.Others.{is_map, KeepsOthers-refl}
use kndb.FreeSpaceMap.Alloc.{none_free}
use kndb.FreeSpaceMap.Alloc.First.{is_full-Steps}
use kndb.Pager.{num_blocks, needs_fsm_page, add_fsm_page, create_new_page}
use kndb.Pager.Invariant.{IsOpen, moved_IsOpen, free_within}
use kndb.Pager.Create.{Placed, place, place_lem}
use kndb.Pager.Extended.{Extended, add_fsm_page_first, add_fsm_page_more}

-- The page of an id is in the file and not free.
abbrev pub in_use : {os : Posix} → PageCache os → View → ℕ → Bool
in_use c v m = if ltb m c.io.blocks then not (free_id v m) else false

module _ (os : Posix) (mem : Memory) (laws : PosixLaws os) (kind : Kind)
    (construct : ℕ → M (PageCache os) Page) (page : ℕ → Page)
    (plain : (n : ℕ) (c : PageCache os) → construct n c ≡ ok (page n) c)
    (own_id : (n : ℕ) → get_page_id (page n) ≡ n)
    (is_kind : (n : ℕ) → has_kind kind (page n) ≡ true)
    (other : (n : ℕ) → has_kind fsm_kind (page n) ≡ false) where
  -- A database with a new page, at an id that was not in use, which the reference stands for. The other
  -- ids in use, but for those of FSM pages, are those before, and their pages are what they were.
  pub record Created (c : PageCache os) (v : View) (object : ℕ) (c' : PageCache os) : Type 0 where
    pub id : ℕ
    pub after : View
    pub ids : List ℕ
    pub opened : IsOpen c' after ids
    pub unused : in_use c v id ≡ false
    pub shown : after id ≡ some (record { object = object; page = page id })
    pub kept : (j : ℕ) → j ≢ id → j < c.io.blocks → is_map (v j) ≡ false → after j ≡ v j
    pub used :
        (m : ℕ)
        → m % get_blocks_in_page ≢ 0
        → in_use c' after m ≡ (if id == m then true else in_use c v m)

  Placed-Created :
      (c c0 c' : PageCache os) (v : View) (ids : List ℕ) (object : ℕ)
      → IsOpen c0 v ids
      → c0.io ≡ c.io
      → Placed mem kind construct page plain own_id is_kind other c0 v object c'
      → Created c v object c'
  Placed-Created c c0 c' v ids object h io p =
      let inside : p.id < c.io.blocks = rw (← io) (free_within h p.id p.was_free) in
      let same : c'.io.blocks ≡ c.io.blocks =
        p.same_blocks ∙ ap (λ (i : IoHandler os). i.blocks) io in
      record {
        id = p.id;
        after = p.after;
        ids = p.ids;
        opened = p.opened;
        unused = rw (p.was_free) (ground arith);
        shown = p.shown;
        kept = λ j off lt not_map. p.kept j off not_map;
        used = λ m ne. rw (same, p.free m) (ground arith);
      }

  -- The ids in use in a database with one more FSM page, in numbers.
  used_after :
      (b m id : ℕ) (fm fw : Bool)
      → b % get_blocks_in_page ≡ 0
      → m % get_blocks_in_page ≢ 0
      → fw ≡ (
          if m / get_blocks_in_page * get_blocks_in_page == b
          then not (m % get_blocks_in_page == 0)
          else fm)
      → (id ≡ m → m < b + get_blocks_in_page)
      → (if ltb m (b + get_blocks_in_page) then not (if id == m then false else fw) else false)
        ≡ (if id == m then true else if ltb m b then not fm else false)
  used_after b m id fm fw whole ne e inside = ground arith

  unused_before :
      (b m : ℕ) (fm fw : Bool)
      → fw ≡ (
          if m / get_blocks_in_page * get_blocks_in_page == b
          then not (m % get_blocks_in_page == 0)
          else fm)
      → fw ≡ true
      → (if ltb m b then not fm else false) ≡ false
  unused_before b m fm fw e free = ground arith

  Extended-Created :
      (c c0 c1 c' : PageCache os) (v w : View) (ids : List ℕ) (object : ℕ)
      → c0.io ≡ c.io
      → c.io.blocks % get_blocks_in_page ≡ 0
      → Extended c0 v c1 w ids
      → Placed mem kind construct page plain own_id is_kind other c1 w object c'
      → Created c v object c'
  Extended-Created c c0 c1 c' v w ids object io whole e p =
      let blocks : c0.io.blocks ≡ c.io.blocks = ap (λ (i : IoHandler os). i.blocks) io in
      let same : c'.io.blocks ≡ c.io.blocks + get_blocks_in_page =
        p.same_blocks ∙ e.more ∙ ap (λ n. n + get_blocks_in_page) blocks in
      let inside : p.id < c.io.blocks + get_blocks_in_page =
        omega (arith, free_within e.opened p.id p.was_free, e.more, blocks) in
      let free = λ (m : ℕ). rw blocks at e.free m in
      record {
        id = p.id;
        after = p.after;
        ids = p.ids;
        opened = p.opened;
        unused =
            unused_before c.io.blocks p.id (free_id v p.id) (free_id w p.id) (free p.id) p.was_free;
        shown = p.shown;
        kept = λ j off lt not_map.
            let kept = e.kept j (omega arith) not_map in
            p.kept j off (ap is_map kept ∙ not_map) ∙ kept;
        used = λ m ne.
            rw (same, p.free m)
              (used_after c.io.blocks m p.id (free_id v m) (free_id w m) whole ne (free m)
                (λ s. omega arith));
      }

  -- The ends of `createNewPage` on an open database.
  abbrev pub CreateEnds : PageCache os → View → List ℕ → Type 0
  CreateEnds c v ids =
      ((object : ℕ) × (c' : PageCache os) × (create_new_page os mem kind construct c ≡ ok object c')
        × Created c v object c')
      ⊎ ((c' : PageCache os) × (create_new_page os mem kind construct c ≡ throws runtime_error c')
          × IsOpen c' v ids
          × (c'.io ≡ c.io)
          × ((m : ℕ) → free_id v m ≡ false)
          × ((c.io.blocks ≡ max_fsmpages * get_blocks_in_page)
              ⊎ (os.ftruncate c.io.file ((c.io.blocks + get_blocks_in_page) * pg_sz) ≡ none)))

  needs_run :
      (c c0 : PageCache os) (full : Bool)
      → (c.io.blocks == 0) ≡ false
      → is_full os mem c ≡ ok full c0
      → create_new_page os mem kind construct c
        ≡ ((if full then add_fsm_page os mem else pure tt)
              >> place mem kind construct page plain own_id is_kind other)
            c0
  unfolding create_new_page needs_fsm_page num_blocks get_num_blocks
  needs_run c c0 full some_blocks run = rw (some_blocks, run)

  limit_run :
      (c : PageCache os)
      → c.io.blocks ≡ max_fsmpages * get_blocks_in_page
      → add_fsm_page os mem c ≡ throws runtime_error c
  unfolding add_fsm_page num_blocks get_num_blocks
  limit_run c limit = rw limit

  -- In a database that has just grown there is a free id.
  Extended-full_map :
      (c c1 : PageCache os) (v w : View) (ids : List ℕ)
      → c.io.blocks % get_blocks_in_page ≡ 0
      → (e : Extended c v c1 w ids) → full_map w ids e.opened.map ≡ false
  Extended-full_map c c1 v w ids whole e = elim (Bool-cases (full_map w ids e.opened.map)) [
    | inr some_left ↦ some_left
    | inl full ↦
        let none_left = none_free os mem w ids e.opened.map full (c.io.blocks + 1) in
        let one_left = e.free (c.io.blocks + 1) in ground arith
  ]

  same_full : (v : View) (ids : List ℕ) (h k : IsValid v ids) → full_map v ids h ≡ full_map v ids k
  same_full v ids h k =
      ap (λ (p : FsmPage). p.free_blocks == 0 && p.next_page_id == pgid_invalid)
        (FsmAt-unique v 0 h.first k.first h.at_first k.at_first)

  -- What a full database does: it grows, or throws.
  full_ends :
      (c c0 : PageCache os) (v : View) (ids : List ℕ)
      → IsOpen c0 v ids
      → c0.io ≡ c.io
      → ((m : ℕ) → free_id v m ≡ false)
      → create_new_page os mem kind construct c
        ≡ (add_fsm_page os mem >> place mem kind construct page plain own_id is_kind other) c0
      → CreateEnds c v ids
  full_ends c c0 v ids h io full run =
      let positive : 0 < c0.io.blocks = omega (arith, h.within 0 _ h.map.at_first.shown) in
      let blocks : c0.io.blocks ≡ c.io.blocks = ap (λ (i : IoHandler os). i.blocks) io in
      elim (Bool-cases (c0.io.blocks == max_fsmpages * get_blocks_in_page)) [
        | inl y ↦
            let limit : c0.io.blocks ≡ max_fsmpages * get_blocks_in_page = (==_iff _ _).0 y in
            inr (c0, run ∙ rw (limit_run c0 limit), h, io, full, inl (sym blocks ∙ limit))
        | inr n ↦
            elim (add_fsm_page_more os mem laws c0 v h.covered h.within h.own
              (ground (arith, h.few)) h.whole h.room h.shows h.file ids h.map positive) [
                | inr (failed, cut) ↦ inr (c0, run ∙ rw failed, h, io, full, inr (rw (← io) cut))
                | inl (c1, w, after, ran, e) ↦
                    let (object, c', placed, p) =
                      place_lem mem kind construct page plain own_id is_kind other c1 w after
                        e.opened (Extended-full_map c0 c1 v w after h.whole e) in
                    inl (
                      object,
                      c',
                      run ∙ rw ran placed,
                      Extended-Created c c0 c1 c' v w after object io (rw (← io) h.whole) e p,
                    )
              ]
      ]

  -- On an open database createNewPage of a class other than FSMPage, whose constructor makes a
  -- page of the id it is given, returns a reference to such a page, which the cache shows at
  -- an id that was not in use; the database stays open, every other page that is no FSM page
  -- stays as it was, and but for the pages of FSM pages no other id is in use or out of use;
  -- or it throws, with the database as it was, if no page is free and either the database has
  -- its largest size or ftruncate fails.
  pub create_new_page_ends :
      (c : PageCache os) (v : View) (ids : List ℕ) → IsOpen c v ids → CreateEnds c v ids
  create_new_page_ends c v ids h =
      let some_blocks : 0 < c.io.blocks = omega (arith, h.within 0 _ h.map.at_first.shown) in
      let some_blocks_test : (c.io.blocks == 0) ≡ false = ground arith in
      let (c0, run0, s0, k0) = (is_full-Steps os mem v ids h.map).run c h.shows in
      let h0 = moved_IsOpen h s0 k0 h.map (KeepsOthers-refl v) h.own in
      elim (Bool-cases (full_map v ids h.map)) [
        | inr some_left ↦
            let (object, c', run, p) =
              place_lem mem kind construct page plain own_id is_kind other c0 v ids h0
                (same_full v ids h0.map h.map ∙ some_left) in
            inl (
              object,
              c',
              needs_run c c0 _ some_blocks_test run0 ∙ rw some_left run,
              Placed-Created c c0 c' v ids object h0 k0.io p,
            )
        | inl full ↦
            full_ends c c0 v ids h0 k0.io (none_free os mem v ids h.map full)
              (needs_run c c0 _ some_blocks_test run0 ∙ rw full)
      ]

  -- The ends of the first `createNewPage` on a new file.
  abbrev pub FirstEnds : PageCache os → View → Type 0
  FirstEnds c v =
      ((object : ℕ) × (c' : PageCache os) × (create_new_page os mem kind construct c ≡ ok object c')
        × Created c v object c')
      ⊎ ((create_new_page os mem kind construct c ≡ throws runtime_error c)
          × (os.ftruncate c.io.file (get_blocks_in_page * pg_sz) ≡ none))

  first_run :
      (c : PageCache os)
      → c.io.blocks ≡ 0
      → create_new_page os mem kind construct c
        ≡ (add_fsm_page os mem >> place mem kind construct page plain own_id is_kind other) c
  unfolding create_new_page needs_fsm_page num_blocks get_num_blocks
  first_run c none_yet = rw none_yet

  -- On an empty file with an empty cache of enough room createNewPage of a class other than
  -- FSMPage, whose constructor makes a page of the id it is given, makes an open database and
  -- returns a reference to such a page, which the cache shows at an id that was not in use;
  -- but for the pages of FSM pages no other id is in use; or it throws, with all as it was, if
  -- ftruncate fails.
  pub create_first_page_ends :
      (c : PageCache os) (v : View)
      → Shows c v
      → ((id : ℕ) → v id ≡ none)
      → Blocks.IsValid os c.io
      → c.io.blocks ≡ 0
      → max_fsmpages * get_blocks_in_page < c.capacity
      → FirstEnds c v
  create_first_page_ends c v s empty file none_yet room =
      elim (add_fsm_page_first os mem laws c v (λ n lt. absurd (omega arith))
        (λ id o e. absurd (nothing o (sym (empty id) ∙ e))) (λ id lt placed. absurd (omega arith))
        (omega arith) (omega arith) room s file none_yet) [
          | inr (failed, cut) ↦ inr (first_run c none_yet ∙ rw failed, rw none_yet at cut)
          | inl (c1, w, ids, ran, e) ↦
              let (object, c', placed, p) =
                place_lem mem kind construct page plain own_id is_kind other c1 w ids e.opened
                  (Extended-full_map c c1 v w ids (omega arith) e) in
              inl (
                object,
                c',
                first_run c none_yet ∙ rw ran placed,
                Extended-Created c c c1 c' v w ids object refl (omega arith) e p,
              )
        ]
    where
      nothing : (o : Owned) → none ≡ some o → ⊥
      nothing o e = cc
