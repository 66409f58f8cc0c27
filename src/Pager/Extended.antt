-- ===== src/Pager/Extended.antt =====
-- The database that `createNewPage` of src/backend/Pager.tpp has added an FSM page and its blocks to.
use kndb.Base.{
  ℕ, ◌+◌, ◌*◌, ◌/◌, ◌%◌, ◌<◌, ◌≡◌, refl, sym, ap, subst, ◌∙◌, true, false, not, List, [], ◌∷◌, none,
  some, ok, throws, runtime_error, arith, inl, inr, ◌⊎◌, Bool-cases, ltb, ltb→lt, ◌==◌,
  if◌then◌else◌,
}
use kndb.Constants.{max_fsmpages, pg_sz}
use kndb.Posix.{Posix, PosixLaws}
use kndb.Io.Blocks as Blocks
use kndb.Vari.Codec.{Memory}
use kndb.Fsm.{FsmPage, get_blocks_in_page}
use kndb.Cache.{Owned, PageCache}
use kndb.Cache.Views.{Shows, Keeps, Keeps-refl}
use kndb.FreeSpaceMap.Steps.{View, FsmAt}
use kndb.FreeSpaceMap.Invariant.{IsValid, free_id}
use kndb.FreeSpaceMap.Others.{is_map, KeepsOthers, KeepsOthers-refl}
use kndb.FreeSpaceMap.Push.{pushed_IsValid, pushed_free, pushed-KeepsOthers, link_fsmpage-Steps}
use kndb.Pager.{add_fsm_page}
use kndb.Pager.Invariant.{IsOpen, map_at, shown_before}
use kndb.Pager.Grow.{grown_view, new_at, kept_at, grown_pages, grown_Unlisted, grown_free}
use kndb.Pager.Extend.{Added, add_fsm_page_ends}

-- The database with the blocks of one more FSM page, all free but its own, and with the old pages.
pub record Extended {os : Posix} (c : PageCache os) (v : View) (c' : PageCache os) (w : View)
    (ids : List ℕ) : Type 0 where
  pub opened : IsOpen c' w ids
  pub more : c'.io.blocks ≡ c.io.blocks + get_blocks_in_page
  pub kept : (j : ℕ) → j < c.io.blocks → is_map (v j) ≡ false → w j ≡ v j
  pub free :
      (m : ℕ)
      → free_id w m ≡ (
          if m / get_blocks_in_page * get_blocks_in_page == c.io.blocks
          then not (m % get_blocks_in_page == 0)
          else free_id v m)

module _ (os : Posix) (mem : Memory) (laws : PosixLaws os) (c : PageCache os) (v : View)
    (covered : (n : ℕ)
      → n < c.io.blocks
      → (p : FsmPage) × FsmAt v (n / get_blocks_in_page * get_blocks_in_page) p)
    (within : (id : ℕ) (o : Owned) → v id ≡ some o → id < c.io.blocks)
    (own : (id : ℕ) → id < c.io.blocks → id % get_blocks_in_page ≡ 0 → free_id v id ≡ false)
    (bounded : c.io.blocks < max_fsmpages * get_blocks_in_page)
    (whole : c.io.blocks % get_blocks_in_page ≡ 0)
    (room : max_fsmpages * get_blocks_in_page < c.capacity) where
  module _ (c1 : PageCache os) (a : Added os mem laws c v c1) where
    abbrev grown : View
    grown = grown_view v c.io.blocks within whole bounded c.next_object a.page a.fresh

    grown_map :
        (n : ℕ)
        → n < c.io.blocks + get_blocks_in_page
        → is_map (grown (n / get_blocks_in_page * get_blocks_in_page)) ≡ true
    grown_map n lt = elim (Bool-cases (ltb n c.io.blocks)) [
      | inl old ↦
          let (p, at) = covered n (ltb→lt n c.io.blocks old) in
          let kept =
            kept_at v c.io.blocks within whole bounded c.next_object a.page a.fresh
              (n / get_blocks_in_page * get_blocks_in_page) p at in
          ap is_map kept.shown
      | inr new ↦
          let here : n / get_blocks_in_page * get_blocks_in_page ≡ c.io.blocks = ground arith in
          let at = new_at v c.io.blocks within whole bounded c.next_object a.page a.fresh in
          subst (λ j. is_map (grown j) ≡ true) (sym here) (ap is_map at.shown)
    ]

    grown_within : (id : ℕ) (o : Owned) → grown id ≡ some o → id < c.io.blocks + get_blocks_in_page
    grown_within id o e = elim (Bool-cases (c.io.blocks == id)) [
      | inl y ↦ ground arith
      | inr n ↦ let before = within id o (rw n at e) in omega arith
    ]

    grown_own :
        (id : ℕ)
        → id < c.io.blocks + get_blocks_in_page
        → id % get_blocks_in_page ≡ 0
        → (if id / get_blocks_in_page * get_blocks_in_page == c.io.blocks
            then not (id % get_blocks_in_page == 0)
            else free_id v id)
          ≡ false
    grown_own id lt placed =
        elim (Bool-cases (id / get_blocks_in_page * get_blocks_in_page == c.io.blocks)) [
          | inl y ↦ rw (y, placed)
          | inr n ↦ rw n (own id (ground arith) placed)
        ]

    old_shown : (j : ℕ) → j < c.io.blocks → grown j ≡ v j
    old_shown j lt = let apart : (c.io.blocks == j) ≡ false = ground arith in rw apart

    extended :
        (c' : PageCache os) (w : View) (ids : List ℕ)
        → Shows c' w
        → Keeps c1 c'
        → IsValid w ids
        → KeepsOthers grown w
        → ((m : ℕ) → free_id w m ≡ free_id grown m)
        → Extended c v c' w ids
    extended c' w ids s k valid others same =
        let more : c'.io.blocks ≡ c.io.blocks + get_blocks_in_page = rw (k.io) a.more in
        let free = grown_free v c.io.blocks within whole bounded c.next_object a.page a.fresh in
        record {
          opened = record {
            shows = s;
            map = valid;
            file = rw (k.io) a.file;
            covered = λ n lt. map_at w _ (others.maps _ (grown_map n (rw more at lt)));
            within = λ id o e.
                let (o', before) = shown_before grown w id o others e in
                rw more (grown_within id o' before);
            own = λ id lt placed. same id ∙ free id ∙ grown_own id (rw more at lt) placed;
            whole = rw more (omega arith);
            few = rw more (omega arith);
            room = rw (k.capacity, a.same_capacity) room;
          };
          more = more;
          kept = λ j lt not_map.
              let here : grown j ≡ v j = old_shown j lt in
              others.others j (ap is_map here ∙ not_map) ∙ here;
          free = λ m. same m ∙ free m;
        }

  -- The ends of the growth: a database with one more FSM page, or an exception if `ftruncate` fails.
  abbrev pub ExtendEnds : Type 0
  ExtendEnds =
      ((c' : PageCache os) × (w : View) × (ids : List ℕ) × (add_fsm_page os mem c ≡ ok tt c')
        × Extended c v c' w ids)
      ⊎ ((add_fsm_page os mem c ≡ throws runtime_error c)
          × (os.ftruncate c.io.file ((c.io.blocks + get_blocks_in_page) * pg_sz) ≡ none))

  pub add_fsm_page_first :
      (s : Shows c v) (file : Blocks.IsValid os c.io) → c.io.blocks ≡ 0 → ExtendEnds
  add_fsm_page_first s file none_yet =
      elim (add_fsm_page_ends os mem laws c v s file within bounded whole room) [
        | inr failed ↦ inr failed
        | inl (c', a, run) ↦
            let at = new_at v c.io.blocks within whole bounded c.next_object a.page a.fresh in
            let pages =
              grown_pages v c.io.blocks within whole bounded c.next_object a.page a.fresh
                (λ j p k. absurd (omega (arith, within j _ k.shown))) in
            inl (
              c',
              grown c' a,
              [],
              run ∙ rw none_yet,
              extended c' a c' (grown c' a) [] a.shows (Keeps-refl c')
                  (record {
                    first = a.page;
                    at_first = subst (λ n. FsmAt (grown c' a) n a.page) none_yet at;
                    chain = a.fresh.unlinked;
                    pages = pages;
                    listed = λ id p k out off.
                        let apart : (c.io.blocks == id) ≡ false = ground arith in
                        absurd (omega (arith, within id _ (rw apart at k.shown)));
                  })
                  (KeepsOthers-refl (grown c' a)) (λ m. refl),
            )
      ]

  pub add_fsm_page_more :
      (s : Shows c v) (file : Blocks.IsValid os c.io) (ids : List ℕ)
      → IsValid v ids
      → 0 < c.io.blocks
      → ExtendEnds
  add_fsm_page_more s file ids h positive =
      elim (add_fsm_page_ends os mem laws c v s file within bounded whole room) [
        | inr failed ↦ inr failed
        | inl (c1, a, run) ↦
            let u =
              grown_Unlisted v c.io.blocks within whole bounded c.next_object a.page a.fresh ids h
                positive in
            let (c', linked, s', k) =
              (link_fsmpage-Steps (grown c1 a) ids c.io.blocks a.page u os mem).run c1 a.shows in
            let some_blocks : (c.io.blocks == 0) ≡ false = ground arith in
            inl (
              c',
              _,
              c.io.blocks ∷ ids,
              run ∙ rw (some_blocks, linked),
              extended c1 a c' _ (c.io.blocks ∷ ids) s' k
                  (pushed_IsValid (grown c1 a) ids c.io.blocks a.page u
                    (omega (arith, a.fresh.count)))
                  (pushed-KeepsOthers (grown c1 a) ids c.io.blocks a.page u)
                  (pushed_free (grown c1 a) ids c.io.blocks a.page u),
            )
      ]
