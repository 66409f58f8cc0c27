-- ===== src/Pager/Extend.antt =====
-- The start of `createNewPage` of src/backend/Pager.tpp, which adds an FSM page and its blocks.
use kndb.Base.{
  ℕ, ◌+◌, ◌*◌, ◌/◌, ◌%◌, ◌<◌, ◌≡◌, ap, subst, ◌∙◌, false, not, none, some, M, ok, throws,
  runtime_error, pure, ◌>>◌, and_then, arith, inl, inr, ◌⊎◌, ◌==◌, if◌then◌else◌,
}
use kndb.Constants.{max_fsmpages, pg_sz}
use kndb.Posix.{Posix, PosixLaws}
use kndb.Io.{IoHandler, get_num_blocks, create_multiple_blocks}
use kndb.Io.Blocks as Blocks
use kndb.Io.Grow.{create_multiple_blocks_lem}
use kndb.Vari.Codec.{Memory}
use kndb.Fsm.{FsmPage, get_blocks_in_page}
use kndb.Fsm
use kndb.Fsm.Scan.{IsFresh, new_page_lem}
use kndb.Page.{fsm}
use kndb.Cache.{Owned, PageCache, insert_page, on_io}
use kndb.Cache.Views.{Shows, put}
use kndb.Cache.Room.{insert_page-Shows}
use kndb.FreeSpaceMap.{link_fsmpage}
use kndb.FreeSpaceMap.Steps.{View}
use kndb.Pager.{num_blocks, insert_fsm_page, add_fsm_page}

module _ (os : Posix) (mem : Memory) (laws : PosixLaws os) where
  io_Shows :
      (c : PageCache os) (v : View) (io : IoHandler os) → Shows c v → Shows (record c { io = io }) v
  io_Shows c v io s = record {
    entries = s.entries;
    holds = record {
      nodes = s.holds.nodes;
      indexed = s.holds.indexed;
      distinct = s.holds.distinct;
    };
    within = s.within;
    objects = s.objects;
    fresh = s.fresh;
    shown = s.shown;
  }

  -- A new FSM page in the cache, with its blocks in the file, before it is linked.
  pub record Added (c : PageCache os) (v : View) (c' : PageCache os) : Type 0 where
    pub page : FsmPage
    pub fresh : IsFresh page c.io.blocks
    pub shows : Shows c' (put v c.io.blocks (record { object = c.next_object; page = fsm page }))
    pub file : Blocks.IsValid os c'.io
    pub more : c'.io.blocks ≡ c.io.blocks + get_blocks_in_page
    pub same_capacity : c'.capacity ≡ c.capacity

  module _ (c : PageCache os) (v : View) (s : Shows c v) (file : Blocks.IsValid os c.io)
      (within : (id : ℕ) (o : Owned) → v id ≡ some o → id < c.io.blocks)
      (bounded : c.io.blocks < max_fsmpages * get_blocks_in_page)
      (whole : c.io.blocks % get_blocks_in_page ≡ 0)
      (room : max_fsmpages * get_blocks_in_page < c.capacity) where
    -- The ends of the growth: a new page, to be linked, or an exception if `ftruncate` fails.
    abbrev pub link_new : M (PageCache os) (Unit {0})
    link_new = if not (c.io.blocks == 0) then link_fsmpage os mem c.io.blocks else pure tt

    abbrev pub AddEnds : Type 0
    AddEnds =
        ((c' : PageCache os) × Added c v c' × (add_fsm_page os mem c ≡ link_new c'))
        ⊎ ((add_fsm_page os mem c ≡ throws runtime_error c)
            × (os.ftruncate c.io.file ((c.io.blocks + get_blocks_in_page) * pg_sz) ≡ none))

    few : (c.io.blocks / get_blocks_in_page == max_fsmpages) ≡ false
    few = ground arith

    insert_and_link : ℕ → M (PageCache os) (Unit {0})
    insert_and_link n =
        insert_fsm_page os mem (Fsm.new_page n)
        >> (if not (n == 0) then link_fsmpage os mem n else pure tt)

    fails :
        create_multiple_blocks os get_blocks_in_page c.io ≡ throws runtime_error c.io
        → add_fsm_page os mem c ≡ throws runtime_error c
    unfolding add_fsm_page num_blocks get_num_blocks insert_and_link
    fails run =
        let grow : on_io os mem (create_multiple_blocks os get_blocks_in_page) c
            ≡ throws runtime_error c =
          rw (on_io, run) in
        rw few (ap (λ r. and_then r insert_and_link) grow)

    after_growth :
        (io : IoHandler os)
        → create_multiple_blocks os get_blocks_in_page c.io ≡ ok c.io.blocks io
        → add_fsm_page os mem c
          ≡ (insert_fsm_page os mem (Fsm.new_page c.io.blocks) >> link_new) (record c { io = io })
    unfolding add_fsm_page num_blocks get_num_blocks insert_and_link
    after_growth io run =
        let grow : on_io os mem (create_multiple_blocks os get_blocks_in_page) c
            ≡ ok c.io.blocks (record c { io = io }) =
          rw (on_io, run) in
        rw few (ap (λ r. and_then r insert_and_link) grow)

    after_insert :
        (io : IoHandler os) (q : FsmPage) (c' : PageCache os)
        → Fsm.new_page c.io.blocks ≡ ok tt q
        → insert_page os mem (fsm q) (record c { io = io }) ≡ ok tt c'
        → (insert_fsm_page os mem (Fsm.new_page c.io.blocks) >> link_new) (record c { io = io })
          ≡ link_new c'
    unfolding insert_fsm_page
    after_insert io q c' built inserted = rw (built, inserted)

    pub add_fsm_page_ends : AddEnds
    unfolding add_fsm_page num_blocks get_num_blocks
    add_fsm_page_ends =
        elim (create_multiple_blocks_lem os laws c.io file get_blocks_in_page (omega arith)
          (omega arith)) [
            | inr (failed, cut) ↦ inr (fails failed, cut)
            | inl (io, run, grown) ↦
                let (q, built, fresh) = new_page_lem c.io.blocks in
                let (c', inserted, i) =
                  insert_page-Shows (io_Shows c v io s) mem (fsm q) c.io.blocks within
                    (omega arith) in
                inl (
                  c',
                  record {
                    page = q;
                    fresh = fresh;
                    shows =
                        subst
                          (λ n.
                            Shows c' (put v n (record { object = c.next_object; page = fsm q })))
                          fresh.own_id i.shows;
                    file = rw (i.same_io) grown.valid;
                    more = ap (λ (h : IoHandler os). h.blocks) i.same_io ∙ grown.more;
                    same_capacity = i.same_capacity;
                  },
                  after_growth io run ∙ after_insert io q c' built inserted,
                )
          ]
