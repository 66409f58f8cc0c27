-- ===== src/Pager.antt =====
-- src/backend/Pager.{hpp,cpp,tpp}: pages by id, over the cache, the free space map and the file.
pub mod Client
pub mod Invariant
pub mod Access
pub mod Grow
pub mod Extend
pub mod Extended
pub mod Create
pub mod Ends
use kndb.Base.{
  ℕ, ◌/◌, Bool, true, not, M, Outcome, ok, throws, aborts, undefined, runtime_error, assume,
  require, pure, ◌>>=◌, ◌>>◌, ltb, ◌==◌, if◌then◌else◌,
}
use kndb.Constants.{max_fsmpages}
use kndb.Posix.{Posix}
use kndb.Io.{get_num_blocks, create_multiple_blocks}
use kndb.Vari.Codec.{Memory}
use kndb.Fsm.{FsmPage, get_blocks_in_page}
use kndb.Fsm
use kndb.Page.{Page, Kind, fsm}
use kndb.Cache.{PageCache, on_io, retrieve_page, insert_page}
use kndb.FreeSpaceMap.{is_full, alloc_bit, link_fsmpage}
use kndb.FreeSpaceMap

module _ (os : Posix) (mem : Memory) where
  unfoldable pub num_blocks : M (PageCache os) ℕ
  num_blocks = on_io os mem (get_num_blocks os)

  unfoldable pub is_free : ℕ → M (PageCache os) Bool
  unfolding num_blocks
  is_free page_id = do
    n ← num_blocks
    (if not (ltb page_id n) then pure true else FreeSpaceMap.is_free os mem page_id)

  unfoldable pub free_page : ℕ → M (PageCache os) (Unit {0})
  unfolding num_blocks
  free_page page_id = do
    n ← num_blocks
    assume (ltb page_id n)
    free ← FreeSpaceMap.is_free os mem page_id
    assume (not free)
    FreeSpaceMap.free_bit os mem page_id

  -- `getPage<T>`: a reference to the page.
  unfoldable pub get_page : Kind → ℕ → M (PageCache os) ℕ
  unfolding num_blocks
  get_page kind page_id = do
    n ← num_blocks
    assume (ltb page_id n)
    free ← FreeSpaceMap.is_free os mem page_id
    assume (not free)
    retrieve_page os mem kind page_id

  -- `std::make_unique<FSMPage>(id)`, and its insertion.
  unfoldable pub insert_fsm_page : Outcome FsmPage (Unit {0}) → M (PageCache os) (Unit {0})
  insert_fsm_page (ok _ p) = insert_page os mem (fsm p)
  insert_fsm_page (throws e _) = throws e
  insert_fsm_page aborts = λ c. aborts
  insert_fsm_page undefined = λ c. undefined

  -- `if (m_ioHandler.getNumBlocks() == 0 || m_freeSpaceMap.isFull())`
  unfoldable pub needs_fsm_page : M (PageCache os) Bool
  unfolding num_blocks
  needs_fsm_page = do n ← num_blocks; (if n == 0 then pure true else is_full os mem)

  unfoldable pub add_fsm_page : M (PageCache os) (Unit {0})
  unfolding num_blocks insert_fsm_page
  add_fsm_page = do
    n ← num_blocks
    let num_fsm_pages = n / get_blocks_in_page
    require (not (num_fsm_pages == max_fsmpages)) runtime_error
    new_fsm_page_no ← on_io os mem (create_multiple_blocks os get_blocks_in_page)
    insert_fsm_page (Fsm.new_page new_fsm_page_no)
    (if not (new_fsm_page_no == 0) then link_fsmpage os mem new_fsm_page_no else pure tt)

  -- `createNewPage<T>(args…)`, with the constructor of `T` applied to the arguments: the id of a page
  -- that was free is given to a new page, to which it returns a reference.
  unfoldable pub create_new_page : Kind → (ℕ → M (PageCache os) Page) → M (PageCache os) ℕ
  unfolding needs_fsm_page
  create_new_page kind construct = do
    needed ← needs_fsm_page
    (if needed then add_fsm_page else pure tt)
    new_page_no ← alloc_bit os mem
    new_page ← construct new_page_no
    insert_page os mem new_page
    get_page kind new_page_no
