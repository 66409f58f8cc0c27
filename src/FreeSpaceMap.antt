-- ===== src/FreeSpaceMap.antt =====
-- src/backend/FreeSpaceMap.{hpp,cpp}: the free space map over the pages of the cache. Page 0 is its first
-- page and heads the list of the further pages that have a free block.
pub mod Steps
pub mod Invariant
pub mod Others
pub mod Same
pub mod Push
pub mod Alloc
pub mod Free
pub mod Release
use kndb.Base.{
  ℕ, ◌+◌, ◌*◌, ◌/◌, ◌%◌, ◌^◌, Bool, List, [], ◌∷◌, Option, none, some, not, M, Outcome, ok, throws,
  aborts, undefined, assume, pure, ◌>>=◌, ◌>>◌, ◌==◌, ◌&&◌, if◌then◌else◌,
}
use kndb.Constants.{pgid_invalid}
use kndb.Posix.{Posix}
use kndb.Vari.Codec.{Memory}
use kndb.Fsm.{FsmPage, get_blocks_in_page, get_space_left, find_next_free, set_next_page_id}
use kndb.Fsm
use kndb.Page.{Page, fsm, fsm_kind}
use kndb.Cache.Refs.{made, on_page}
use kndb.Cache.{Owned, Node, PageCache, retrieve_page}

-- A method of `FSMPage`, of a page that is one.
abbrev pub fsm_call {ℓ} : {A : Type ℓ} → M FsmPage A → M Page A
fsm_call m (fsm p) = made fsm (m p)
fsm_call m _ = undefined

module _ (os : Posix) (mem : Memory) where
  -- A method call on an `FSMPage` through a reference into the cache.
  unfoldable pub on_fsm {ℓ} : {A : Type ℓ} → ℕ → M FsmPage A → M (PageCache os) A
  on_fsm r m = on_page os r (fsm_call m)

  abbrev pub next_of : M FsmPage ℕ
  next_of p = ok p.next_page_id p

  abbrev pub id_of_page : M FsmPage ℕ
  id_of_page p = ok p.page_id p

  unfoldable pub is_full : M (PageCache os) Bool
  is_full = do
    first ← retrieve_page os mem fsm_kind 0
    space ← on_fsm first get_space_left
    next ← on_fsm first next_of
    pure (space == 0 && next == pgid_invalid)

  unfoldable pub is_free : ℕ → M (PageCache os) Bool
  is_free page_id = do
    let fsm_pgid = page_id / get_blocks_in_page
    let bit = page_id % get_blocks_in_page
    page ← retrieve_page os mem fsm_kind (fsm_pgid * get_blocks_in_page)
    on_fsm page (Fsm.is_free bit)

  -- The part of `allocBit` for a first page that is full.
  unfoldable pub alloc_next : ℕ → M (PageCache os) ℕ
  alloc_next first = do
    next_id ← on_fsm first next_of
    next ← retrieve_page os mem fsm_kind next_id
    bit ← on_fsm next find_next_free
    on_fsm next (Fsm.alloc_bit bit)
    left ← on_fsm next get_space_left
    (if left == 0
        then (do after ← on_fsm next next_of; on_fsm first (set_next_page_id after))
        else pure tt)
    pure ((next_id + bit) % 2 ^ 32)

  unfoldable pub alloc_first : ℕ → M (PageCache os) ℕ
  alloc_first first = do
    bit ← on_fsm first find_next_free
    on_fsm first (Fsm.alloc_bit bit)
    pure bit

  unfoldable pub alloc_bit : M (PageCache os) ℕ
  alloc_bit = do
    full ← is_full
    assume (not full)
    first ← retrieve_page os mem fsm_kind 0
    space ← on_fsm first get_space_left
    (if not (space == 0) then alloc_first first else alloc_next first)

  -- Puts a page in front of the list that the first page heads.
  unfoldable pub push_front : ℕ → ℕ → ℕ → M (PageCache os) (Unit {0})
  push_front first page page_id = do
    prev_next_page_no ← on_fsm first next_of
    on_fsm first (set_next_page_id page_id)
    on_fsm page (set_next_page_id prev_next_page_no)

  unfoldable pub free_bit : ℕ → M (PageCache os) (Unit {0})
  free_bit page_id = do
    free ← is_free page_id
    assume (not free)
    let fsm_pgid = page_id / get_blocks_in_page
    let bit = page_id % get_blocks_in_page
    curr ← retrieve_page os mem fsm_kind (fsm_pgid * get_blocks_in_page)
    first ← retrieve_page os mem fsm_kind 0
    on_fsm curr (Fsm.free_bit bit)
    curr_id ← on_fsm curr id_of_page
    left ← on_fsm curr get_space_left
    (if curr_id == 0 then pure tt else if left == 1 then push_front first curr curr_id else pure tt)

  unfoldable pub link_fsmpage : ℕ → M (PageCache os) (Unit {0})
  link_fsmpage new_fsmpage_id = do
    first ← retrieve_page os mem fsm_kind 0
    page ← retrieve_page os mem fsm_kind new_fsmpage_id
    push_front first page new_fsmpage_id
