-- ===== src/FreeSpaceMap/Free.antt =====
-- `isFree` of src/backend/FreeSpaceMap.cpp.
use kndb.Base.{ℕ, ◌*◌, ◌/◌, ◌%◌, ◌<◌, ◌≡◌, sym, ap, ◌∙◌, List, ok, lt→ltb, arith}
use kndb.Posix.{Posix}
use kndb.Vari.Codec.{Memory}
use kndb.Fsm.{FsmPage, get_blocks_in_page}
use kndb.Fsm
use kndb.Fsm.Bitmap.{free_at}
use kndb.Fsm.Invariant.{is_free_lem}
use kndb.FreeSpaceMap.{is_free}
use kndb.Cache.{PageCache}
use kndb.Cache.Views.{Shows}
use kndb.FreeSpaceMap.Steps.{View, Steps, FsmAt, >>=-Steps, retrieve_page-Steps, on_fsm-Steps_same}
use kndb.FreeSpaceMap.Invariant.{Sound, IsValid, free_id}

pub is_free-Steps :
    (os : Posix) (mem : Memory) (v : View) (ids : List ℕ)
    → IsValid v ids
    → (n : ℕ) (p : FsmPage) → FsmAt v (n / get_blocks_in_page * get_blocks_in_page) p
    → Steps (is_free os mem n) v v (free_id v n)
unfolding is_free
is_free-Steps os mem v ids h n p k =
    let s = h.pages _ p k in
    >>=-Steps _ (retrieve_page-Steps mem (n / get_blocks_in_page * get_blocks_in_page) p k) (
      on_fsm-Steps_same mem _ p k (Fsm.is_free (n % get_blocks_in_page)) (free_id v n) (run s)
        s.own)
  where
    run :
        Sound (n / get_blocks_in_page * get_blocks_in_page) p
        → Fsm.is_free (n % get_blocks_in_page) p ≡ ok (free_id v n) p
    run s =
        let inside : n % get_blocks_in_page < get_blocks_in_page = omega arith in
        let here : free_id v n ≡ free_at p.bitmap (n % get_blocks_in_page) =
          rw (k.shown, lt→ltb _ _ inside) in
        is_free_lem p (n % get_blocks_in_page) (omega (arith, s.valid.long))
        ∙ ap (λ b. ok b p) (sym here)

-- In a cache with a valid free space map `isFree` returns whether the page of an id is free, if the map has
-- the id's FSM page; it leaves the map and the file as they are.
pub is_free_ends :
    (os : Posix) (mem : Memory) (c : PageCache os) (v : View) (ids : List ℕ)
    → Shows c v
    → IsValid v ids
    → (n : ℕ) (p : FsmPage) → FsmAt v (n / get_blocks_in_page * get_blocks_in_page) p
    → (c' : PageCache os) × (is_free os mem n c ≡ ok (free_id v n) c') × Shows c' v × (c'.io ≡ c.io)
is_free_ends os mem c v ids s h n p k =
    let (c', run, s', kept) = (is_free-Steps os mem v ids h n p k).run c s in (c', run, s', kept.io)
