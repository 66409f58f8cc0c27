-- ===== src/FreeSpaceMap/Steps.antt =====
-- The calls on `FSMPage`s of src/backend/FreeSpaceMap.cpp as steps of what the cache shows.
use kndb.Base.{ℕ, ◌≡◌, refl, ap, false, M, ok, ◌==◌}
use kndb.Posix.{Posix}
use kndb.Vari.Codec.{Memory}
use kndb.Fsm.{FsmPage}
use kndb.Page.{Page, fsm, fsm_kind}
use kndb.Cache.{retrieve_page}
use kndb.FreeSpaceMap.{on_fsm, fsm_call}
pub use kndb.Cache.Steps.{View, Steps, Stops, >>=-Steps, >>=-Stops, pure-Steps}
use kndb.Cache.Steps.{
  PageAt, PageAt-unique, renewed_page, renewed_page_at, other_page_at, before_page_at,
  on_page-Steps, on_page-Steps_same,
}
use kndb.Cache.Steps as CacheSteps

-- The FSM page that the cache shows for an id.
abbrev pub FsmAt : View → ℕ → FsmPage → Type 0
FsmAt v id p = PageAt v id (fsm p)

fsm_of : Page → FsmPage → FsmPage
fsm_of (fsm p) q = p
fsm_of _ q = q

pub FsmAt-unique : (v : View) (id : ℕ) (p q : FsmPage) → FsmAt v id p → FsmAt v id q → p ≡ q
unfolding fsm_of
FsmAt-unique v id p q h k = ap (λ (r : Page). fsm_of r q) (PageAt-unique v id (fsm p) (fsm q) h k)

abbrev pub renewed : (v : View) (id : ℕ) (p q : FsmPage) → FsmAt v id p → View
renewed v id p q h = renewed_page v id (fsm p) (fsm q) h

module _ {v : View} (id : ℕ) (p : FsmPage) (h : FsmAt v id p) where
  abbrev pub renewed_at : (q : FsmPage) → FsmAt (renewed v id p q h) id q
  renewed_at q = renewed_page_at id (fsm p) h (fsm q)

  abbrev pub other_at :
      (q : FsmPage) (j : ℕ) (r : FsmPage)
      → (id == j) ≡ false
      → FsmAt v j r
      → FsmAt (renewed v id p q h) j r
  other_at q j r apart k = other_page_at id (fsm p) h (fsm q) j (fsm r) apart k

  -- What is shown at another id was so before.
  abbrev pub before_at :
      (q : FsmPage) (j : ℕ) (r : FsmPage)
      → (id == j) ≡ false
      → FsmAt (renewed v id p q h) j r
      → FsmAt v j r
  before_at q j r apart k = before_page_at id (fsm p) h (fsm q) j (fsm r) apart k

module _ {os : Posix} (mem : Memory) {v : View} (id : ℕ) (p : FsmPage) (h : FsmAt v id p) where
  pub retrieve_page-Steps : Steps (retrieve_page os mem fsm_kind id) v v h.object
  retrieve_page-Steps = CacheSteps.retrieve_page-Steps mem id (fsm p) h fsm_kind refl

  pub on_fsm-Steps {ℓ} :
      {A : Type ℓ} (q : FsmPage) (m : M FsmPage A) (a : A)
      → m p ≡ ok a q
      → q.page_id ≡ id
      → Steps (on_fsm os mem h.object m) v (renewed v id p q h) a
  unfolding on_fsm
  on_fsm-Steps q m a run same = on_page-Steps id (fsm p) h (fsm q) (fsm_call m) a (rw run) same

  -- A call that does not change the page.
  pub on_fsm-Steps_same {ℓ} :
      {A : Type ℓ} (m : M FsmPage A) (a : A)
      → m p ≡ ok a p
      → p.page_id ≡ id
      → Steps (on_fsm os mem h.object m) v v a
  unfolding on_fsm
  on_fsm-Steps_same m a run own = on_page-Steps_same id (fsm p) h (fsm_call m) a (rw run) own
