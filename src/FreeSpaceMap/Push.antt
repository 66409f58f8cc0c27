-- ===== src/FreeSpaceMap/Push.antt =====
-- `linkFSMPage` of src/backend/FreeSpaceMap.cpp, and the end of `freeBit`: a page is put in front of the list.
use kndb.Base.{ℕ, ◌<◌, ◌≡◌, ◌≢◌, refl, ◌∙◌, false, List, ◌∷◌, ◌==◌, All, arith}
use kndb.Posix.{Posix}
use kndb.Vari.Codec.{Memory}
use kndb.Fsm.{FsmPage, set_next_page_id}
use kndb.FreeSpaceMap.{push_front, link_fsmpage, next_of}
use kndb.FreeSpaceMap.Steps.{
  View, Steps, FsmAt, renewed_at, other_at, before_at, renewed, >>=-Steps, retrieve_page-Steps,
  on_fsm-Steps, on_fsm-Steps_same,
}
use kndb.FreeSpaceMap.Invariant.{
  Chain, Sound, IsValid, free_id, Chain-other, Chain-positive, pages-renewed, relinked,
  relinked-Sound, free_id-relinked,
}
use kndb.FreeSpaceMap.Others.{KeepsOthers, KeepsOthers-trans, renewed-KeepsOthers}

-- A map of which one page, that is not in the list, may have free blocks.
pub record Unlisted (u : View) (ids : List ℕ) (id : ℕ) (q : FsmPage) : Type 0 where
  pub first : FsmPage
  pub at_first : FsmAt u 0 first
  pub chain : Chain u first.next_page_id ids
  pub page : FsmAt u id q
  pub behind : (id == 0) ≡ false
  pub apart : All (λ j. j ≢ id) ids
  pub pages : (j : ℕ) (r : FsmPage) → FsmAt u j r → Sound j r
  pub listed :
      (j : ℕ) (r : FsmPage)
      → FsmAt u j r
      → j ≢ 0
      → id ≢ j
      → All (λ i. i ≢ j) ids
      → r.free_blocks ≡ 0

module _ (u : View) (ids : List ℕ) (id : ℕ) (q : FsmPage) (h : Unlisted u ids id q) where
  abbrev pub fronted : View
  fronted = renewed u 0 h.first (relinked h.first id) h.at_first

  pub ahead : (0 == id) ≡ false
  ahead = ground (arith, h.behind)

  abbrev pub page_at : FsmAt fronted id q
  page_at = other_at 0 h.first h.at_first (relinked h.first id) id q ahead h.page

  abbrev pub pushed : View
  pushed = renewed fronted id q (relinked q h.first.next_page_id) page_at

  pub pushed_IsValid : 0 < q.free_blocks → IsValid pushed (id ∷ ids)
  pushed_IsValid left =
      let sound = h.pages id q h.page in
      let last : FsmPage = relinked q h.first.next_page_id in
      record {
        first = relinked h.first id;
        at_first =
            other_at id q page_at last 0 (relinked h.first id) h.behind
              (renewed_at 0 h.first h.at_first (relinked h.first id));
        chain = (
          refl,
          ground (arith, h.behind),
          sound.bounded,
          h.apart,
          last,
          renewed_at id q page_at last,
          left,
          Chain-other fronted id q last page_at h.first.next_page_id ids h.apart (
              Chain-other u 0 h.first (relinked h.first id) h.at_first h.first.next_page_id ids
                (Chain-positive u h.first.next_page_id ids h.chain) h.chain),
        );
        pages =
            pages-renewed fronted id q last page_at
              (pages-renewed u 0 h.first (relinked h.first id) h.at_first h.pages
                (relinked-Sound 0 h.first id (h.pages 0 h.first h.at_first)))
              (relinked-Sound id q h.first.next_page_id sound);
        listed = λ j r m out off.
            h.listed j r
              (before_at 0 h.first h.at_first (relinked h.first id) j r (ground arith)
                (before_at id q page_at last j r (ground (arith, off.0)) m))
              out off.0 off.1;
      }

  pub pushed_free : (m : ℕ) → free_id pushed m ≡ free_id u m
  pushed_free m =
      free_id-relinked fronted id q h.first.next_page_id page_at m
      ∙ free_id-relinked u 0 h.first id h.at_first m

  pub pushed-KeepsOthers : KeepsOthers u pushed
  pushed-KeepsOthers =
      KeepsOthers-trans u fronted pushed
        (renewed-KeepsOthers u 0 h.first (relinked h.first id) h.at_first)
        (renewed-KeepsOthers fronted id q (relinked q h.first.next_page_id) page_at)

  pub push_front-Steps :
      (os : Posix) (mem : Memory)
      → Steps (push_front os mem h.at_first.object h.page.object id) u pushed tt
  unfolding push_front set_next_page_id
  push_front-Steps os mem =
      >>=-Steps _
        (on_fsm-Steps_same mem 0 h.first h.at_first (next_of os mem) h.first.next_page_id refl
          (h.pages 0 h.first h.at_first).own)
        (>>=-Steps _
          (on_fsm-Steps mem 0 h.first h.at_first (relinked h.first id) (set_next_page_id id) tt refl
            (h.pages 0 h.first h.at_first).own)
          (on_fsm-Steps mem id q page_at (relinked q h.first.next_page_id)
            (set_next_page_id h.first.next_page_id) tt refl (h.pages id q h.page).own))

  -- `linkFSMPage` puts the page into the list.
  pub link_fsmpage-Steps : (os : Posix) (mem : Memory) → Steps (link_fsmpage os mem id) u pushed tt
  unfolding link_fsmpage
  link_fsmpage-Steps os mem =
      >>=-Steps _ (retrieve_page-Steps mem 0 h.first h.at_first)
        (>>=-Steps _ (retrieve_page-Steps mem id q h.page) (push_front-Steps os mem))
