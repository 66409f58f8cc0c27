-- ===== src/FreeSpaceMap/Alloc/First.antt =====
-- `isFull`, and `allocBit` on page 0, of src/backend/FreeSpaceMap.cpp.
use kndb.Base.{
  ℕ, ◌+◌, ◌<◌, ◌≡◌, refl, sym, subst, ◌∙◌, true, false, List, ok, ◌==◌, ◌&&◌, arith, inl, inr,
}
use kndb.Constants.{pgid_invalid}
use kndb.Posix.{Posix}
use kndb.Vari.Codec.{Memory}
use kndb.Fsm.{FsmPage, get_blocks_in_page, get_space_left, find_next_free, set_next_page_id}
use kndb.Fsm
use kndb.Fsm.Bitmap.{free_at}
use kndb.Fsm.Invariant
use kndb.Fsm.Scan.{find_next_free_lem}
use kndb.FreeSpaceMap.{next_of, is_full, alloc_first}
use kndb.FreeSpaceMap.Steps.{
  View, Steps, renewed_at, before_at, renewed, >>=-Steps, pure-Steps, retrieve_page-Steps,
  on_fsm-Steps, on_fsm-Steps_same,
}
use kndb.FreeSpaceMap.Invariant.{Chain, IsValid, Chain-other, Chain-positive, pages-renewed}

-- What `findNextFree` and `allocBit` make of a page.
pub record Taken (p : FsmPage) : Type 0 where
  pub bit : ℕ
  pub page : FsmPage
  pub found : find_next_free p ≡ ok bit p
  pub small : bit < get_blocks_in_page
  pub free : free_at p.bitmap bit ≡ true
  pub run : Fsm.alloc_bit bit p ≡ ok tt page
  pub turned : Invariant.Turned p page bit false
  pub count : page.free_blocks + 1 ≡ p.free_blocks

pub take_free : (p : FsmPage) → Invariant.IsValid p → 0 < p.free_blocks → Taken p
take_free p v some_free = elim (find_next_free_lem p v) [
  | inr (none_left, stopped) ↦ absurd (omega arith)
  | inl (left, j, found, lt, free, first) ↦
      elim (Invariant.alloc_bit_lem p j v (omega (arith, v.long))) [
        | inl (f, q, run, turned, count) ↦ record {
          bit = j;
          page = q;
          found = found;
          small = lt;
          free = free;
          run = run;
          turned = turned;
          count = count;
        }
        | inr (used, stopped) ↦ absurd (true-false (sym free ∙ used))
      ]
]
  where
    true-false : true ≡ false → ⊥
    true-false e = cc

module _ (os : Posix) (mem : Memory) (v : View) (ids : List ℕ) (h : IsValid v ids) where
  pub first_own : h.first.page_id ≡ 0
  first_own = (h.pages 0 h.first h.at_first).own

  pub is_full-Steps :
      Steps (is_full os mem) v v (h.first.free_blocks == 0 && h.first.next_page_id == pgid_invalid)
  unfolding is_full get_space_left
  is_full-Steps = >>=-Steps _ (retrieve_page-Steps mem 0 h.first h.at_first) (
      >>=-Steps _
        (on_fsm-Steps_same mem 0 h.first h.at_first get_space_left h.first.free_blocks refl
          first_own)
        (>>=-Steps _
          (on_fsm-Steps_same mem 0 h.first h.at_first (next_of os mem) h.first.next_page_id refl
            first_own)
          (pure-Steps v _)))

  module _ (t : Taken h.first) where
    abbrev pub first_renewed : View
    first_renewed = renewed v 0 h.first t.page h.at_first

    pub alloc_first-Steps : Steps (alloc_first os mem h.at_first.object) v first_renewed t.bit
    unfolding alloc_first
    alloc_first-Steps =
        >>=-Steps _
          (on_fsm-Steps_same mem 0 h.first h.at_first find_next_free t.bit t.found first_own)
          (>>=-Steps _
            (on_fsm-Steps mem 0 h.first h.at_first t.page (Fsm.alloc_bit t.bit) tt t.run
              (t.turned.same_id ∙ first_own))
            (pure-Steps _ t.bit))

    pub alloc_first-IsValid : IsValid first_renewed ids
    alloc_first-IsValid = record {
      first = t.page;
      at_first = renewed_at 0 h.first h.at_first t.page;
      chain =
          subst (λ n. Chain first_renewed n ids) (sym t.turned.same_next)
            (Chain-other v 0 h.first t.page h.at_first h.first.next_page_id ids
              (Chain-positive v _ ids h.chain) h.chain);
      pages = pages-renewed v 0 h.first t.page h.at_first h.pages (record {
        valid = t.turned.valid;
        own = t.turned.same_id ∙ first_own;
        placed = refl;
        bounded = omega arith;
      });
      listed = λ id p k behind off.
          h.listed id p (before_at 0 h.first h.at_first t.page id p (ground arith) k) behind off;
    }
