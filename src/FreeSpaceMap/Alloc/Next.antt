-- ===== src/FreeSpaceMap/Alloc/Next.antt =====
-- `allocBit` of src/backend/FreeSpaceMap.cpp where page 0 is full.
use kndb.Base.{
  ℕ, ◌+◌, ◌%◌, ◌^◌, ◌<◌, ◌≡◌, refl, sym, ap, subst, ◌∙◌, false, List, ◌∷◌, ok, pure, ◌>>=◌, ◌==◌,
  if◌then◌else◌, arith, inl, inr, Bool-cases, ==_iff,
}
use kndb.Posix.{Posix}
use kndb.Vari.Codec.{Memory}
use kndb.Fsm.{FsmPage, get_blocks_in_page, get_space_left, find_next_free, set_next_page_id}
use kndb.Fsm
use kndb.FreeSpaceMap.{on_fsm, next_of, alloc_next}
use kndb.FreeSpaceMap.Steps.{
  View, Steps, FsmAt, FsmAt-unique, renewed_at, other_at, before_at, renewed, >>=-Steps, pure-Steps,
  retrieve_page-Steps, on_fsm-Steps, on_fsm-Steps_same,
}
use kndb.FreeSpaceMap.Invariant.{
  Chain, Sound, IsValid, Chain-other, Chain-positive, pages-renewed, relinked, relinked-Sound,
}
use kndb.FreeSpaceMap.Alloc.First.{Taken, first_own}

-- `allocBit` on a page of the list.
module _ (os : Posix) (mem : Memory) (v : View) (id : ℕ) (ids : List ℕ) (h : IsValid v (id ∷ ids))
    (p : FsmPage) (k : FsmAt v id p) (rest : Chain v p.next_page_id ids) (t : Taken p) where
  own : p.page_id ≡ id
  own = (h.pages id p k).own

  pub behind : (id == 0) ≡ false
  behind = ground (arith, h.chain)

  abbrev pub next_renewed : View
  next_renewed = renewed v id p t.page k

  abbrev at_next : FsmAt next_renewed id t.page
  at_next = renewed_at id p k t.page

  abbrev pub first_at : FsmAt next_renewed 0 h.first
  first_at = other_at id p k t.page 0 h.first behind h.at_first

  abbrev pub unlinked : View
  unlinked = renewed next_renewed 0 h.first (relinked h.first t.page.next_page_id) first_at

  same_id : t.page.page_id ≡ id
  same_id = t.turned.same_id ∙ own

  next_Sound : Sound id t.page
  next_Sound = record {
    valid = t.turned.valid;
    own = same_id;
    placed = (h.pages id p k).placed;
    bounded = (h.pages id p k).bounded;
  }

  next_pages : (j : ℕ) (r : FsmPage) → FsmAt next_renewed j r → Sound j r
  next_pages = pages-renewed v id p t.page k h.pages next_Sound

  next-Chain : Chain next_renewed t.page.next_page_id ids
  next-Chain =
      subst (λ n. Chain next_renewed n ids) (sym t.turned.same_next)
        (Chain-other v id p t.page k p.next_page_id ids h.chain.3 rest)

  pub next-IsValid : 0 < t.page.free_blocks → IsValid next_renewed (id ∷ ids)
  next-IsValid left = record {
    first = h.first;
    at_first = first_at;
    chain = (
      h.chain.0,
      h.chain.1,
      h.chain.2,
      h.chain.3,
      t.page,
      renewed_at id p k t.page,
      left,
      next-Chain,
    );
    pages = next_pages;
    listed = λ j r m out off.
        h.listed j r (before_at id p k t.page j r (ground (arith, off.0)) m) out off;
  }

  pub unlinked-IsValid : t.page.free_blocks ≡ 0 → IsValid unlinked ids
  unlinked-IsValid full = record {
    first = relinked h.first t.page.next_page_id;
    at_first = renewed_at 0 h.first first_at (relinked h.first t.page.next_page_id);
    chain =
        Chain-other next_renewed 0 h.first (relinked h.first t.page.next_page_id) first_at
          t.page.next_page_id ids (Chain-positive next_renewed t.page.next_page_id ids next-Chain)
          next-Chain;
    pages =
        pages-renewed next_renewed 0 h.first (relinked h.first t.page.next_page_id) first_at
          next_pages (relinked-Sound 0 h.first t.page.next_page_id (h.pages 0 h.first h.at_first));
    listed = λ j r m out off.
        let before =
          before_at 0 h.first first_at (relinked h.first t.page.next_page_id) j r (ground arith)
            m in
        elim (Bool-cases (id == j)) [
          | inl y ↦
              let here : FsmAt next_renewed id r =
                subst (λ i. FsmAt next_renewed i r) (sym ((==_iff id j).0 y)) before in
              ap (λ (a : FsmPage). a.free_blocks)
                (FsmAt-unique next_renewed id r t.page here (renewed_at id p k t.page))
              ∙ full
          | inr n ↦ h.listed j r (before_at id p k t.page j r n before) out (ground arith, off)
        ];
  }

  bounded : (id + t.bit) % 2 ^ 32 ≡ id + t.bit
  bounded = omega (arith, h.chain.2, t.small)

  pub alloc_next-Steps :
      (w : View)
      → Steps {os = os}
          (if t.page.free_blocks == 0
            then (do
              after ← on_fsm os mem k.object (next_of os mem)
              on_fsm os mem h.at_first.object (set_next_page_id after))
            else pure tt)
          next_renewed
          w
          tt
      → Steps (alloc_next os mem h.at_first.object) v w (id + t.bit)
  unfolding alloc_next get_space_left
  alloc_next-Steps w last =
      >>=-Steps _
        (on_fsm-Steps_same mem 0 h.first h.at_first (next_of os mem) id
          (ap (λ n. ok n h.first) h.chain.0) (first_own os mem v (id ∷ ids) h))
        (>>=-Steps _ (retrieve_page-Steps mem id p k) (
          >>=-Steps _ (on_fsm-Steps_same mem id p k find_next_free t.bit t.found own) (
            >>=-Steps _ (on_fsm-Steps mem id p k t.page (Fsm.alloc_bit t.bit) tt t.run same_id) (
              >>=-Steps _
                (on_fsm-Steps_same mem id t.page at_next get_space_left t.page.free_blocks refl
                  same_id)
                (>>=-Steps _ last (
                  subst (λ n. Steps {os = os} (pure ((id + t.bit) % 2 ^ 32)) w w n) bounded
                    (pure-Steps w _)))))))

  pub unlink-Steps :
      Steps {os = os}
        (do
          after ← on_fsm os mem k.object (next_of os mem)
          on_fsm os mem h.at_first.object (set_next_page_id after))
        next_renewed
        unlinked
        tt
  unfolding set_next_page_id
  unlink-Steps =
      >>=-Steps _
        (on_fsm-Steps_same mem id t.page at_next (next_of os mem) t.page.next_page_id refl same_id)
        (on_fsm-Steps mem 0 h.first first_at (relinked h.first t.page.next_page_id)
          (set_next_page_id t.page.next_page_id) tt refl (first_own os mem v (id ∷ ids) h))
