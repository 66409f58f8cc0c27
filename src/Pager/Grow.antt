-- ===== src/Pager/Grow.antt =====
-- The growth of a database by an FSM page and its blocks, at the start of `createNewPage` of
-- src/backend/Pager.tpp.
use kndb.Base.{
  ℕ, ◌*◌, ◌/◌, ◌%◌, ◌<◌, ◌≡◌, ◌≢◌, refl, sym, subst, ◌∙◌, true, false, not, List, [], ◌∷◌, none,
  some, arith, inl, inr, Bool-cases, Option-cases, ==_iff, lt→ltb, ◌==◌, if◌then◌else◌, All,
}
use kndb.Constants.{max_fsmpages}
use kndb.Fsm.{FsmPage, get_blocks_in_page}
use kndb.Fsm.Scan.{IsFresh}
use kndb.Page.{fsm}
use kndb.Cache.{Owned}
use kndb.Cache.Views.{put}
use kndb.FreeSpaceMap.Steps.{View, FsmAt, FsmAt-unique}
use kndb.FreeSpaceMap.Invariant.{Chain, Sound, IsValid, free_id}
use kndb.FreeSpaceMap.Same.{Chain-mono}
use kndb.FreeSpaceMap.Push.{Unlisted}

-- A new FSM page, for the blocks from `n` on, behind all that is shown.
module _ (v : View) (n : ℕ) (within : (id : ℕ) (o : Owned) → v id ≡ some o → id < n)
    (placed : n % get_blocks_in_page ≡ 0) (bounded : n < max_fsmpages * get_blocks_in_page)
    (object : ℕ) (q : FsmPage) (fresh : IsFresh q n) where
  abbrev pub grown_view : View
  grown_view = put v n (record { object = object; page = fsm q })

  pub unknown : v n ≡ none
  unknown = elim (Option-cases (v n)) [
    | inl absent ↦ absent
    | inr (o, there) ↦ absurd (omega (arith, within n o there))
  ]

  pub new_at : FsmAt grown_view n q
  new_at =
      let here : (n == n) ≡ true = (==_iff n n).1 refl in
      record { object = object; shown = rw here }

  pub kept_at : (j : ℕ) (p : FsmPage) → FsmAt v j p → FsmAt grown_view j p
  kept_at j p k =
      let apart : (n == j) ≡ false = ground (arith, within j _ k.shown) in
      record { object = k.object; shown = rw (apart, k.shown) }

  old_at : (j : ℕ) (p : FsmPage) → n ≢ j → FsmAt grown_view j p → FsmAt v j p
  old_at j p off k =
      let apart : (n == j) ≡ false = ground arith in
      let here : grown_view j ≡ v j = rw apart in
      record { object = k.object; shown = sym here ∙ k.shown }

  pub new_Sound : Sound n q
  new_Sound = record {
    valid = fresh.valid;
    own = fresh.own_id;
    placed = placed;
    bounded = omega arith;
  }

  pub grown_pages :
      ((j : ℕ) (p : FsmPage) → FsmAt v j p → Sound j p)
      → (j : ℕ) (p : FsmPage) → FsmAt grown_view j p
      → Sound j p
  grown_pages pages j p k = elim (Bool-cases (n == j)) [
    | inl y ↦
        let same : n ≡ j = (==_iff n j).0 y in
        subst (λ i. Sound i p) same
          (subst (Sound n)
            (FsmAt-unique grown_view n q p new_at (subst (λ i. FsmAt grown_view i p) (sym same) k))
            new_Sound)
    | inr off ↦ pages j p (old_at j p (ground arith) k)
  ]

  Chain-within : (next : ℕ) (ids : List ℕ) → Chain v next ids → All (λ j. j ≢ n) ids
  Chain-within next [] c = tt
  Chain-within next (j ∷ ids) (c0, c1, c2, c3, p, k, some_free, rest) =
      ((λ s. absurd (omega (arith, within j _ k.shown))), Chain-within p.next_page_id ids rest)

  pub grown_Unlisted : (ids : List ℕ) → IsValid v ids → 0 < n → Unlisted grown_view ids n q
  grown_Unlisted ids h positive = record {
    first = h.first;
    at_first = kept_at 0 h.first h.at_first;
    chain = Chain-mono v grown_view kept_at h.first.next_page_id ids h.chain;
    page = new_at;
    behind = ground arith;
    apart = Chain-within h.first.next_page_id ids h.chain;
    pages = grown_pages h.pages;
    listed = λ j p k out apart off. h.listed j p (old_at j p apart k) out off;
  }

  -- What is free then: all blocks of the new page but its own.
  pub grown_free :
      (m : ℕ)
      → free_id grown_view m ≡ (
          if m / get_blocks_in_page * get_blocks_in_page == n
          then not (m % get_blocks_in_page == 0)
          else free_id v m)
  grown_free m =
      let id = m / get_blocks_in_page * get_blocks_in_page in
      let inside : m % get_blocks_in_page < get_blocks_in_page = omega arith in
      elim (Bool-cases (id == n)) [
        | inl y ↦
            let back : (n == id) ≡ true = ground (arith, y) in
            rw (y, back, lt→ltb _ _ inside, fresh.bits (m % get_blocks_in_page)) (ground arith)
        | inr off ↦ let back : (n == id) ≡ false = ground (arith, off) in rw (off, back)
      ]
