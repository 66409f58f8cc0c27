-- ===== src/FreeSpaceMap/Alloc.antt =====
-- `allocBit` of src/backend/FreeSpaceMap.cpp, on all its branches.
pub mod First
pub mod Full
pub mod Next
use kndb.Base.{
  aborts, lt→ltb, ltb→lt, Option-cases, assume, ℕ, ◌+◌, ◌%◌, ◌^◌, ◌<◌, ◌≤◌, ◌≡◌, ◌≢◌, refl, sym, ap,
  subst, ◌∙◌, Bool, true, false, not, List, [], ◌∷◌, Option, none, some, M, Outcome, ok, pure,
  ◌>>=◌, ◌>>◌, ltb, ◌==◌, ◌&&◌, if◌then◌else◌, All, arith, inl, inr, ◌⊎◌, Bool-cases, ==_iff,
}
use kndb.Constants.{pgid_invalid}
use kndb.Posix.{Posix}
use kndb.Vari.Codec.{Memory}
use kndb.Fsm.{FsmPage, get_blocks_in_page, get_space_left, find_next_free, set_next_page_id}
use kndb.Fsm
use kndb.Fsm.Bitmap.{free_at}
use kndb.Fsm.Invariant
use kndb.Fsm.Scan.{find_next_free_lem}
use kndb.Page.{Page, schema, fsm, table, node, fsm_kind}
use kndb.Cache.{Owned, PageCache, retrieve_page}
use kndb.FreeSpaceMap.{on_fsm, next_of, is_full, alloc_first, alloc_next, alloc_bit}
use kndb.Cache.Views.{Shows, Keeps}
use kndb.FreeSpaceMap.Steps.{
  View, Steps, Stops, FsmAt, FsmAt-unique, renewed_at, other_at, before_at, renewed, >>=-Steps,
  >>=-Stops, pure-Steps, retrieve_page-Steps, on_fsm-Steps, on_fsm-Steps_same,
}
use kndb.FreeSpaceMap.Others.{KeepsOthers, KeepsOthers-trans, renewed-KeepsOthers}
use kndb.FreeSpaceMap.Invariant.{
  Chain, Sound, IsValid, full_map, page_free, free_in, free_id, Chain-other, Chain-positive,
  pages-renewed, free_id-renewed, free_id-here, relinked, relinked-Sound, free_id-relinked,
  relinked,
}
use kndb.FreeSpaceMap.Alloc.Full.{all_full}
use kndb.FreeSpaceMap.Alloc.First.{
  Taken, take_free, first_own, is_full-Steps, first_renewed, alloc_first-Steps, alloc_first-IsValid,
}
use kndb.FreeSpaceMap.Alloc.Next.{
  next_renewed, first_at, unlinked, next-IsValid, unlinked-IsValid, alloc_next-Steps, unlink-Steps,
}

module _ (os : Posix) (mem : Memory) where
  pub assume-Steps : (v : View) (b : Bool) → b ≡ true → Steps {os = os} (assume b) v v tt
  assume-Steps v b e = record {
    run = λ c s. (c, rw e, s, record { io = refl; capacity = refl; next_object = refl });
  }

  -- What `allocBit` does after its test.
  alloc_bit-Steps :
      (v w : View) (ids : List ℕ) (h : IsValid v ids) (n : ℕ)
      → (h.first.free_blocks == 0 && h.first.next_page_id == pgid_invalid) ≡ false
      → Steps
          (if not (h.first.free_blocks == 0)
            then alloc_first os mem h.at_first.object
            else alloc_next os mem h.at_first.object)
          v
          w
          n
      → Steps (alloc_bit os mem) v w n
  unfolding alloc_bit get_space_left
  alloc_bit-Steps v w ids h n some_left last = >>=-Steps _ (is_full-Steps os mem v ids h) (
      >>=-Steps _ (assume-Steps v _ (ap not some_left)) (
        >>=-Steps _ (retrieve_page-Steps mem 0 h.first h.at_first) (
          >>=-Steps _
            (on_fsm-Steps_same mem 0 h.first h.at_first get_space_left h.first.free_blocks refl
              (first_own os mem v ids h))
            last)))

  -- An id that was free is given, and is the only one no longer free.
  pub record Gives (v : View) : Type 0 where
    pub id : ℕ
    pub after : View
    pub ids : List ℕ
    pub steps : Steps {os = os} (alloc_bit os mem) v after id
    pub valid : IsValid after ids
    pub was_free : free_id v id ≡ true
    pub free : (m : ℕ) → free_id after m ≡ (if id == m then false else free_id v m)
    pub kept : KeepsOthers v after

  bit_was_free :
      (v : View) (id : ℕ) (p : FsmPage) (k : FsmAt v id p) (t : Taken p)
      → id % get_blocks_in_page ≡ 0
      → free_id v (id + t.bit) ≡ true
  bit_was_free v id p k t placed =
      free_id-here v id t.bit t.small placed
      ∙ rw (k.shown, lt→ltb t.bit get_blocks_in_page t.small, t.free)

  alloc_bit-first :
      (v : View) (ids : List ℕ) (h : IsValid v ids)
      → (h.first.free_blocks == 0) ≡ false
      → Taken h.first
      → Gives v
  alloc_bit-first v ids h left t =
      let same : 0 + t.bit ≡ t.bit = omega arith in
      record {
        id = t.bit;
        after = first_renewed os mem v ids h t;
        ids = ids;
        steps =
            alloc_bit-Steps v _ ids h t.bit (rw left)
              (rw left (alloc_first-Steps os mem v ids h t));
        valid = alloc_first-IsValid os mem v ids h t;
        was_free =
            subst (λ n. free_id v n ≡ true) same (bit_was_free v 0 h.first h.at_first t refl);
        kept = renewed-KeepsOthers v 0 h.first t.page h.at_first;
        free = λ m.
            subst
              (λ n.
                free_id (first_renewed os mem v ids h t) m
                ≡ (if n == m then false else free_id v m))
              same
              (free_id-renewed v 0 t.bit h.first t.page h.at_first false t.turned t.small refl m);
      }

  module _ (v : View) (id : ℕ) (ids : List ℕ) (h : IsValid v (id ∷ ids))
      (full : (h.first.free_blocks == 0) ≡ true) (p : FsmPage) (k : FsmAt v id p)
      (rest : Chain v p.next_page_id ids) (t : Taken p) where
    linked : (h.first.next_page_id == pgid_invalid) ≡ false
    linked = ground (arith, h.chain.0, h.chain.2)

    renewed_id :
        (m : ℕ)
        → free_id (next_renewed os mem v id ids h p k rest t) m
          ≡ (if id + t.bit == m then false else free_id v m)
    renewed_id =
        free_id-renewed v id t.bit p t.page k false t.turned t.small (h.pages id p k).placed

    alloc_bit-next : Gives v
    alloc_bit-next = elim (Bool-cases (t.page.free_blocks == 0)) [
      | inr left ↦ record {
        id = id + t.bit;
        after = next_renewed os mem v id ids h p k rest t;
        ids = id ∷ ids;
        steps =
            alloc_bit-Steps v _ (id ∷ ids) h (id + t.bit) (rw (full, linked)) (
              rw full
                (alloc_next-Steps os mem v id ids h p k rest t _ (rw left (pure-Steps _ tt))));
        valid = next-IsValid os mem v id ids h p k rest t (ground arith);
        was_free = bit_was_free v id p k t (h.pages id p k).placed;
        free = renewed_id;
        kept = renewed-KeepsOthers v id p t.page k;
      }
      | inl none_left ↦ record {
        id = id + t.bit;
        after = unlinked os mem v id ids h p k rest t;
        ids = ids;
        steps = alloc_bit-Steps v _ (id ∷ ids) h (id + t.bit) (rw (full, linked)) (
            rw full (
              alloc_next-Steps os mem v id ids h p k rest t _
                (rw none_left (unlink-Steps os mem v id ids h p k rest t))));
        valid = unlinked-IsValid os mem v id ids h p k rest t ((==_iff _ _).0 none_left);
        was_free = bit_was_free v id p k t (h.pages id p k).placed;
        kept =
            KeepsOthers-trans v (next_renewed os mem v id ids h p k rest t) _
              (renewed-KeepsOthers v id p t.page k)
              (renewed-KeepsOthers (next_renewed os mem v id ids h p k rest t) 0 h.first
                (relinked h.first t.page.next_page_id) (first_at os mem v id ids h p k rest t));
        free = λ m.
            free_id-relinked (next_renewed os mem v id ids h p k rest t) 0 h.first
              t.page.next_page_id (first_at os mem v id ids h p k rest t) m
            ∙ renewed_id m;
      }
    ]

  alloc_bit-listed :
      (v : View) (ids : List ℕ) (h : IsValid v ids)
      → (h.first.free_blocks == 0) ≡ true
      → (h.first.next_page_id == pgid_invalid) ≡ false
      → Gives v
  alloc_bit-listed v [] h full next = absurd (impossible (sym ((==_iff _ _).1 h.chain) ∙ next))
    where
      impossible : true ≡ false → ⊥
      impossible e = cc
  alloc_bit-listed v (id ∷ ids) h full n =
      let (next, positive, bound, apart, p, k, some_free, rest) = h.chain in
      alloc_bit-next v id ids h full p k rest (take_free p (h.pages id p k).valid some_free)

  pub alloc_bit-Gives :
      (v : View) (ids : List ℕ) (h : IsValid v ids) → full_map v ids h ≡ false → Gives v
  alloc_bit-Gives v ids h some_left = elim (Bool-cases (h.first.free_blocks == 0)) [
    | inr left ↦
        alloc_bit-first v ids h left
          (take_free h.first (h.pages 0 h.first h.at_first).valid (ground arith))
    | inl full ↦ alloc_bit-listed v ids h full (rw full at some_left)
  ]

  alloc_bit-Stops :
      (v : View) (ids : List ℕ) (h : IsValid v ids)
      → full_map v ids h ≡ true
      → Stops {os = os} (alloc_bit os mem) v
  unfolding alloc_bit
  alloc_bit-Stops v ids h full =
      >>=-Stops _ (is_full-Steps os mem v ids h) (record { run = λ c s. rw full })

  pub none_free :
      (v : View) (ids : List ℕ) (h : IsValid v ids)
      → full_map v ids h ≡ true
      → (m : ℕ) → free_id v m ≡ false
  none_free v [] h full m = all_full v h (ground arith) _ _
  none_free v (id ∷ ids) h full m = absurd (ground (arith, h.chain.0, h.chain.2))

  -- The ends of `allocBit`: the id of a page that was free, with that id and no other no longer free, or a
  -- stop, with no free id there.
  abbrev pub AllocEnds : PageCache os → View → Type 0
  AllocEnds c v =
      ((n : ℕ) × (c' : PageCache os) × (w : View) × (ids : List ℕ) × (alloc_bit os mem c ≡ ok n c')
        × Shows c' w
        × Keeps c c'
        × IsValid w ids
        × (free_id v n ≡ true)
        × ((m : ℕ) → free_id w m ≡ (if n == m then false else free_id v m))
        × KeepsOthers v w)
      ⊎ ((alloc_bit os mem c ≡ aborts) × ((m : ℕ) → free_id v m ≡ false))

  -- In a cache with a valid free space map `allocBit` returns the id of a page that was free, makes that
  -- id, and no other, not free, keeps the map valid, changes FSM pages only and keeps the file, the
  -- cache's capacity and its count of objects; if no page is free it stops the process.
  pub alloc_bit_ends :
      (c : PageCache os) (v : View) (ids : List ℕ) → Shows c v → IsValid v ids → AllocEnds c v
  alloc_bit_ends c v ids s h = elim (Bool-cases (full_map v ids h)) [
    | inr some_left ↦
        let g = alloc_bit-Gives v ids h some_left in
        let (c', run, s', kept) = g.steps.run c s in
        inl (g.id, c', g.after, g.ids, run, s', kept, g.valid, g.was_free, g.free, g.kept)
    | inl full ↦ inr ((alloc_bit-Stops v ids h full).run c s, none_free v ids h full)
  ]
