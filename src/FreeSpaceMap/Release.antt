-- ===== src/FreeSpaceMap/Release.antt =====
-- `freeBit` of src/backend/FreeSpaceMap.cpp, on all its branches.
pub mod Pages
use kndb.Base.{
  aborts, lt→ltb, ltb→lt, Option-cases, assume, ℕ, ◌+◌, ◌*◌, ◌/◌, ◌%◌, ◌^◌, ◌<◌, ◌≤◌, ◌≡◌, ◌≢◌,
  refl, sym, ap, subst, ◌∙◌, Bool, true, false, not, List, [], ◌∷◌, Option, none, some, M, Outcome,
  ok, pure, ◌>>=◌, ◌>>◌, ltb, ◌==◌, ◌&&◌, if◌then◌else◌, All, arith, inl, inr, ◌⊎◌, Bool-cases,
  ==_iff,
}
use kndb.Constants.{pgid_invalid}
use kndb.Posix.{Posix}
use kndb.Vari.Codec.{Memory}
use kndb.Fsm.{FsmPage, get_blocks_in_page, get_space_left, find_next_free, set_next_page_id}
use kndb.Fsm
use kndb.Fsm.Invariant
use kndb.Fsm.Bitmap.{free_at}
use kndb.Cache.{PageCache}
use kndb.FreeSpaceMap.{push_front, next_of, id_of_page, free_bit}
use kndb.Cache.Views.{Shows, Keeps}
use kndb.FreeSpaceMap.Free.{is_free-Steps}
use kndb.FreeSpaceMap.Alloc.{assume-Steps}
use kndb.FreeSpaceMap.Steps.{
  View, Steps, Stops, FsmAt, FsmAt-unique, renewed_at, other_at, before_at, renewed, >>=-Steps,
  >>=-Stops, pure-Steps, retrieve_page-Steps, on_fsm-Steps, on_fsm-Steps_same,
}
use kndb.FreeSpaceMap.Invariant.{
  Chain, Sound, IsValid, free_in, free_id, Chain-other, Chain-positive, pages-renewed,
  free_id-renewed, free_id-here, relinked, relinked-Sound, free_id-relinked,
}
use kndb.FreeSpaceMap.Release.Pages.{released, first_IsValid, listed_IsValid, full_before}
use kndb.FreeSpaceMap.Push.{
  pushed, pushed_IsValid, pushed_free, pushed-KeepsOthers, push_front-Steps,
}
use kndb.FreeSpaceMap.Others.{KeepsOthers, KeepsOthers-trans, renewed-KeepsOthers}

-- The whole of `freeBit`, for an id whose FSM page the cache shows.
module _ (os : Posix) (mem : Memory) (v : View) (ids : List ℕ) (h : IsValid v ids) (n : ℕ)
    (p : FsmPage) (k : FsmAt v (n / get_blocks_in_page * get_blocks_in_page) p) where
  abbrev page_id : ℕ
  page_id = n / get_blocks_in_page * get_blocks_in_page

  abbrev bit : ℕ
  bit = n % get_blocks_in_page

  module _ (used : free_id v n ≡ false) (q : FsmPage) (run : Fsm.free_bit bit p ≡ ok tt q)
      (turned : Invariant.Turned p q bit true) (count : q.free_blocks ≡ p.free_blocks + 1) where
    free_bit-Steps :
        (w : View)
        → Steps {os = os}
            (if page_id == 0
              then pure tt
              else if q.free_blocks == 1
              then push_front os mem h.at_first.object k.object page_id
              else pure tt)
            (released v ids h page_id p q k bit turned count)
            w
            tt
        → Steps (free_bit os mem n) v w tt
    unfolding free_bit get_space_left
    free_bit-Steps w last =
        let own : q.page_id ≡ page_id = turned.same_id ∙ (h.pages page_id p k).own in
        let now = renewed_at page_id p k q in
        >>=-Steps _ (is_free-Steps os mem v ids h n p k) (
          >>=-Steps _ (assume-Steps os mem v _ (ap not used)) (
            >>=-Steps _ (retrieve_page-Steps mem page_id p k) (
              >>=-Steps _ (retrieve_page-Steps mem 0 h.first h.at_first) (
                >>=-Steps _ (on_fsm-Steps mem page_id p k q (Fsm.free_bit bit) tt run own) (
                  >>=-Steps _
                    (on_fsm-Steps_same mem page_id q now (id_of_page os mem) page_id
                      (ap (λ i. ok i q) own) own)
                    (>>=-Steps _
                      (on_fsm-Steps_same mem page_id q now get_space_left q.free_blocks refl own)
                      last))))))

    -- A view of the pages in which the freed id is the only one that has become free.
    record Freed (w : View) (after : List ℕ) : Type 0 where
      pub steps : Steps {os = os} (free_bit os mem n) v w tt
      pub valid : IsValid w after
      pub free : (m : ℕ) → free_id w m ≡ (if n == m then true else free_id v m)
      pub kept : KeepsOthers v w

    released_free :
        (m : ℕ)
        → free_id (released v ids h page_id p q k bit turned count) m
          ≡ (if n == m then true else free_id v m)
    released_free m =
        let same : page_id + bit ≡ n = omega arith in
        subst
          (λ i.
            free_id (released v ids h page_id p q k bit turned count) m
            ≡ (if i == m then true else free_id v m))
          same
          (free_id-renewed v page_id bit p q k true turned (omega arith)
            (h.pages page_id p k).placed m)

    freed : (w : View) × (after : List ℕ) × Freed w after
    freed = elim (Bool-cases (page_id == 0)) [
      | inl zero ↦ (
        released v ids h page_id p q k bit turned count,
        ids,
        record {
          steps = free_bit-Steps _ (rw zero (pure-Steps _ tt));
          valid = first_IsValid v ids h page_id p q k bit turned count ((==_iff _ _).0 zero);
          free = released_free;
          kept = renewed-KeepsOthers v page_id p q k;
        },
      )
      | inr behind ↦ elim (Bool-cases (q.free_blocks == 1)) [
        | inr more ↦ (
          released v ids h page_id p q k bit turned count,
          ids,
          record {
            steps = free_bit-Steps _ (rw (behind, more) (pure-Steps _ tt));
            valid = listed_IsValid v ids h page_id p q k bit turned count behind more;
            free = released_free;
            kept = renewed-KeepsOthers v page_id p q k;
          },
        )
        | inl one ↦
            let before = released v ids h page_id p q k bit turned count in
            let u =
              full_before v ids h page_id p q k bit turned count behind ((==_iff _ _).0 one) in
            (
              pushed before ids page_id q u,
              page_id ∷ ids,
              record {
                steps =
                    free_bit-Steps _
                      (rw (behind, one) (push_front-Steps before ids page_id q u os mem));
                valid = pushed_IsValid before ids page_id q u (omega arith);
                free = λ m. pushed_free before ids page_id q u m ∙ released_free m;
                kept =
                    KeepsOthers-trans v before _ (renewed-KeepsOthers v page_id p q k)
                      (pushed-KeepsOthers before ids page_id q u);
              },
            )
      ]
    ]

  -- The ends of `freeBit`: the id that was in use is free, and no other has become so, or a stop at an id
  -- that is free.
  abbrev pub FreeEnds : PageCache os → Type 0
  FreeEnds c =
      ((free_id v n ≡ false)
        × (c' : PageCache os) × (w : View) × (after : List ℕ) × (free_bit os mem n c ≡ ok tt c')
        × Shows c' w
        × Keeps c c'
        × IsValid w after
        × ((m : ℕ) → free_id w m ≡ (if n == m then true else free_id v m))
        × KeepsOthers v w)
      ⊎ ((free_id v n ≡ true) × (free_bit os mem n c ≡ aborts))

  -- In a cache with a valid free space map that has the id's FSM page `freeBit` makes an id in use, and no
  -- other, free, keeps the map valid, changes FSM pages only and keeps the file, the cache's
  -- capacity and its count of objects; at a free id it stops the process.
  pub free_bit_ends : (c : PageCache os) → Shows c v → FreeEnds c
  unfolding free_bit
  free_bit_ends c s = elim (Bool-cases (free_id v n)) [
    | inl free ↦
        let (c', run, shows, kept) = (is_free-Steps os mem v ids h n p k).run c s in
        inr (free, rw (run, free))
    | inr used ↦ elim (Invariant.free_bit_lem p bit (h.pages page_id p k).valid (omega arith)) [
      | inl (f, q, run, turned, count) ↦
          let (w, after, done) = freed used q run turned count in
          let (c', ran, shows, kept) = done.steps.run c s in
          inl (used, c', w, after, ran, shows, kept, done.valid, done.free, done.kept)
      | inr (f, stopped) ↦ absurd (in_use used f)
    ]
  ]
    where
      in_use : free_id v n ≡ false → free_at p.bitmap bit ≡ true → ⊥
      in_use used f =
          let inside : bit < get_blocks_in_page = omega arith in
          let here : free_id v n ≡ true = rw (k.shown, lt→ltb bit get_blocks_in_page inside, f) in
          cc
