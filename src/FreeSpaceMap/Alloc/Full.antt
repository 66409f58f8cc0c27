-- ===== src/FreeSpaceMap/Alloc/Full.antt =====
-- Maps of src/backend/FreeSpaceMap.cpp without a free block.
use kndb.Base.{
  ltb→lt, Option-cases, ℕ, ◌≡◌, refl, ap, subst, ◌∙◌, false, [], some, ltb, ◌==◌, ◌&&◌, arith, inl,
  inr, Bool-cases, ==_iff,
}
use kndb.Fsm.{FsmPage, get_blocks_in_page}
use kndb.Fsm.Bitmap.{free_at}
use kndb.Fsm.Invariant
use kndb.Page.{Page, schema, fsm, table, node}
use kndb.FreeSpaceMap.Steps.{View, FsmAt, FsmAt-unique}
use kndb.FreeSpaceMap.Invariant.{IsValid, page_free, free_in}

-- A page with no free block in its count has none in its bits.
full_page :
    (p : FsmPage)
    → Invariant.IsValid p
    → p.free_blocks ≡ 0
    → (i : ℕ) → (ltb i get_blocks_in_page && free_at p.bitmap i) ≡ false
full_page p v none_left i = elim (Bool-cases (ltb i get_blocks_in_page)) [
  | inr out ↦ rw out
  | inl inside ↦ elim (Invariant.alloc_bit_lem p i v (ltb→lt i get_blocks_in_page inside)) [
    | inl (f, q, run, turned, count) ↦ absurd (omega arith)
    | inr (used, stopped) ↦ rw (inside, used)
  ]
]

pub all_full :
    (v : View) (h : IsValid v []) → h.first.free_blocks ≡ 0 → (id i : ℕ) → free_in v id i ≡ false
all_full v h none_left id i = elim (Option-cases (v id)) [
  | inl absent ↦ rw absent
  | inr (o, there) ↦ rw there (full_owned o.object o.page there)
]
  where
    counted : (p : FsmPage) → FsmAt v id p → p.free_blocks ≡ 0
    counted p k = elim (Bool-cases (id == 0)) [
      | inl y ↦
          ap (λ (a : FsmPage). a.free_blocks)
            (FsmAt-unique v 0 p h.first (subst (λ j. FsmAt v j p) ((==_iff id 0).0 y) k) h.at_first)
          ∙ none_left
      | inr n ↦ h.listed id p k (ground (arith, n)) tt
    ]

    full_owned :
        (r : ℕ) (o : Page) → v id ≡ some (record { object = r; page = o }) → page_free o i ≡ false
    full_owned r (fsm p) there =
        let k : FsmAt v id p = record { object = r; shown = there } in
        full_page p (h.pages id p k).valid (counted p k) i
    full_owned r (schema p) there = refl
    full_owned r (table p) there = refl
    full_owned r (node p) there = refl
