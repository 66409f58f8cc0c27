-- ===== src/FreeSpaceMap/Invariant.antt =====
-- What src/backend/FreeSpaceMap.cpp keeps of its pages: the FSM pages behind page 0 that have a free
-- block are in a list, from page 0 on, by their links.
use kndb.Base.{
  ℕ, ◌+◌, ◌*◌, ◌/◌, ◌%◌, ◌<◌, ◌≤◌, ◌≡◌, ◌≢◌, ap, subst, ◌∙◌, Bool, false, List, [], ◌∷◌, Option,
  none, some, ltb, ◌==◌, ◌&&◌, if◌then◌else◌, All, arith, inl, inr, Bool-cases, ==_iff,
}
use kndb.Constants.{pgid_invalid}
use kndb.Fsm.{FsmPage, get_blocks_in_page}
use kndb.Fsm.Bitmap.{free_at}
use kndb.Fsm.Invariant
use kndb.Page.{Page, fsm}
use kndb.Cache.{Owned}
use kndb.FreeSpaceMap.Steps.{View, FsmAt, FsmAt-unique, renewed_at, other_at, before_at, renewed}

-- The pages of the given ids are linked in this order, from the link `next` on.
abbrev pub Chain : View → ℕ → List ℕ → Type 0
Chain v next [] = next ≡ pgid_invalid
Chain v next (id ∷ ids) =
    (next ≡ id)
    × (0 < id)
    × (id + get_blocks_in_page ≤ pgid_invalid)
    × All (λ j. j ≢ id) ids
    × (p : FsmPage) × FsmAt v id p
    × (0 < p.free_blocks)
    × Chain v p.next_page_id ids

-- A page in good order, at the start of the blocks that it stands for.
pub record Sound (id : ℕ) (p : FsmPage) : Type 0 where
  pub valid : Invariant.IsValid p
  pub own : p.page_id ≡ id
  pub placed : id % get_blocks_in_page ≡ 0
  pub bounded : id + get_blocks_in_page ≤ pgid_invalid

-- The free space map, with the ids of its list.
pub record IsValid (v : View) (ids : List ℕ) : Type 0 where
  pub first : FsmPage
  pub at_first : FsmAt v 0 first
  pub chain : Chain v first.next_page_id ids
  pub pages : (id : ℕ) (p : FsmPage) → FsmAt v id p → Sound id p
  pub listed :
      (id : ℕ) (p : FsmPage) → FsmAt v id p → id ≢ 0 → All (λ j. j ≢ id) ids → p.free_blocks ≡ 0

-- The answer of `isFull`.
abbrev pub full_map : (v : View) (ids : List ℕ) → IsValid v ids → Bool
full_map v ids h = h.first.free_blocks == 0 && h.first.next_page_id == pgid_invalid

abbrev pub page_free : Page → ℕ → Bool
page_free (fsm p) i = ltb i get_blocks_in_page && free_at p.bitmap i
page_free _ i = false

abbrev pub owned_free : Option Owned → ℕ → Bool
owned_free none i = false
owned_free (some o) i = page_free o.page i

-- The block at an index of an FSM page is free.
abbrev pub free_in : View → ℕ → ℕ → Bool
free_in v id = owned_free (v id)

-- The page of an id is free.
abbrev pub free_id : View → ℕ → Bool
free_id v n = free_in v (n / get_blocks_in_page * get_blocks_in_page) (n % get_blocks_in_page)

-- A page off the list leaves the list as it is.
pub Chain-other :
    (v : View) (id : ℕ) (p q : FsmPage) (h : FsmAt v id p) (next : ℕ) (ids : List ℕ)
    → All (λ j. j ≢ id) ids
    → Chain v next ids
    → Chain (renewed v id p q h) next ids
Chain-other v id p q h next [] off c = c
Chain-other v id p q h next (j ∷ ids) off (c0, c1, c2, c3, r, k, some_free, rest) =
    let apart : (id == j) ≡ false = ground (arith, off.0) in
    (
      c0,
      c1,
      c2,
      c3,
      r,
      other_at id p h q j r apart k,
      some_free,
      Chain-other v id p q h r.next_page_id ids off.1 rest,
    )

-- No page of the list is page 0.
pub Chain-positive : (v : View) (next : ℕ) (ids : List ℕ) → Chain v next ids → All (λ j. j ≢ 0) ids
Chain-positive v next [] c = tt
Chain-positive v next (j ∷ ids) (c0, c1, c2, c3, r, k, some_free, rest) =
    ((λ s. absurd (omega arith)), Chain-positive v r.next_page_id ids rest)

pub pages-renewed :
    (v : View) (id : ℕ) (p q : FsmPage) (h : FsmAt v id p)
    → ((j : ℕ) (r : FsmPage) → FsmAt v j r → Sound j r)
    → Sound id q
    → (j : ℕ) (r : FsmPage) → FsmAt (renewed v id p q h) j r
    → Sound j r
pages-renewed v id p q h pages sound j r k = elim (Bool-cases (id == j)) [
  | inl y ↦
      let same : id ≡ j = (==_iff id j).0 y in
      let here : FsmAt (renewed v id p q h) j q =
        subst (λ i. FsmAt (renewed v id p q h) i q) same (renewed_at id p h q) in
      subst (Sound j) (FsmAt-unique (renewed v id p q h) j q r here k)
        (subst (λ i. Sound i q) same sound)
  | inr n ↦ pages j r (before_at id p h q j r n k)
]

-- A change of one bit of a page changes the free blocks by that one.
pub free_in-renewed :
    (v : View) (id i : ℕ) (p q : FsmPage) (h : FsmAt v id p) (now : Bool)
    → Invariant.Turned p q i now
    → i < get_blocks_in_page
    → (j k : ℕ)
    → free_in (renewed v id p q h) j k ≡ (if id == j && i == k then now else free_in v j k)
free_in-renewed v id i p q h now t lt j k = elim (Bool-cases (id == j)) [
  | inl y ↦ rw (y, ← (==_iff id j).0 y, h.shown, t.bits k) (ground arith)
  | inr n ↦ rw n
]

-- A change of the bit of a page id changes the free ids by that one.
pub free_id-renewed :
    (v : View) (id i : ℕ) (p q : FsmPage) (h : FsmAt v id p) (now : Bool)
    → Invariant.Turned p q i now
    → i < get_blocks_in_page
    → id % get_blocks_in_page ≡ 0
    → (m : ℕ) → free_id (renewed v id p q h) m ≡ (if id + i == m then now else free_id v m)
free_id-renewed v id i p q h now t lt placed m =
    free_in-renewed v id i p q h now t lt _ _ ∙ ap (λ b. if b then now else free_id v m) same
  where
    same :
        (id == m / get_blocks_in_page * get_blocks_in_page && i == m % get_blocks_in_page)
        ≡ (id + i == m)
    same = ground arith

-- The id of a free block.
pub free_id-here :
    (v : View) (id i : ℕ)
    → i < get_blocks_in_page
    → id % get_blocks_in_page ≡ 0
    → free_id v (id + i) ≡ free_in v id i
free_id-here v id i lt placed =
    let page : (id + i) / get_blocks_in_page * get_blocks_in_page ≡ id = omega arith in
    let bit : (id + i) % get_blocks_in_page ≡ i = omega arith in rw (page, bit)

-- A page with another link.
abbrev pub relinked : FsmPage → ℕ → FsmPage
relinked p next = record p { next_page_id = next }

pub relinked-Sound : (id : ℕ) (p : FsmPage) (next : ℕ) → Sound id p → Sound id (relinked p next)
relinked-Sound id p next s = record {
  valid = record {
    long = s.valid.long;
    short = s.valid.short;
    bytes = s.valid.bytes;
    counted = s.valid.counted;
  };
  own = s.own;
  placed = s.placed;
  bounded = s.bounded;
}

pub free_id-relinked :
    (v : View) (id : ℕ) (p : FsmPage) (next : ℕ) (h : FsmAt v id p) (m : ℕ)
    → free_id (renewed v id p (relinked p next) h) m ≡ free_id v m
free_id-relinked v id p next h m =
    elim (Bool-cases (id == m / get_blocks_in_page * get_blocks_in_page)) [
      | inl y ↦ rw (y, ← (==_iff id (m / get_blocks_in_page * get_blocks_in_page)).0 y, h.shown)
      | inr n ↦ rw n
    ]
