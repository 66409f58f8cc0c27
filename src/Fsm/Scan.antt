-- ===== src/Fsm/Scan.antt =====
-- `findNextFree` and the constructor of a new page, of src/backend/FSMPage.cpp.
use Prim.Native.Nat.{bit_and-bitwise}
use kndb.Base.{
  ◌&&◌, get_elem?-replicate, get_elem?_beyond, ◌^◌, ℕ, zero, suc, ◌+◌, ◌*◌, ◌/◌, ◌%◌, ◌<◌, ◌≤◌, ◌≡◌,
  refl, sym, ap, ◌∙◌, true, false, length, replicate, ◌==◌, if◌then◌else◌, arith, ok, aborts, inl,
  inr, ◌⊎◌, Bool-cases, length-replicate, All-replicate, lt→ltb, ltb, ltb→lt,
}
use kndb.Constants.{pgid_invalid}
use kndb.Fsm.{
  FsmPage, bitmap_bytes, get_blocks_in_page, bit_is_free, alloc_bit, scan, find_next_free, new_page,
}
use kndb.Fsm.Bits.{zeros}
use kndb.Fsm.Bitmap.{free_at, zeros_in, zeros_in_none}
use kndb.Fsm.Invariant.{IsValid, is_free_lem, alloc_bit_lem}

-- Every index from `i` up to `j` is in use.
abbrev pub UsedUpTo : FsmPage → ℕ → ℕ → Type 0
UsedUpTo p i j = (k : ℕ) → i ≤ k → k < j → free_at p.bitmap k ≡ false

UsedUpTo-extend :
    (p : FsmPage) (i j : ℕ) → free_at p.bitmap i ≡ false → UsedUpTo p (suc i) j → UsedUpTo p i j
UsedUpTo-extend p i j f h k lo hi = elim (Bool-cases (k == i)) [
  | inl e ↦ ap (free_at p.bitmap) (ground arith) ∙ f
  | inr n ↦ h k (ground arith) hi
]

-- The loop stops at the first free index, and runs out only if there is none.
scan_lem :
    (p : FsmPage) (rounds i : ℕ)
    → i + rounds ≤ length p.bitmap * 8
    → ((j : ℕ) × (scan rounds i p ≡ ok j p)
        × (free_at p.bitmap j ≡ true)
        × (i ≤ j)
        × (j < i + rounds)
        × UsedUpTo p i j)
      ⊎ ((scan rounds i p ≡ aborts) × UsedUpTo p i (i + rounds))
unfolding scan
scan_lem p zero i h = inr (refl, λ k lo hi. absurd (omega arith))
scan_lem p (suc rounds) i h = elim (Bool-cases (free_at p.bitmap i)) [
  | inl f ↦ inl (
    i,
    rw (is_free_lem p i (omega arith), f),
    f,
    omega arith,
    omega arith,
    λ k lo hi. absurd (omega arith),
  )
  | inr f ↦ elim (scan_lem p rounds (suc i) (omega arith)) [
    | inl (j, run, free, lo, hi, used) ↦ inl (
      j,
      rw (is_free_lem p i (omega arith), f) run,
      free,
      omega arith,
      omega arith,
      UsedUpTo-extend p i j f used,
    )
    | inr (run, used) ↦ inr (
      rw (is_free_lem p i (omega arith), f) run,
      λ k lo hi. UsedUpTo-extend p i (suc i + rounds) f used k lo (omega arith),
    )
  ]
]

-- The two ways that `findNextFree` ends: with the lowest free index, one of the blocks of the page, or
-- stopped, with no block left.
abbrev pub FindsFirst : FsmPage → Type 0
FindsFirst p =
    ((0 < p.free_blocks)
      × (j : ℕ) × (find_next_free p ≡ ok j p)
      × (j < get_blocks_in_page)
      × (free_at p.bitmap j ≡ true)
      × ((k : ℕ) → (ltb k j && free_at p.bitmap k) ≡ false))
    ⊎ ((p.free_blocks ≡ 0) × (find_next_free p ≡ aborts))

-- On a valid page `findNextFree` returns the lowest free index, which lies within the blocks of the page,
-- while the count of free blocks is not zero, and stops the process otherwise; the page is unchanged.
pub find_next_free_lem : (p : FsmPage) → IsValid p → FindsFirst p
unfolding find_next_free
find_next_free_lem p v = elim (Bool-cases (p.free_blocks == 0)) [
  | inl e ↦ inr (ground arith, ground arith)
  | inr n ↦
      let (j, run, lt, free, used) =
        found (some_left n) (scan_lem p (length p.bitmap * 8) 0 (omega arith)) in
      inl (some_left n, j, run, lt, free, λ k. below used k)
]
  where
    some_left : (p.free_blocks == 0) ≡ false → 0 < p.free_blocks
    some_left n = ground arith

    none_left : (m : ℕ) → get_blocks_in_page ≤ m → UsedUpTo p 0 m → p.free_blocks ≡ 0
    none_left m h used =
        v.counted ∙ zeros_in_none bitmap_bytes p.bitmap (λ i lt. used i (omega arith) (omega arith))

    in_page : 0 < p.free_blocks → (j : ℕ) → UsedUpTo p 0 j → j < get_blocks_in_page
    in_page h j used = elim (Bool-cases (ltb j get_blocks_in_page)) [
      | inl e ↦ ltb→lt j get_blocks_in_page e
      | inr n ↦ absurd (omega (arith, none_left j (ground arith) used))
    ]

    below : {j : ℕ} → UsedUpTo p 0 j → (k : ℕ) → (ltb k j && free_at p.bitmap k) ≡ false
    below {j} used k = elim (Bool-cases (ltb k j)) [
      | inl e ↦ rw (used k (omega arith) (ltb→lt k j e)) (ground arith)
      | inr n ↦ rw n
    ]

    found :
        0 < p.free_blocks
        → ((j : ℕ) × (scan (length p.bitmap * 8) 0 p ≡ ok j p)
            × (free_at p.bitmap j ≡ true)
            × (0 ≤ j)
            × (j < 0 + length p.bitmap * 8)
            × UsedUpTo p 0 j)
          ⊎ ((scan (length p.bitmap * 8) 0 p ≡ aborts) × UsedUpTo p 0 (0 + length p.bitmap * 8))
        → (j : ℕ) × (find_next_free p ≡ ok j p)
          × (j < get_blocks_in_page)
          × (free_at p.bitmap j ≡ true)
          × UsedUpTo p 0 j
    found h (inl (j, run, free, lo, hi, used)) =
        (j, rw (lt→ltb 0 p.free_blocks h) run, in_page h j used, free, used)
    found h (inr (run, used)) = absurd (omega (arith, none_left _ (omega (arith, v.long)) used))

pub zeros_in-replicate : (n : ℕ) → zeros_in n (replicate n 0) ≡ n * 8
unfolding zeros_in zeros
zeros_in-replicate zero = refl
zeros_in-replicate (suc n) = omega (arith, zeros_in-replicate n)

zero_byte : (k : ℕ) → bit_is_free 0 k ≡ true
unfolding bit_is_free
zero_byte k = rw (bit_and-bitwise 0 (2 ^ k))

pub free_at-replicate : (n j : ℕ) → free_at (replicate n 0) j ≡ ltb j (n * 8)
unfolding free_at
free_at-replicate n j = elim (Bool-cases (ltb j (n * 8))) [
  | inl e ↦
      rw (get_elem?-replicate {A = ℕ} n (j / 8) 0 (omega (arith, ltb→lt j (n * 8) e)))
        (zero_byte (j % 8) ∙ sym e)
  | inr e ↦
      rw
        (get_elem?_beyond {A = ℕ} (replicate n 0) (j / 8)
          (omega (arith, length-replicate n zero, not_lt e)))
        (sym e)
]
  where
    not_lt : ltb j (n * 8) ≡ false → n * 8 ≤ j
    not_lt e = ground arith

unfoldable pub blank : ℕ → ℕ → FsmPage
blank n page_id = record {
  page_id = page_id;
  bitmap = replicate n 0;
  next_page_id = pgid_invalid;
  free_blocks = n * 8;
}

pub blank-IsValid : (n page_id : ℕ) → n ≡ bitmap_bytes → IsValid (blank n page_id)
unfolding blank
blank-IsValid n page_id e = record {
  long = omega (arith, length-replicate n zero);
  short = omega (arith, length-replicate n zero);
  bytes = All-replicate (λ b. b < 256) n 0 (omega arith);
  counted = sym (rw (← e) (zeros_in-replicate n));
}

-- A page whose first block, its own, is the only one in use.
pub record IsFresh (p : FsmPage) (page_id : ℕ) : Type 0 where
  pub valid : IsValid p
  pub own_id : p.page_id ≡ page_id
  pub unlinked : p.next_page_id ≡ pgid_invalid
  pub count : p.free_blocks + 1 ≡ get_blocks_in_page
  pub bits : (j : ℕ) → free_at p.bitmap j ≡ (if j == 0 then false else ltb j get_blocks_in_page)

blank_alloc :
    (n page_id : ℕ)
    → n ≡ bitmap_bytes
    → (p : FsmPage) × (alloc_bit 0 (blank n page_id) ≡ ok tt p) × IsFresh p page_id
blank_alloc n page_id e =
    elim (alloc_bit_lem (blank n page_id) 0 (blank-IsValid n page_id e) (omega arith)) [
      | inl (f, p, run, t, count) ↦ (
        p,
        run,
        record {
          valid = t.valid;
          own_id = unfold blank in t.same_id;
          unlinked = unfold blank in t.same_next;
          count = unfold blank in rw e at count;
          bits = λ j. t.bits j ∙ unfold blank in rw (free_at-replicate n j, e);
        },
      )
      | inr (f, run) ↦ cc (f, first_free)
    ]
  where
    first_free : free_at (blank n page_id).bitmap 0 ≡ true
    first_free = unfold blank in free_at-replicate n 0 ∙ ground arith

-- A new page is built without a stop: it is valid, unlinked, and has every block free but the first,
-- its own.
pub new_page_lem : (page_id : ℕ) → (p : FsmPage) × (new_page page_id ≡ ok tt p) × IsFresh p page_id
unfolding new_page blank
new_page_lem page_id = blank_alloc bitmap_bytes page_id refl

pub free_at-blank : (n page_id j : ℕ) → j < n * 8 → free_at (blank n page_id).bitmap j ≡ true
unfolding blank
free_at-blank n page_id j h = free_at-replicate n j ∙ lt→ltb j (n * 8) h
