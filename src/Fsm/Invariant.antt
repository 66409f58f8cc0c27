-- ===== src/Fsm/Invariant.antt =====
-- Allocating and freeing a bit of an `FSMPage` (src/backend/FSMPage.cpp).
use kndb.Base.{
  ◌>>◌, Bool-cases, inl, inr, ◌⊎◌, ℕ, ◌+◌, ◌-◌, ◌*◌, ◌/◌, ◌%◌, ◌<◌, ◌≤◌, ◌≡◌, refl, ap, ◌∙◌, Bool,
  true, false, not, some, length, get_elem?, set, ◌==◌, if◌then◌else◌, arith, ok, aborts,
  get_elem?-lt, length-set, All-set, All-get_elem?, set-set_self, get_elem?-set_self,
}
use kndb.Fsm.{FsmPage, bitmap_bytes, get_blocks_in_page, toggle, is_free, alloc_bit, free_bit}
use kndb.Fsm.Bits.{toggle-lt, toggle-toggle}
use kndb.Fsm.Bitmap.{
  Bytes, free_at, zeros_in, zeros_in-le, free_at-toggle, zeros_in-toggle_free, zeros_in-toggle_used,
}

-- A bitmap holds the 4084 bytes of a new page, or the 4087 that the page is read back with; its
-- count is that of the free bits among the first 4084 bytes.
pub record IsValid (p : FsmPage) : Type 0 where
  pub long : bitmap_bytes ≤ length p.bitmap
  pub short : length p.bitmap ≤ bitmap_bytes + 3
  pub bytes : Bytes p.bitmap
  pub counted : p.free_blocks ≡ zeros_in bitmap_bytes p.bitmap

pub is_free_lem :
    (p : FsmPage) (idx : ℕ)
    → idx < length p.bitmap * 8
    → is_free idx p ≡ ok (free_at p.bitmap idx) p
unfolding is_free free_at
is_free_lem p idx h =
    let (b, e) = get_elem?-lt p.bitmap (idx / 8) (omega arith) in rw (e, is_free) (ground arith)

-- The state after `m_bitmap[idx / 8] ^= 1 << (idx % 8)` and a new count.
pub flipped : FsmPage → ℕ → ℕ → ℕ → FsmPage
flipped p idx b n = record p {
  bitmap = set p.bitmap (idx / 8) (toggle b (idx % 8));
  free_blocks = n;
}

-- `q` is `p` with bit `idx` turned to `now`, as free or as in use, and nothing else changed.
pub record Turned (p q : FsmPage) (idx : ℕ) (now : Bool) : Type 0 where
  pub valid : IsValid q
  pub bits : (j : ℕ) → free_at q.bitmap j ≡ (if j == idx then now else free_at p.bitmap j)
  pub same_id : q.page_id ≡ p.page_id
  pub same_next : q.next_page_id ≡ p.next_page_id

-- The two branches of `allocBit` at `idx`.
abbrev pub Allocates : FsmPage → ℕ → Type 0
Allocates p idx =
    ((free_at p.bitmap idx ≡ true)
      × (q : FsmPage) × (alloc_bit idx p ≡ ok tt q)
      × Turned p q idx false
      × (q.free_blocks + 1 ≡ p.free_blocks))
    ⊎ ((free_at p.bitmap idx ≡ false) × (alloc_bit idx p ≡ aborts))

-- The two branches of `freeBit` at `idx`.
abbrev pub Frees : FsmPage → ℕ → Type 0
Frees p idx =
    ((free_at p.bitmap idx ≡ false)
      × (q : FsmPage) × (free_bit idx p ≡ ok tt q)
      × Turned p q idx true
      × (q.free_blocks ≡ p.free_blocks + 1))
    ⊎ ((free_at p.bitmap idx ≡ true) × (free_bit idx p ≡ aborts))

module _ (p : FsmPage) (idx b : ℕ) (v : IsValid p) (inside : idx < get_blocks_in_page)
    (here : get_elem? p.bitmap (idx / 8) ≡ some b) where
  b-lt : b < 256
  b-lt = All-get_elem? (λ b. b < 256) p.bitmap (idx / 8) v.bytes here

  flipped-IsValid :
      (n : ℕ)
      → n ≡ zeros_in bitmap_bytes (set p.bitmap (idx / 8) (toggle b (idx % 8)))
      → IsValid (flipped p idx b n)
  unfolding flipped
  flipped-IsValid n e = record {
    long = omega (arith, v.long, length-set p.bitmap (idx / 8) (toggle b (idx % 8)));
    short = omega (arith, v.short, length-set p.bitmap (idx / 8) (toggle b (idx % 8)));
    bytes =
        All-set (λ b. b < 256) p.bitmap (idx / 8) (toggle b (idx % 8)) v.bytes
          (toggle-lt b (idx % 8) b-lt (omega arith));
    counted = e;
  }

  alloc_run :
      free_at p.bitmap idx ≡ true → alloc_bit idx p ≡ ok tt (flipped p idx b (p.free_blocks - 1))
  unfolding alloc_bit flipped free_at
  alloc_run f =
      let some_free : 0 < p.free_blocks = omega (
        arith,
        v.counted,
        zeros_in-toggle_free p.bitmap idx b here v.bytes bitmap_bytes inside f,
      ) in
      let counted : p.free_blocks ≤ bitmap_bytes * 8 =
        omega (arith, v.counted, zeros_in-le bitmap_bytes p.bitmap) in
      ground arith

  free_run :
      free_at p.bitmap idx ≡ false → free_bit idx p ≡ ok tt (flipped p idx b (p.free_blocks + 1))
  unfolding free_bit flipped free_at
  free_run f =
      let counted : zeros_in bitmap_bytes (set p.bitmap (idx / 8) (toggle b (idx % 8)))
          ≤ bitmap_bytes * 8 =
        zeros_in-le bitmap_bytes _ in
      let fewer : p.free_blocks < bitmap_bytes * 8 = omega (
        arith,
        v.counted,
        zeros_in-toggle_used p.bitmap idx b here v.bytes bitmap_bytes inside f,
      ) in
      ground arith

  alloc_refused : free_at p.bitmap idx ≡ false → alloc_bit idx p ≡ aborts
  unfolding alloc_bit free_at
  alloc_refused f = ground arith

  free_refused : free_at p.bitmap idx ≡ true → free_bit idx p ≡ aborts
  unfolding free_bit free_at
  free_refused f = ground arith

  flipped-Turned :
      (n : ℕ) (was now : Bool)
      → free_at p.bitmap idx ≡ was
      → not was ≡ now
      → n ≡ zeros_in bitmap_bytes (set p.bitmap (idx / 8) (toggle b (idx % 8)))
      → Turned p (flipped p idx b n) idx now
  unfolding flipped
  flipped-Turned n was now f e count = record {
    valid = flipped-IsValid n count;
    bits = λ j. free_at-toggle p.bitmap idx b here v.bytes j ∙ rw (f, e);
    same_id = refl;
    same_next = refl;
  }

  flipped_twice :
      flipped (flipped p idx b (p.free_blocks - 1)) idx (toggle b (idx % 8)) p.free_blocks ≡ p
  unfolding flipped
  flipped_twice = λ i. record p { bitmap = twice i }
    where
      twice :
          set
            (set p.bitmap (idx / 8) (toggle b (idx % 8)))
            (idx / 8)
            (toggle (toggle b (idx % 8)) (idx % 8))
          ≡ p.bitmap
      twice =
          rw (toggle-toggle b (idx % 8) b-lt (omega arith))
            (set-set_self p.bitmap (idx / 8) (toggle b (idx % 8)) here)

module _ (p : FsmPage) (idx : ℕ) (v : IsValid p) (inside : idx < get_blocks_in_page) where
  b : ℕ
  b = (get_elem?-lt p.bitmap (idx / 8) (omega (arith, v.long))).0

  here : get_elem? p.bitmap (idx / 8) ≡ some b
  unfolding b
  here = (get_elem?-lt p.bitmap (idx / 8) (omega (arith, v.long))).1

  -- On a valid page `allocBit` takes a free block, which turns that bit, changes no other and lowers the
  -- count by one; at a block in use it stops the process.
  pub alloc_bit_lem : Allocates p idx
  alloc_bit_lem = elim (Bool-cases (free_at p.bitmap idx)) [
    | inl f ↦
        let count = zeros_in-toggle_free p.bitmap idx b here v.bytes bitmap_bytes inside f in
        inl (
          f,
          flipped p idx b (p.free_blocks - 1),
          alloc_run p idx b v inside here f,
          flipped-Turned p idx b v inside here _ true false f refl (omega (arith, v.counted)),
          unfold flipped in omega (arith, v.counted),
        )
    | inr f ↦ inr (f, alloc_refused p idx b v inside here f)
  ]

  -- On a valid page `freeBit` gives back a block in use, which turns that bit, changes no other and raises
  -- the count by one; at a free block it stops the process.
  pub free_bit_lem : Frees p idx
  free_bit_lem = elim (Bool-cases (free_at p.bitmap idx)) [
    | inl f ↦ inr (f, free_refused p idx b v inside here f)
    | inr f ↦ inl (
      f,
      flipped p idx b (p.free_blocks + 1),
      free_run p idx b v inside here f,
      flipped-Turned p idx b v inside here _ false true f refl (
          omega (
            arith,
            v.counted,
            zeros_in-toggle_used p.bitmap idx b here v.bytes bitmap_bytes inside f,
          )),
      unfold flipped in refl,
    )
  ]

  -- Freeing the block just allocated gives the page back.
  pub free_bit-alloc_bit : free_at p.bitmap idx ≡ true → (alloc_bit idx >> free_bit idx) p ≡ ok tt p
  unfolding flipped
  free_bit-alloc_bit f =
      let k = idx % 8 in
      let count = zeros_in-toggle_free p.bitmap idx b here v.bytes bitmap_bytes inside f in
      let t =
        flipped-Turned p idx b v inside here (p.free_blocks - 1) true false f refl
          (omega (arith, v.counted)) in
      let again = get_elem?-set_self p.bitmap (idx / 8) (toggle b k) (omega (arith, v.long)) in
      let used : free_at (set p.bitmap (idx / 8) (toggle b k)) idx ≡ false =
        t.bits idx ∙ ground arith in
      let back : p.free_blocks - 1 + 1 ≡ p.free_blocks = omega (arith, v.counted) in
      rw (alloc_run p idx b v inside here f) (
        free_run (flipped p idx b (p.free_blocks - 1)) idx (toggle b k) t.valid inside again used
        ∙ ap (ok tt) (
            ap (flipped (flipped p idx b (p.free_blocks - 1)) idx (toggle b k)) back
            ∙ flipped_twice p idx b v inside here))
