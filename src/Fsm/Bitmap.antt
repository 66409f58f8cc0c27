-- ===== src/Fsm/Bitmap.antt =====
-- The whole bitmap of src/backend/FSMPage.cpp: its bits by index, and the number of the free ones.
use kndb.Base.{
  ℕ, zero, suc, ◌+◌, ◌*◌, ◌/◌, ◌%◌, ◌<◌, ◌≤◌, ◌≡◌, refl, sym, ◌∙◌, Bool, true, false, not, List, [],
  ◌∷◌, Option, none, some, length, get_elem?, set, All, ◌==◌, if◌then◌else◌, arith, ==_iff,
  Bool-cases, inl, inr, get_elem?-some-lt, get_elem?-set_self, get_elem?-set_ne, All-get_elem?,
}
use kndb.Fsm.{bit_is_free, toggle}
use kndb.Fsm.Bits.{zeros, bit_is_free-toggle, zeros-toggle, zeros-le, zeros_none}

abbrev pub Bytes : List ℕ → Type 0
Bytes = All (λ b. b < 256)

abbrev pub byte_free : ℕ → Option ℕ → Bool
byte_free k none = false
byte_free k (some byte) = bit_is_free byte k

-- Bit `i` is free; beyond the bitmap no bit is.
unfoldable pub free_at : List ℕ → ℕ → Bool
free_at bitmap i = byte_free (i % 8) (get_elem? bitmap (i / 8))

-- The number of free bits in the first `n` bytes.
unfoldable pub zeros_in : ℕ → List ℕ → ℕ
zeros_in zero bitmap = 0
zeros_in (suc n) [] = 0
zeros_in (suc n) (b ∷ bs) = zeros b + zeros_in n bs

pub zeros_in-le : (n : ℕ) (bs : List ℕ) → zeros_in n bs ≤ n * 8
unfolding zeros_in
zeros_in-le zero bs = omega arith
zeros_in-le (suc n) [] = omega arith
zeros_in-le (suc n) (b ∷ bs) = omega (arith, zeros-le b, zeros_in-le n bs)

zeros_in-set :
    (n j : ℕ) (bs : List ℕ) (b v : ℕ)
    → get_elem? bs j ≡ some b
    → j < n
    → zeros_in n (set bs j v) + zeros b ≡ zeros_in n bs + zeros v
unfolding zeros_in
zeros_in-set zero j bs b v e h = absurd (omega arith)
zeros_in-set (suc n) j [] b v e h = cc
zeros_in-set (suc n) zero (a ∷ bs) b v e h = ground arith
zeros_in-set (suc n) (suc j) (a ∷ bs) b v e h =
    omega (arith, zeros_in-set n j bs b v e (omega arith))

free_at-cons : (b : ℕ) (bs : List ℕ) (i : ℕ) → free_at (b ∷ bs) (i + 8) ≡ free_at bs i
unfolding free_at
free_at-cons b bs i =
    let q : (i + 8) / 8 ≡ suc (i / 8) = omega arith in
    let r : (i + 8) % 8 ≡ i % 8 = omega arith in rw (q, r)

free_at-head : (b : ℕ) (bs : List ℕ) (k : ℕ) → k < 8 → free_at (b ∷ bs) k ≡ bit_is_free b k
unfolding free_at
free_at-head b bs k h =
    let q : k / 8 ≡ 0 = omega arith in let r : k % 8 ≡ k = omega arith in rw (q, r)

-- Where no bit is free, the count is zero.
pub zeros_in_none :
    (n : ℕ) (bs : List ℕ) → ((i : ℕ) → i < n * 8 → free_at bs i ≡ false) → zeros_in n bs ≡ 0
unfolding zeros_in
zeros_in_none zero bs h = refl
zeros_in_none (suc n) [] h = refl
zeros_in_none (suc n) (b ∷ bs) h = omega (
  arith,
  zeros_none b (λ k p. sym (free_at-head b bs k p) ∙ h k (omega arith)),
  zeros_in_none n bs (λ i p. sym (free_at-cons b bs i) ∙ h (i + 8) (omega arith)),
)

module _ (bs : List ℕ) (i b : ℕ) (here : get_elem? bs (i / 8) ≡ some b) (small : Bytes bs) where
  b-lt : b < 256
  b-lt = All-get_elem? (λ b. b < 256) bs (i / 8) small here

  get_elem?-in : i / 8 < length bs
  get_elem?-in = get_elem?-some-lt bs (i / 8) here

  -- Toggling one bit of the bitmap turns that bit over and no other.
  pub free_at-toggle :
      (j : ℕ)
      → free_at (set bs (i / 8) (toggle b (i % 8))) j
        ≡ (if j == i then not (free_at bs i) else free_at bs j)
  unfolding free_at
  free_at-toggle j = elim (Bool-cases (j / 8 == i / 8)) [
    | inl e ↦
        let e' : j / 8 ≡ i / 8 = (==_iff _ _).0 e in
        rw (e', here, get_elem?-set_self bs (i / 8) (toggle b (i % 8)) get_elem?-in)
          (rw (bit_is_free-toggle b (i % 8) (j % 8) b-lt (omega arith) (omega arith))
            (ground arith))
    | inr e ↦
        rw (get_elem?-set_ne bs {i = i / 8} {j = j / 8} (toggle b (i % 8)) (λ q. ground arith))
          (ground arith)
  ]

  pub zeros_in-toggle_free :
      (n : ℕ)
      → i < n * 8
      → free_at bs i ≡ true
      → zeros_in n (set bs (i / 8) (toggle b (i % 8))) + 1 ≡ zeros_in n bs
  unfolding free_at
  zeros_in-toggle_free n h f = ground (
    arith,
    zeros_in-set n (i / 8) bs b (toggle b (i % 8)) here,
    zeros-toggle b (i % 8) b-lt (omega arith),
  )

  pub zeros_in-toggle_used :
      (n : ℕ)
      → i < n * 8
      → free_at bs i ≡ false
      → zeros_in n (set bs (i / 8) (toggle b (i % 8))) ≡ zeros_in n bs + 1
  unfolding free_at
  zeros_in-toggle_used n h f = ground (
    arith,
    zeros_in-set n (i / 8) bs b (toggle b (i % 8)) here,
    zeros-toggle b (i % 8) b-lt (omega arith),
  )
