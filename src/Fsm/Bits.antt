-- ===== src/Fsm/Bits.antt =====
-- The bits of one byte of the bitmap of src/backend/FSMPage.cpp, by evaluation at every byte.
use kndb.Base.{
  ℕ, zero, suc, ◌+◌, ◌<◌, ◌≤◌, ◌≡◌, refl, Bool, true, false, not, ◌&&◌, ltb, ◌==◌, if◌then◌else◌,
  arith, ==_iff, ltb→lt,
}
use kndb.Fsm.{bit_is_free, toggle}

all_below : ℕ → (ℕ → Bool) → Bool
all_below zero p = true
all_below (suc n) p = p n && all_below n p

all_below_lem : (n : ℕ) (p : ℕ → Bool) (x : ℕ) → all_below n p ≡ true → x < n → p x ≡ true
unfolding all_below
all_below_lem zero p x h lt = absurd (omega arith)
all_below_lem (suc n) p x h lt = ground (arith, all_below_lem n p x)

all_below2_lem :
    (n m : ℕ) (p : ℕ → ℕ → Bool) (x y : ℕ)
    → all_below n (λ a. all_below m (p a)) ≡ true
    → x < n
    → y < m
    → p x y ≡ true
all_below2_lem n m p x y h hx hy = all_below_lem m (p x) y (all_below_lem n _ x h hx) hy

all_below3_lem :
    (n m k : ℕ) (p : ℕ → ℕ → ℕ → Bool) (x y z : ℕ)
    → all_below n (λ a. all_below m (λ b. all_below k (p a b))) ≡ true
    → x < n
    → y < m
    → z < k
    → p x y z ≡ true
all_below3_lem n m k p x y z h hx hy hz =
    all_below_lem k (p x y) z (all_below2_lem n m _ x y h hx hy) hz

abbrev bit_count : Bool → ℕ
bit_count b = if b then 1 else 0

-- The number of free bits of a byte.
unfoldable pub zeros : ℕ → ℕ
unfolding bit_is_free
zeros b =
    bit_count (bit_is_free b 0)
    + bit_count (bit_is_free b 1)
    + bit_count (bit_is_free b 2)
    + bit_count (bit_is_free b 3)
    + bit_count (bit_is_free b 4)
    + bit_count (bit_is_free b 5)
    + bit_count (bit_is_free b 6)
    + bit_count (bit_is_free b 7)

abbrev same : Bool → Bool → Bool
same true b = b
same false b = not b

same→≡ : (a b : Bool) → same a b ≡ true → a ≡ b
same→≡ a b h = ground arith

toggle-lt_table : all_below 256 (λ b. all_below 8 (λ k. ltb (toggle b k) 256)) ≡ true
unfolding all_below toggle
toggle-lt_table = refl

pub toggle-lt : (b k : ℕ) → b < 256 → k < 8 → toggle b k < 256
toggle-lt b k hb hk =
    ltb→lt _ _ (all_below2_lem 256 8 (λ b k. ltb (toggle b k) 256) b k toggle-lt_table hb hk)

toggle-toggle_table : all_below 256 (λ b. all_below 8 (λ k. toggle (toggle b k) k == b)) ≡ true
unfolding all_below toggle
toggle-toggle_table = refl

pub toggle-toggle : (b k : ℕ) → b < 256 → k < 8 → toggle (toggle b k) k ≡ b
toggle-toggle b k hb hk =
    (==_iff _ _).0
      (all_below2_lem 256 8 (λ b k. toggle (toggle b k) k == b) b k toggle-toggle_table hb hk)

free_table :
    all_below 256 (λ b. all_below 8 (λ k. all_below 8 (λ j.
      same
        (bit_is_free (toggle b k) j)
        (if j == k then not (bit_is_free b k) else bit_is_free b j))))
    ≡ true
unfolding all_below toggle bit_is_free
free_table = refl

-- Toggling a bit turns that bit over and no other.
pub bit_is_free-toggle :
    (b k j : ℕ)
    → b < 256
    → k < 8
    → j < 8
    → bit_is_free (toggle b k) j ≡ (if j == k then not (bit_is_free b k) else bit_is_free b j)
bit_is_free-toggle b k j hb hk hj = same→≡ _ _ (
    all_below3_lem 256 8 8
      (λ b k j.
        same (bit_is_free (toggle b k) j)
          (if j == k then not (bit_is_free b k) else bit_is_free b j))
      b k j free_table hb hk hj)

zeros_table :
    all_below 256 (λ b. all_below 8 (λ k.
      if bit_is_free b k
      then zeros (toggle b k) + 1 == zeros b
      else zeros (toggle b k) == zeros b + 1))
    ≡ true
unfolding all_below toggle zeros
zeros_table = refl

-- It changes the number of free bits by one.
pub zeros-toggle :
    (b k : ℕ)
    → b < 256
    → k < 8
    → (if bit_is_free b k
        then zeros (toggle b k) + 1 == zeros b
        else zeros (toggle b k) == zeros b + 1)
      ≡ true
zeros-toggle b k hb hk =
    all_below2_lem 256 8
      (λ b k.
        if bit_is_free b k
        then zeros (toggle b k) + 1 == zeros b
        else zeros (toggle b k) == zeros b + 1)
      b k zeros_table hb hk

bit_count-le : (b : Bool) → bit_count b ≤ 1
bit_count-le b = ground arith

pub zeros-le : (b : ℕ) → zeros b ≤ 8
unfolding zeros
zeros-le b = omega (
  arith,
  bit_count-le (bit_is_free b 0),
  bit_count-le (bit_is_free b 1),
  bit_count-le (bit_is_free b 2),
  bit_count-le (bit_is_free b 3),
  bit_count-le (bit_is_free b 4),
  bit_count-le (bit_is_free b 5),
  bit_count-le (bit_is_free b 6),
  bit_count-le (bit_is_free b 7),
)

pub zeros_none : (b : ℕ) → ((k : ℕ) → k < 8 → bit_is_free b k ≡ false) → zeros b ≡ 0
unfolding zeros
zeros_none b h = rw (
  h 0 (omega arith),
  h 1 (omega arith),
  h 2 (omega arith),
  h 3 (omega arith),
  h 4 (omega arith),
  h 5 (omega arith),
  h 6 (omega arith),
  h 7 (omega arith),
)
