-- ===== src/Base/Words.antt =====
-- The object representation of an unsigned word, as `memcpy` sees it: little-endian bytes.
use Prim.Native.Nat.{ℕ, zero, suc, ◌+◌, ◌*◌, ◌/◌, ◌%◌, ◌^◌, ◌<◌}
use mathlib.Core.Path.{◌≡◌, refl, ap}
use mathlib.Core.List.{List, [], ◌∷◌}
use native.Mathlib.Nat.{pow-suc}
use native.Mathlib.Omega.{arith}
use kndb.Base.Lists.{length, All}

-- `word_bytes w n` is the representation of the `w`-byte word `n`.
unfoldable pub word_bytes : ℕ → ℕ → List ℕ
word_bytes zero n = []
word_bytes (suc w) n = n % 256 ∷ word_bytes w (n / 256)

unfoldable pub word_of : List ℕ → ℕ
word_of [] = 0
word_of (b ∷ bs) = b + 256 * word_of bs

pub length-word_bytes : (w n : ℕ) → length (word_bytes w n) ≡ w
unfolding word_bytes
length-word_bytes zero n = refl
length-word_bytes (suc w) n = ap suc (length-word_bytes w (n / 256))

pub word_bytes-All : (w n : ℕ) → All (λ b. b < 256) (word_bytes w n)
unfolding word_bytes
word_bytes-All zero n = tt
word_bytes-All (suc w) n = (omega arith, word_bytes-All w (n / 256))

pub word_of-word_bytes : (w n : ℕ) → n < 256 ^ w → word_of (word_bytes w n) ≡ n
unfolding word_bytes word_of
word_of-word_bytes zero n h = omega arith
word_of-word_bytes (suc w) n h =
    omega (arith, word_of-word_bytes w (n / 256) (omega (arith, pow-suc 256 w)))
