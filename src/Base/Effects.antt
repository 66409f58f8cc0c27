-- ===== src/Base/Effects.antt =====
-- What a C++ member function can do to its object: return, throw with the object as it is then,
-- stop the process (`ASSUME` of src/assume.hpp in a debug build), or run into undefined behaviour.
use mathlib.Core.Bool.{Bool, true, false}
use mathlib.Core.Option.{Option, none, some}

pub data Error : Type 0 where
  runtime_error invalid_argument bad_cast : Error

pub data Outcome {ℓ κ} (S : Type ℓ) (A : Type κ) : Type (ℓ ⊔ κ) where
  ok : A → S → Outcome S A
  throws : Error → S → Outcome S A
  aborts : Outcome S A
  undefined : Outcome S A

-- A method of an object with the state `S` and the result `A`.
abbrev pub M {ℓ κ} : Type ℓ → Type κ → Type (ℓ ⊔ κ)
M S A = S → Outcome S A

abbrev pub pure {ℓ κ} : {S : Type ℓ} {A : Type κ} → A → M S A
pure a s = ok a s

abbrev pub and_then {ℓ κ μ} :
    {S : Type ℓ} {A : Type κ} {B : Type μ} → Outcome S A → (A → M S B) → Outcome S B
and_then (ok a s) f = f a s
and_then (throws e s) f = throws e s
and_then aborts f = aborts
and_then undefined f = undefined

infixl 5 ◌>>=◌ ◌>>◌
abbrev pub ◌>>=◌ {ℓ κ μ} : {S : Type ℓ} {A : Type κ} {B : Type μ} → M S A → (A → M S B) → M S B
◌>>=◌ m f s = and_then (m s) f

abbrev pub ◌>>◌ {ℓ κ} : {S : Type ℓ} {B : Type κ} → M S (Unit {0}) → M S B → M S B
◌>>◌ m k = m >>= λ _. k

-- `ASSUME_S(test, …)`
abbrev pub assume {ℓ} : {S : Type ℓ} → Bool → M S (Unit {0})
assume true s = ok tt s
assume false s = aborts

-- `if (!test) throw e;`
abbrev pub require {ℓ} : {S : Type ℓ} → Bool → Error → M S (Unit {0})
require true e s = ok tt s
require false e s = throws e s

-- A destructor is `noexcept`: an exception that leaves it ends the process.
abbrev pub noexcept {ℓ κ} : {S : Type ℓ} {A : Type κ} → M S A → M S A
noexcept m s = elim (m s) [
  | ok a t ↦ ok a t
  | throws e t ↦ aborts
  | aborts ↦ aborts
  | undefined ↦ undefined
]

-- A method of a part of an object.
abbrev pub zoom {ℓ κ μ} :
    {S : Type ℓ} {T : Type κ} {A : Type μ} → (S → T) → (T → S → S) → M T A → M S A
zoom get put m s = elim (m (get s)) [
  | ok a t ↦ ok a (put t s)
  | throws e t ↦ throws e (put t s)
  | aborts ↦ aborts
  | undefined ↦ undefined
]

-- A value that the code takes to be there.
abbrev pub expect {ℓ κ} : {S : Type ℓ} {A : Type κ} → Option A → M S A
expect none s = undefined
expect (some a) s = ok a s

abbrev pub get_state {ℓ} : {S : Type ℓ} → M S S
get_state s = ok s s

abbrev pub put_state {ℓ} : {S : Type ℓ} → S → M S (Unit {0})
put_state s' s = ok tt s'
