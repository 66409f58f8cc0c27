-- ===== src/Io/Splice.antt =====
-- A sequence cut in pieces of one size, as the blocks of the file of src/backend/IOHandler.cpp.
use kndb.Base.{
  ℕ, zero, suc, ◌+◌, ◌-◌, ◌*◌, ◌<◌, ◌≤◌, ◌≡◌, refl, sym, ap, ◌∙◌, List, [], ◌∷◌, ◌++◌, ltb, ◌==◌,
  if◌then◌else◌, length, take, drop, arith, inl, inr, Bool-cases, ltb→lt, ==_iff, length-take,
  drop-drop, take-append-drop, take-append,
}
use native.Mathlib.Nat.{mul-le-mul_right}

mul-step : (m k n : ℕ) → m < k → m * n + n ≤ k * n
mul-step m k n h = omega (arith, mul-le-mul_right n h)

module _ {ℓ} {A : Type ℓ} where
  drop-append_ge :
      (k : ℕ) (xs ys : List A) → length xs ≤ k → drop k (xs ++ ys) ≡ drop (k - length xs) ys
  drop-append_ge k [] ys h = ap (λ n. drop n ys) (omega arith)
  drop-append_ge zero (x ∷ xs) ys h = absurd (omega arith)
  drop-append_ge (suc k) (x ∷ xs) ys h =
      drop-append_ge k xs ys (omega arith) ∙ ap (λ n. drop n ys) (omega arith)

  pub take-drop-append :
      (n k : ℕ) (xs ys : List A)
      → k + n ≤ length xs
      → take n (drop k (xs ++ ys)) ≡ take n (drop k xs)
  take-drop-append zero k xs ys h = refl
  take-drop-append (suc n) zero [] ys h = absurd (omega arith)
  take-drop-append (suc n) zero (x ∷ xs) ys h =
      ap (◌∷◌ x) (take-drop-append n zero xs ys (omega arith))
  take-drop-append (suc n) (suc k) [] ys h = absurd (omega arith)
  take-drop-append (suc n) (suc k) (x ∷ xs) ys h = take-drop-append (suc n) k xs ys (omega arith)

  -- Block `m` of a sequence that is cut in pieces of `n`.
  abbrev pub chunk : ℕ → List A → ℕ → List A
  chunk n xs m = take n (drop (m * n) xs)

  module _ (n k : ℕ) (c new : List A) (e : length new ≡ n) (h : k * n + n ≤ length c) where
    spliced : List A
    spliced = take (k * n) c ++ (new ++ drop (k * n + n) c)

    before : length (take (k * n) c) ≡ k * n
    before = omega (arith, length-take (k * n) c)

    splice_below : (m : ℕ) → m * n + n ≤ k * n → chunk n spliced m ≡ chunk n c m
    unfolding spliced
    splice_below m lt =
        take-drop-append n (m * n) (take (k * n) c) (new ++ drop (k * n + n) c)
          (omega (arith, before))
        ∙ sym (take-drop-append n (m * n) (take (k * n) c) (drop (k * n) c) (omega (arith, before)))
        ∙ ap (λ xs. chunk n xs m) (take-append-drop (k * n) c)

    splice_here : chunk n spliced k ≡ new
    unfolding spliced
    splice_here =
        let skip : k * n - length (take (k * n) c) ≡ 0 = omega (arith, before) in
        rw
          (
            drop-append_ge (k * n) (take (k * n) c) (new ++ drop (k * n + n) c)
                (omega (arith, before)),
            skip,
          )
          (ap (λ i. take i (new ++ drop (k * n + n) c)) (sym e)
            ∙ take-append new (drop (k * n + n) c))

    splice_above : (m : ℕ) → k * n + n ≤ m * n → chunk n spliced m ≡ chunk n c m
    unfolding spliced
    splice_above m ge =
        let skip : m * n - length (take (k * n) c) - length new + (k * n + n) ≡ m * n =
          omega (arith, before) in
        ap (take n) (
          drop-append_ge (m * n) (take (k * n) c) (new ++ drop (k * n + n) c)
            (omega (arith, before))
          ∙ drop-append_ge (m * n - length (take (k * n) c)) new (drop (k * n + n) c)
              (omega (arith, before))
          ∙ drop-drop (k * n + n) (m * n - length (take (k * n) c) - length new) c
          ∙ ap (λ i. drop i c) (omega arith))

    pub splice :
        (m : ℕ)
        → chunk n (take (k * n) c ++ (new ++ drop (k * n + n) c)) m
          ≡ (if m == k then new else chunk n c m)
    unfolding spliced
    splice m = elim (Bool-cases (m == k)) [
      | inl here ↦ rw (here, (==_iff m k).0 here) splice_here
      | inr other ↦ rw other (elim (Bool-cases (ltb m k)) [
        | inl lt ↦ splice_below m (mul-step m k n (ltb→lt m k lt))
        | inr ge ↦ splice_above m (mul-step k m n (ground arith))
      ])
    ]
