-- ===== src/Vari/Order/Laws.antt =====
-- The order of the keys of src/backend/Btree.tpp: but for floating point values that are no number, it is
-- that of sequences of numbers.
use kndb.Base.{
  ℕ, ◌≡◌, refl, sym, ap, ◌∙◌, true, false, List, [], ◌∷◌, ltb, ◌==◌, arith, inl, inr, Bool-cases,
}
use kndb.Vari.{Vari, int, char, bool, float, double, string}
use kndb.Vari.Order.{
  same_string, less_string, signed_rank, bool_rank, float_rank, is_number, index, less_value,
  equal_value, less, equal,
}

pub less_string_trans :
    (a b c : List ℕ) → less_string a b ≡ true → less_string b c ≡ true → less_string a c ≡ true
unfolding less_string
less_string_trans [] [] c h k = cc
less_string_trans [] (y ∷ b) [] h k = cc
less_string_trans [] (y ∷ b) (z ∷ c) h k = refl
less_string_trans (x ∷ a) [] c h k = cc
less_string_trans (x ∷ a) (y ∷ b) [] h k = cc
less_string_trans (x ∷ a) (y ∷ b) (z ∷ c) h k = ground (arith, less_string_trans a b c)

pub less_string_irrefl : (a : List ℕ) → less_string a a ≡ false
unfolding less_string
less_string_irrefl [] = refl
less_string_irrefl (x ∷ a) = ground (arith, less_string_irrefl a)

pub same_string_iff : (a b : List ℕ) → same_string a b ≡ true → a ≡ b
unfolding same_string
same_string_iff [] [] h = refl
same_string_iff [] (y ∷ b) h = cc
same_string_iff (x ∷ a) [] h = cc
same_string_iff (x ∷ a) (y ∷ b) h = ground (arith, same_string_iff a b)

pub less_string-total :
    (a b : List ℕ) → less_string a b ≡ false → same_string b a ≡ false → less_string b a ≡ true
unfolding less_string same_string
less_string-total [] [] h k = cc
less_string-total [] (y ∷ b) h k = cc
less_string-total (x ∷ a) [] h k = refl
less_string-total (x ∷ a) (y ∷ b) h k = ground (arith, less_string-total a b)

-- A key that is no NaN.
abbrev pub IsOrdinary : Vari → Type 0
IsOrdinary (float n) = is_number 32 23 n ≡ true
IsOrdinary (double n) = is_number 64 52 n ≡ true
IsOrdinary v = Unit

-- The kind of a key and its place among those of the kind.
abbrev pub key_code : Vari → List ℕ
key_code (int n) = 0 ∷ signed_rank 32 n ∷ []
key_code (char n) = 1 ∷ signed_rank 8 n ∷ []
key_code (bool b) = 2 ∷ bool_rank b ∷ []
key_code (float n) = 3 ∷ float_rank 32 n ∷ []
key_code (double n) = 4 ∷ float_rank 64 n ∷ []
key_code (string s) = 5 ∷ s

less_one : (i a b : ℕ) → less_string (i ∷ a ∷ []) (i ∷ b ∷ []) ≡ ltb a b
unfolding less_string
less_one i a b = ground arith

less_same : (i : ℕ) (s t : List ℕ) → less_string (i ∷ s) (i ∷ t) ≡ less_string s t
unfolding less_string
less_same i s t = ground arith

same_one : (i a b : ℕ) → same_string (i ∷ a ∷ []) (i ∷ b ∷ []) ≡ (a == b)
unfolding same_string
same_one i a b = ground arith

same_same : (i : ℕ) (s t : List ℕ) → same_string (i ∷ s) (i ∷ t) ≡ same_string s t
unfolding same_string
same_same i s t = ground arith

pub less-key_code :
    (v w : Vari) → IsOrdinary v → IsOrdinary w → less v w ≡ less_string (key_code v) (key_code w)
unfolding less less_value index less_string
less-key_code (int x) (int y) h k = sym (less_one 0 (signed_rank 32 x) (signed_rank 32 y))
less-key_code (int x) (char y) h k = refl
less-key_code (int x) (bool y) h k = refl
less-key_code (int x) (float y) h k = refl
less-key_code (int x) (double y) h k = refl
less-key_code (int x) (string y) h k = refl
less-key_code (char x) (int y) h k = refl
less-key_code (char x) (char y) h k = sym (less_one 1 (signed_rank 8 x) (signed_rank 8 y))
less-key_code (char x) (bool y) h k = refl
less-key_code (char x) (float y) h k = refl
less-key_code (char x) (double y) h k = refl
less-key_code (char x) (string y) h k = refl
less-key_code (bool x) (int y) h k = refl
less-key_code (bool x) (char y) h k = refl
less-key_code (bool x) (bool y) h k = sym (less_one 2 (bool_rank x) (bool_rank y))
less-key_code (bool x) (float y) h k = refl
less-key_code (bool x) (double y) h k = refl
less-key_code (bool x) (string y) h k = refl
less-key_code (float x) (int y) h k = refl
less-key_code (float x) (char y) h k = refl
less-key_code (float x) (bool y) h k = refl
less-key_code (float x) (float y) h k =
    rw (h, k) (sym (less_one 3 (float_rank 32 x) (float_rank 32 y)))
less-key_code (float x) (double y) h k = refl
less-key_code (float x) (string y) h k = refl
less-key_code (double x) (int y) h k = refl
less-key_code (double x) (char y) h k = refl
less-key_code (double x) (bool y) h k = refl
less-key_code (double x) (float y) h k = refl
less-key_code (double x) (double y) h k =
    rw (h, k) (sym (less_one 4 (float_rank 64 x) (float_rank 64 y)))
less-key_code (double x) (string y) h k = refl
less-key_code (string x) (int y) h k = refl
less-key_code (string x) (char y) h k = refl
less-key_code (string x) (bool y) h k = refl
less-key_code (string x) (float y) h k = refl
less-key_code (string x) (double y) h k = refl
less-key_code (string x) (string y) h k = sym (less_same 5 x y)

pub equal-key_code :
    (v w : Vari) → IsOrdinary v → IsOrdinary w → equal v w ≡ same_string (key_code v) (key_code w)
unfolding equal equal_value index same_string
equal-key_code (int x) (int y) h k = sym (same_one 0 (signed_rank 32 x) (signed_rank 32 y))
equal-key_code (int x) (char y) h k = refl
equal-key_code (int x) (bool y) h k = refl
equal-key_code (int x) (float y) h k = refl
equal-key_code (int x) (double y) h k = refl
equal-key_code (int x) (string y) h k = refl
equal-key_code (char x) (int y) h k = refl
equal-key_code (char x) (char y) h k = sym (same_one 1 (signed_rank 8 x) (signed_rank 8 y))
equal-key_code (char x) (bool y) h k = refl
equal-key_code (char x) (float y) h k = refl
equal-key_code (char x) (double y) h k = refl
equal-key_code (char x) (string y) h k = refl
equal-key_code (bool x) (int y) h k = refl
equal-key_code (bool x) (char y) h k = refl
equal-key_code (bool x) (bool y) h k = sym (same_one 2 (bool_rank x) (bool_rank y))
equal-key_code (bool x) (float y) h k = refl
equal-key_code (bool x) (double y) h k = refl
equal-key_code (bool x) (string y) h k = refl
equal-key_code (float x) (int y) h k = refl
equal-key_code (float x) (char y) h k = refl
equal-key_code (float x) (bool y) h k = refl
equal-key_code (float x) (float y) h k =
    rw (h, k) (sym (same_one 3 (float_rank 32 x) (float_rank 32 y)))
equal-key_code (float x) (double y) h k = refl
equal-key_code (float x) (string y) h k = refl
equal-key_code (double x) (int y) h k = refl
equal-key_code (double x) (char y) h k = refl
equal-key_code (double x) (bool y) h k = refl
equal-key_code (double x) (float y) h k = refl
equal-key_code (double x) (double y) h k =
    rw (h, k) (sym (same_one 4 (float_rank 64 x) (float_rank 64 y)))
equal-key_code (double x) (string y) h k = refl
equal-key_code (string x) (int y) h k = refl
equal-key_code (string x) (char y) h k = refl
equal-key_code (string x) (bool y) h k = refl
equal-key_code (string x) (float y) h k = refl
equal-key_code (string x) (double y) h k = refl
equal-key_code (string x) (string y) h k = sym (same_same 5 x y)

pub same_string_refl : (a : List ℕ) → same_string a a ≡ true
unfolding same_string
same_string_refl [] = refl
same_string_refl (x ∷ a) = ground (arith, same_string_refl a)

module _ (u v w : Vari) (hu : IsOrdinary u) (hv : IsOrdinary v) (hw : IsOrdinary w) where
  pub less_trans : less u v ≡ true → less v w ≡ true → less u w ≡ true
  less_trans h k =
      less-key_code u w hu hw
      ∙ less_string_trans (key_code u) (key_code v) (key_code w) (sym (less-key_code u v hu hv) ∙ h)
          (sym (less-key_code v w hv hw) ∙ k)

  pub equal→≡ : equal u v ≡ true → key_code u ≡ key_code v
  equal→≡ h = same_string_iff (key_code u) (key_code v) (sym (equal-key_code u v hu hv) ∙ h)

  -- A key that is less is not equal.
  pub less_not_equal : less u v ≡ true → equal v u ≡ false
  less_not_equal h = elim (Bool-cases (equal v u)) [
    | inr n ↦ n
    | inl y ↦
        let same = same_string_iff (key_code v) (key_code u) (sym (equal-key_code v u hv hu) ∙ y) in
        let before = sym (less-key_code u v hu hv) ∙ h in
        let here : less_string (key_code u) (key_code u) ≡ true =
          ap (less_string (key_code u)) (sym same) ∙ before in
        absurd (different (sym here ∙ less_string_irrefl (key_code u)))
  ]
    where
      different : true ≡ false → ⊥
      different e = cc

  pub less_not_same : less u v ≡ true → equal u v ≡ false
  less_not_same h = elim (Bool-cases (equal u v)) [
    | inr n ↦ n
    | inl y ↦
        let same = same_string_iff (key_code u) (key_code v) (sym (equal-key_code u v hu hv) ∙ y) in
        let before = sym (less-key_code u v hu hv) ∙ h in
        let here : less_string (key_code u) (key_code u) ≡ true =
          ap (less_string (key_code u)) same ∙ before in
        absurd (different (sym here ∙ less_string_irrefl (key_code u)))
  ]
    where
      different : true ≡ false → ⊥
      different e = cc

  pub not_less_not_equal : less u v ≡ false → equal v u ≡ false → less v u ≡ true
  not_less_not_equal h k =
      less-key_code v u hv hu
      ∙ less_string-total (key_code u) (key_code v) (sym (less-key_code u v hu hv) ∙ h)
          (sym (equal-key_code v u hv hu) ∙ k)

  -- Equal keys are equally more than others.
  pub less-equal : less u v ≡ true → equal w v ≡ true → less u w ≡ true
  less-equal h k =
      let same = same_string_iff (key_code w) (key_code v) (sym (equal-key_code w v hw hv) ∙ k) in
      less-key_code u w hu hw
      ∙ ap (less_string (key_code u)) same
      ∙ sym (less-key_code u v hu hv)
      ∙ h
