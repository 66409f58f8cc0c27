-- ===== src/Vari/Order.antt =====
-- `<` and `==` of `Vari` of src/backend/kndb_types.hpp, by which src/backend/Btree.tpp orders its keys: a
-- variant compares the indices of the alternatives, then the values.
pub mod Laws
use kndb.Base.{
  ℕ, ◌+◌, ◌-◌, ◌*◌, ◌/◌, ◌%◌, ◌^◌, Bool, true, false, not, List, [], ◌∷◌, ltb, ◌==◌, ◌&&◌,
  if◌then◌else◌,
}
use kndb.Vari.{Vari, int, char, bool, float, double, string}

-- `==` of strings.
unfoldable pub same_string : List ℕ → List ℕ → Bool
same_string [] [] = true
same_string (c ∷ s) (d ∷ t) = c == d && same_string s t
same_string _ _ = false

-- `<` of strings: by characters, as unsigned numbers.
unfoldable pub less_string : List ℕ → List ℕ → Bool
less_string [] [] = false
less_string [] (d ∷ t) = true
less_string (c ∷ s) [] = false
less_string (c ∷ s) (d ∷ t) = if c == d then less_string s t else ltb c d

-- The place of a bit pattern of `w` bits in the order of the two's complement numbers.
abbrev pub signed_rank : ℕ → ℕ → ℕ
signed_rank w n = (n + 2 ^ (w - 1)) % 2 ^ w

abbrev pub bool_rank : Bool → ℕ
bool_rank false = 0
bool_rank true = 1

-- The place of a bit pattern of `w` bits in the order of the IEEE numbers, the same for both zeros.
abbrev pub float_rank : ℕ → ℕ → ℕ
float_rank w n =
    if n / 2 ^ (w - 1) == 0 then 2 ^ (w - 1) + n % 2 ^ (w - 1) else 2 ^ (w - 1) - n % 2 ^ (w - 1)

-- A bit pattern of `w` bits, `m` of them the mantissa, is a number.
abbrev pub is_number : ℕ → ℕ → ℕ → Bool
is_number w m n = not (ltb ((2 ^ (w - 1 - m) - 1) * 2 ^ m) (n % 2 ^ (w - 1)))

-- `std::variant::index`
unfoldable pub index : Vari → ℕ
index (int n) = 0
index (char n) = 1
index (bool b) = 2
index (float n) = 3
index (double n) = 4
index (string s) = 5

-- `<` and `==` of two values of one alternative; `char` is signed.
unfoldable pub less_value : Vari → Vari → Bool
less_value (int a) (int b) = ltb (signed_rank 32 a) (signed_rank 32 b)
less_value (char a) (char b) = ltb (signed_rank 8 a) (signed_rank 8 b)
less_value (bool a) (bool b) = ltb (bool_rank a) (bool_rank b)
less_value (float a) (float b) =
    is_number 32 23 a && is_number 32 23 b && ltb (float_rank 32 a) (float_rank 32 b)
less_value (double a) (double b) =
    is_number 64 52 a && is_number 64 52 b && ltb (float_rank 64 a) (float_rank 64 b)
less_value (string s) (string t) = less_string s t
less_value _ _ = false

unfoldable pub equal_value : Vari → Vari → Bool
equal_value (int a) (int b) = signed_rank 32 a == signed_rank 32 b
equal_value (char a) (char b) = signed_rank 8 a == signed_rank 8 b
equal_value (bool a) (bool b) = bool_rank a == bool_rank b
equal_value (float a) (float b) =
    is_number 32 23 a && is_number 32 23 b && float_rank 32 a == float_rank 32 b
equal_value (double a) (double b) =
    is_number 64 52 a && is_number 64 52 b && float_rank 64 a == float_rank 64 b
equal_value (string s) (string t) = same_string s t
equal_value _ _ = false

unfoldable pub less : Vari → Vari → Bool
less v w = if index v == index w then less_value v w else ltb (index v) (index w)

unfoldable pub equal : Vari → Vari → Bool
equal v w = index v == index w && equal_value v w
