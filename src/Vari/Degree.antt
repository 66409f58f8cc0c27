-- ===== src/Vari/Degree.antt =====
-- `calculateDegree` of src/backend/utility.hpp, and the cells and children of a node of that degree.
use kndb.Base.{
  ℕ, zero, suc, ◌+◌, ◌*◌, ◌-◌, ◌/◌, ◌%◌, ◌<◌, ◌≤◌, ◌^◌, ◌≡◌, List, [], ◌∷◌, length, arith,
}
use kndb.Constants.{pg_sz, max_str_sz}
use kndb.Vari.{
  Vari, int, char, bool, float, double, string, db_sizeof, add_sizes, calculate_degree,
  metadata_buffer,
}

-- The size of a row, with no word to overflow.
unfoldable pub row_size : List Vari → ℕ
row_size [] = 0
row_size (v ∷ vs) = db_sizeof v + row_size vs

pub db_sizeof_bounds : (v : Vari) → (1 ≤ db_sizeof v) × (db_sizeof v ≤ max_str_sz)
unfolding db_sizeof
db_sizeof_bounds (int n) = omega arith
db_sizeof_bounds (char n) = omega arith
db_sizeof_bounds (bool b) = omega arith
db_sizeof_bounds (float n) = omega arith
db_sizeof_bounds (double n) = omega arith
db_sizeof_bounds (string s) = omega arith

row_size-le : (vs : List Vari) → row_size vs ≤ length vs * max_str_sz
unfolding row_size
row_size-le [] = omega arith
row_size-le (v ∷ vs) = omega (arith, row_size-le vs, db_sizeof_bounds v)

add_sizes-row_size :
    (n : ℕ) (vs : List Vari) → n + row_size vs < 2 ^ 16 → add_sizes n vs ≡ n + row_size vs
unfolding add_sizes row_size
add_sizes-row_size n [] h = omega arith
add_sizes-row_size n (v ∷ vs) h =
    omega (arith, add_sizes-row_size ((n + db_sizeof v) % 2 ^ 16) vs (omega arith))

cell_size_lem :
    (key : Vari) (vs : List Vari)
    → length vs ≤ 500
    → add_sizes (db_sizeof key) vs ≡ db_sizeof key + row_size vs
cell_size_lem key vs h =
    add_sizes-row_size (db_sizeof key) vs (omega (arith, row_size-le vs, db_sizeof_bounds key))

fits_lem : (c d : ℕ) → 1 ≤ d → d * (2 * (c + 4)) ≤ 3996 + c → (2 * d - 1) * c + 2 * d * 4 ≤ 3996
fits_lem c zero p h = elim p [ ]
fits_lem c (suc d) p h = let odd : 2 * suc d - 1 ≡ 2 * d + 1 = omega arith in rw odd (omega arith)

quotient_fits :
    (c : ℕ)
    → 1 ≤ (3996 + c) / (2 * (c + 4))
    → (2 * ((3996 + c) / (2 * (c + 4))) - 1) * c + 2 * ((3996 + c) / (2 * (c + 4))) * 4 ≤ 3996
quotient_fits c h = fits_lem c _ h (omega arith)

small_factor : (c q : ℕ) → q * (2 * (c + 4)) ≤ 3996 + c → q < 2 ^ 16
small_factor c q h = grind arith

quotient_small : (c : ℕ) → ((3996 + c) / (2 * (c + 4))) % 2 ^ 16 ≡ (3996 + c) / (2 * (c + 4))
quotient_small c = omega (arith, small_factor c ((3996 + c) / (2 * (c + 4))) (omega arith))

calculate_degree_lem :
    (key : Vari) (values : List Vari)
    → length values ≤ 500
    → calculate_degree key values
      ≡ (3996 + (db_sizeof key + row_size values)) / (2 * (db_sizeof key + row_size values + 4))
unfolding calculate_degree
calculate_degree_lem key values few = rw (cell_size_lem key values few) (quotient_small _)

-- `2 * degree - 1` cells and `2 * degree` children leave `metadata_buffer` bytes of a page.
pub calculate_degree_fits :
    (key : Vari) (values : List Vari)
    → length values ≤ 500
    → 1 ≤ calculate_degree key values
    → (2 * calculate_degree key values - 1) * (db_sizeof key + row_size values)
        + 2 * calculate_degree key values * 4
        + metadata_buffer
      ≤ pg_sz
unfolding calculate_degree
calculate_degree_fits key values few some_degree = rw (calculate_degree_lem key values few) (
    omega (
      arith,
      quotient_fits (db_sizeof key + row_size values)
          (rw (calculate_degree_lem key values few) at some_degree),
    ))
