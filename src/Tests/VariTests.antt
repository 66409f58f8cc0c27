-- ===== src/Tests/VariTests.antt =====
-- Runs of the code of src/backend/utility.hpp and of the serialized form of a node.
use kndb.Base.{
  ℕ, ◌≡◌, refl, sym, arith, List, [], ◌∷◌, ◌++◌, replicate, length, length-replicate, length-append,
  All-replicate, ok, undefined, ◌<◌, true, false, inl,
}
use kndb.Constants.{pg_sz, max_str_sz, pgid_invalid}
use kndb.Cursor.{Cursor}
use kndb.Cursor.Laws.{at}
use kndb.Vari.{Vari, int, double, string, db_sizeof, type_of, calculate_degree, add_sizes}
use kndb.Vari.Codec.{Memory, IsMemory, db_serialize, db_deserialize}
use kndb.Vari.Codec.Roundtrip.{image, db_deserialize-db_serialize, db_deserialize_long_string}
use kndb.NodePage.{NodePage, well_shaped, max_keys, to_bytes, from_bytes}
use kndb.NodePage.Format.Fits.{IsNode}
use kndb.NodePage.Format.Roundtrip.{node_from_bytes-to_bytes}

pub memory : Memory
memory = record { past_end = λ s. replicate max_str_sz 7; page_buffer = replicate pg_sz 9 }

pub memory-IsMemory : IsMemory memory
unfolding memory
memory-IsMemory = record {
  reach = λ s. length-replicate {A = ℕ} max_str_sz 7;
  page = length-replicate {A = ℕ} pg_sz 9;
}

abbrev name : List ℕ
name = b'k' ∷ b'n' ∷ b'd' ∷ b'b' ∷ []

abbrev before_name : List ℕ
before_name = 1 ∷ 2 ∷ 3 ∷ []

abbrev after_name : List ℕ
after_name = 4 ∷ 5 ∷ []

abbrev room_for_name : List ℕ
room_for_name = replicate max_str_sz 0

db_deserialize-db_serialize_example :
    (written : List ℕ) × (length written ≡ db_sizeof (string name))
    × (db_serialize memory (string name) (at before_name (room_for_name ++ after_name))
        ≡ ok tt (at (before_name ++ written) after_name))
    × (db_deserialize (type_of (string name)) (at before_name (written ++ after_name))
        ≡ ok (string name) (at (before_name ++ written) after_name))
db_deserialize-db_serialize_example =
    db_deserialize-db_serialize memory memory-IsMemory (string name) (omega arith) (omega arith)
      before_name room_for_name after_name
      (unfold db_sizeof in length-replicate {A = ℕ} max_str_sz 0)
      (omega (arith, length-append room_for_name after_name, length-replicate {A = ℕ} max_str_sz 0))

db_deserialize_long_string_example :
    db_deserialize (string []) (at [] (image memory (string (replicate 200 b'x')) ++ []))
    ≡ undefined
db_deserialize_long_string_example =
    db_deserialize_long_string memory (replicate 200 b'x') [] [] memory-IsMemory (omega arith)
      (All-replicate (λ c. 0 < c) 200 b'x' (omega arith)) (omega arith)

-- The columns of the table that src/main.cpp creates, and the root of a tree over its rows.
abbrev students : List Vari
students = int 0 ∷ int 0 ∷ double 0 ∷ []

abbrev student_row : List Vari
student_row = int 7 ∷ int 21 ∷ double 3 ∷ []

abbrev students_root : NodePage
students_root = record {
  page_id = 5;
  degree = 83;
  parent_id = pgid_invalid;
  leaf = false;
  root = true;
  children = 6 ∷ 7 ∷ [];
  cells = record { key = int 7; value = student_row } ∷ [];
}

students_degree : calculate_degree (int 0) students ≡ 83
unfolding calculate_degree add_sizes db_sizeof
students_degree = refl

students_root-IsNode : IsNode (int 0) students students_root
unfolding well_shaped max_keys type_of
students_root-IsNode = record {
  shaped = refl;
  degree = sym students_degree;
  few = omega arith;
  cells = (
    (
      refl,
      refl,
      (omega arith, tt),
      ((omega arith, tt), ((omega arith, tt), ((omega arith, tt), tt))),
    ),
    tt,
  );
  parent = omega arith;
  children = (omega arith, (omega arith, tt));
  none_left = λ e. absurd (omega (arith, e));
}

node_from_bytes-to_bytes_example :
    (c : Cursor) × (d : Cursor) × (to_bytes memory students_root (replicate pg_sz 0) ≡ ok tt c)
    × (from_bytes c.bytes 5 ≡ ok students_root d)
node_from_bytes-to_bytes_example =
    node_from_bytes-to_bytes memory memory-IsMemory (int 0) students students_root (omega arith)
      (omega (arith, students_degree)) students_root-IsNode (inl (omega arith)) (replicate pg_sz 0)
      (length-replicate {A = ℕ} pg_sz 0)
