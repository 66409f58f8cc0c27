-- ===== src/Vari/Codec/Roundtrip.antt =====
-- What `db_serialize` lays down, `db_deserialize` of src/backend/utility.hpp takes up again.
use kndb.Base.{
  ℕ, zero, suc, ◌+◌, ◌<◌, ◌≤◌, ◌≡◌, refl, ap, Bool, true, false, List, [], ◌∷◌, ◌++◌, none, some, M,
  ok, undefined, ◌>>=◌, length, take, arith, All, length-append, length-take, drop, drop-append,
  ◌∙◌,
}
use kndb.Base.Words.{word_bytes, length-word_bytes}
use kndb.Constants.{max_str_sz, pg_sz}
use kndb.Cursor.{Cursor}
use kndb.Cursor.Laws.{
  Reads, Writes, at, read_bytes-Reads, write_bytes-Writes, read_word-Reads, write_word-Writes,
}
use kndb.Vari.{Vari, int, char, bool, float, double, string, IsVari, IsStorable, db_sizeof, type_of}
use kndb.Vari.Codec.{
  Memory, IsMemory, bool_byte, until_nul, c_string, byte_bool, db_deserialize_bool,
  db_serialize_bool, db_deserialize_string, string_image, db_serialize_string, db_deserialize,
  db_serialize,
}

-- The bytes of a value on a page.
unfoldable pub image : Memory → Vari → List ℕ
image mem (int n) = word_bytes 4 n
image mem (char n) = word_bytes 1 n
image mem (bool b) = word_bytes 1 (bool_byte b)
image mem (float n) = word_bytes 4 n
image mem (double n) = word_bytes 8 n
image mem (string s) = string_image mem s

module _ (mem : Memory) (good : IsMemory mem) where
  pub length-string_image : (s : List ℕ) → length (string_image mem s) ≡ max_str_sz
  unfolding string_image
  length-string_image s = omega (
    arith,
    length-take max_str_sz (s ++ 0 ∷ mem.past_end s),
    length-append s (0 ∷ mem.past_end s),
    good.reach s,
  )

  pub length-image : (v : Vari) → length (image mem v) ≡ db_sizeof v
  unfolding image db_sizeof
  length-image (int n) = length-word_bytes 4 n
  length-image (char n) = length-word_bytes 1 n
  length-image (bool b) = length-word_bytes 1 (bool_byte b)
  length-image (float n) = length-word_bytes 4 n
  length-image (double n) = length-word_bytes 8 n
  length-image (string s) = length-string_image s

until_nul-split : (s rest : List ℕ) → All (λ c. 0 < c) s → until_nul (s ++ 0 ∷ rest) ≡ some s
unfolding until_nul
until_nul-split [] rest h = refl
until_nul-split (c ∷ s) rest h = rw (until_nul-split s rest h.1) (ground arith)

until_nul-none : (s : List ℕ) → All (λ c. 0 < c) s → until_nul s ≡ none
unfolding until_nul
until_nul-none [] h = refl
until_nul-none (c ∷ s) h = rw (until_nul-none s h.1) (ground arith)

take-append-le :
    (n : ℕ) (s rest : List ℕ) → length s < n → (r : List ℕ) × (take n (s ++ 0 ∷ rest) ≡ s ++ 0 ∷ r)
take-append-le zero s rest h = elim h [ ]
take-append-le (suc n) [] rest h = (take n rest, refl)
take-append-le (suc n) (c ∷ s) rest h =
    let (r, e) = take-append-le n s rest (omega arith) in (r, ap (◌∷◌ c) e)

pub db_serialize-Writes : (mem : Memory) (v : Vari) → Writes (db_serialize mem v) (image mem v)
unfolding db_serialize image db_serialize_string db_serialize_bool
db_serialize-Writes mem (int n) = write_word-Writes 4 n
db_serialize-Writes mem (char n) = write_word-Writes 1 n
db_serialize-Writes mem (bool b) = write_word-Writes 1 (bool_byte b)
db_serialize-Writes mem (float n) = write_word-Writes 4 n
db_serialize-Writes mem (double n) = write_word-Writes 8 n
db_serialize-Writes mem (string s) = write_bytes-Writes (string_image mem s)

-- A reader whose value a total step turns into another.
pub Reads-map {ℓ κ} :
    {A : Type ℓ} {B : Type κ} {m : M Cursor A} (f : A → M Cursor B) {a : List ℕ} {x : A} {y : B}
    → Reads m a x
    → ((c : Cursor) → f x c ≡ ok y c)
    → Reads (m >>= f) a y
Reads-map f {a} {x} h g = record { run = λ before after small. rw (h.run before after small) (g _) }

pub byte_bool-Reads : (b : Bool) → Reads db_deserialize_bool (word_bytes 1 (bool_byte b)) b
unfolding db_deserialize_bool byte_bool
byte_bool-Reads true = Reads-map byte_bool (read_word-Reads 1 1 (omega arith)) (λ c. refl)
byte_bool-Reads false = Reads-map byte_bool (read_word-Reads 1 0 (omega arith)) (λ c. refl)

pub string-Reads :
    (mem : Memory)
    → IsMemory mem
    → (s : List ℕ) → IsStorable (string s)
    → Reads db_deserialize_string (string_image mem s) s
unfolding db_deserialize_string c_string string_image
string-Reads mem good s h =
    Reads-map c_string
      (read_bytes-Reads max_str_sz (string_image mem s) (length-string_image mem good s))
      (λ c. rw (whole, c_string))
  where
    whole : until_nul (string_image mem s) ≡ some s
    whole =
        let (r, e) = take-append-le max_str_sz s (mem.past_end s) (omega arith) in
        rw (string_image, e) (until_nul-split s r h.1)

pub db_deserialize-Reads :
    (mem : Memory)
    → IsMemory mem
    → (v : Vari) → IsVari v
    → IsStorable v
    → Reads (db_deserialize (type_of v)) (image mem v) v
unfolding db_deserialize image type_of
db_deserialize-Reads mem good (int n) h k =
    Reads-map _ (read_word-Reads 4 n (omega arith)) (λ c. refl)
db_deserialize-Reads mem good (char n) h k =
    Reads-map _ (read_word-Reads 1 n (omega arith)) (λ c. refl)
db_deserialize-Reads mem good (bool b) h k = Reads-map _ (byte_bool-Reads b) (λ c. refl)
db_deserialize-Reads mem good (float n) h k =
    Reads-map _ (read_word-Reads 4 n (omega arith)) (λ c. refl)
db_deserialize-Reads mem good (double n) h k =
    Reads-map _ (read_word-Reads 8 n (omega arith)) (λ c. refl)
db_deserialize-Reads mem good (string s) h k = Reads-map _ (string-Reads mem good s k) (λ c. refl)

drop_past : (room after : List ℕ) (n : ℕ) → length room ≡ n → drop n (room ++ after) ≡ after
drop_past room after n e = rw (← e) (drop-append room after)

-- A value that fits a cell, written by db_serialize over as many bytes as its type has, anywhere on
-- a page, changes these bytes only, and db_deserialize at its type reads it back from there.
pub db_deserialize-db_serialize :
    (mem : Memory)
    → IsMemory mem
    → (v : Vari) → IsVari v
    → IsStorable v
    → (before room after : List ℕ) → length room ≡ db_sizeof v
    → length before + length (room ++ after) ≤ pg_sz
    → (written : List ℕ) × (length written ≡ db_sizeof v)
      × (db_serialize mem v (at before (room ++ after)) ≡ ok tt (at (before ++ written) after))
      × (db_deserialize (type_of v) (at before (written ++ after))
          ≡ ok v (at (before ++ written) after))
db_deserialize-db_serialize mem good v h k before room after size small =
    let wide = length-image mem good v in
    let whole = length-append room after in
    (
      image mem v,
      wide,
      (db_serialize-Writes mem v).run before (room ++ after) (omega arith) small
          ∙ rw (drop_past room after (length (image mem v)) (omega arith)) refl,
      (db_deserialize-Reads mem good v h k).run before after (omega arith),
    )

take_long :
    (n : ℕ) (s rest : List ℕ)
    → n ≤ length s
    → All (λ c. 0 < c) s
    → All (λ c. 0 < c) (take n (s ++ rest))
take_long zero s rest h k = tt
take_long (suc n) [] rest h k = absurd (omega arith)
take_long (suc n) (c ∷ s) rest h k = (k.0, take_long n s rest (omega arith) k.1)

-- A string with no NUL among 128 or more characters is stored without a terminator: reading it back
-- runs off the end of the local buffer.
pub db_deserialize_long_string :
    (mem : Memory) (s before after : List ℕ)
    → IsMemory mem
    → max_str_sz ≤ length s
    → All (λ c. 0 < c) s
    → length before + max_str_sz ≤ pg_sz
    → db_deserialize (string []) (at before (image mem (string s) ++ after)) ≡ undefined
unfolding db_deserialize image db_deserialize_string c_string string_image
db_deserialize_long_string mem s before after good long h small =
    rw
      ((read_bytes-Reads max_str_sz (string_image mem s) (length-string_image mem good s)).run
        before after (omega (arith, length-string_image mem good s)))
      (rw (until_nul-none (string_image mem s) (take_long max_str_sz s _ long h), c_string))
