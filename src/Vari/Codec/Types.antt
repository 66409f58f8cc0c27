-- ===== src/Vari/Codec/Types.antt =====
-- The type ids of src/backend/utility.hpp on a page, for the pages that keep the types of columns.
use kndb.Base.{
  ℕ, ◌<◌, ◌≡◌, refl, Bool, true, List, [], ◌∷◌, ◌++◌, append-nil, M, ok, assume, ◌>>=◌, length,
  arith, length-append, subst,
}
use kndb.Base.Words.{word_bytes, length-word_bytes}
use kndb.Cursor.{Cursor}
use kndb.Cursor.Laws.{at, Reads, >>=-Reads}
use kndb.Vari.{
  Vari, int, char, bool, float, double, string, visit_type_id, variant_to_type_id,
  type_id_to_variant, type_of,
}

unfoldable pub type_bytes : List Vari → List ℕ
type_bytes [] = []
type_bytes (v ∷ vs) = word_bytes 1 (visit_type_id v) ++ type_bytes vs

pub length-type_bytes : (vs : List Vari) → length (type_bytes vs) ≡ length vs
unfolding type_bytes
length-type_bytes [] = refl
length-type_bytes (v ∷ vs) = omega (
  arith,
  length-append (word_bytes 1 (visit_type_id v)) (type_bytes vs),
  length-word_bytes 1 (visit_type_id v),
  length-type_bytes vs,
)

pub visit_type_id_small : (v : Vari) → visit_type_id v < 256
unfolding visit_type_id
visit_type_id_small (int n) = omega arith
visit_type_id_small (char n) = omega arith
visit_type_id_small (bool b) = omega arith
visit_type_id_small (float n) = omega arith
visit_type_id_small (double n) = omega arith
visit_type_id_small (string s) = omega arith

pub variant_to_type_id_lem :
    {S : Type 0} (v : Vari) (s : S) → variant_to_type_id v s ≡ ok (visit_type_id v) s
unfolding variant_to_type_id visit_type_id
variant_to_type_id_lem (int n) s = refl
variant_to_type_id_lem (char n) s = refl
variant_to_type_id_lem (bool b) s = refl
variant_to_type_id_lem (float n) s = refl
variant_to_type_id_lem (double n) s = refl
variant_to_type_id_lem (string t) s = refl

type_id_to_variant-visit_type_id :
    {S : Type 0} (v : Vari) (s : S) → type_id_to_variant (visit_type_id v) s ≡ ok (type_of v) s
unfolding type_id_to_variant visit_type_id type_of
type_id_to_variant-visit_type_id (int n) s = refl
type_id_to_variant-visit_type_id (char n) s = refl
type_id_to_variant-visit_type_id (bool b) s = refl
type_id_to_variant-visit_type_id (float n) s = refl
type_id_to_variant-visit_type_id (double n) s = refl
type_id_to_variant-visit_type_id (string t) s = refl

pub last-Reads {ℓ κ} :
    {A : Type ℓ} {B : Type κ} {m : M Cursor A} (f : A → M Cursor B) {a : List ℕ} {x : A} {y : B}
    → Reads m a x
    → Reads (f x) [] y
    → Reads (m >>= f) a y
last-Reads {m} f {a} {x} {y} h g = subst (λ s. Reads (m >>= f) s y) (append-nil a) (>>=-Reads f h g)

pub assume-Reads : {b : Bool} → b ≡ true → Reads (assume b) [] tt
assume-Reads e = record { run = λ before after small. rw (e, append-nil) }

pub type-Reads : (v : Vari) → Reads (type_id_to_variant (visit_type_id v)) [] (type_of v)
type-Reads v = record {
  run = λ before after small. rw (append-nil, type_id_to_variant-visit_type_id v (at before after));
}
