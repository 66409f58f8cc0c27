-- ===== src/SchemaPage/Names.antt =====
-- The names of the tables on the page of src/backend/SchemaPage.cpp.
use kndb.Base.{
  ℕ, ◌^◌, ◌<◌, ◌≤◌, ◌≡◌, refl, sym, subst, ◌∙◌, true, false, List, [], ◌∷◌, ◌++◌, ◌||◌,
  append_assoc, append-nil, Option, none, some, length, arith, All, if◌then◌else◌, inl, inr,
  Bool-cases,
}
use kndb.Vari.{string, IsStorable}
use kndb.Vari.Order.{same_string}
use kndb.Vari.Order.Laws.{same_string_iff}
use kndb.SchemaPage.{SchemaPage, contains, emplace, erase}

-- Of the entries behind `before` each has a name that no earlier one has.
abbrev pub Fresh : List (List ℕ × ℕ) → List (List ℕ × ℕ) → Type 0
Fresh before [] = Unit
Fresh before ((name, id) ∷ rest) =
    (contains name before ≡ false) × Fresh (before ++ (name, id) ∷ []) rest

-- An entry that a page can keep: a name of 1 to 127 characters without NUL, and the id of a page.
abbrev pub IsEntry : List ℕ × ℕ → Type 0
IsEntry (name, id) = IsStorable (string name) × (0 < length name) × (id < 2 ^ 32)

-- A page of at most 31 tables with different names.
pub record IsSchema (p : SchemaPage) : Type 0 where
  pub few : length p.tables ≤ 31
  pub entries : All IsEntry p.tables
  pub fresh : Fresh [] p.tables

pub emplace_new :
    (name : List ℕ) (id : ℕ) (tables : List (List ℕ × ℕ))
    → contains name tables ≡ false
    → emplace name id tables ≡ tables ++ (name, id) ∷ []
unfolding emplace
emplace_new name id tables h = rw h refl

-- The id that the map has for a name.
unfoldable pub table_id : List ℕ → List (List ℕ × ℕ) → Option ℕ
table_id name [] = none
table_id name ((key, id) ∷ rest) = if same_string key name then some id else table_id name rest

contains-append :
    (name : List ℕ) (a b : List (List ℕ × ℕ))
    → contains name (a ++ b) ≡ (contains name a || contains name b)
unfolding contains
contains-append name [] b = refl
contains-append name ((key, id) ∷ a) b = ground (arith, contains-append name a b)

Fresh-less :
    (a b rest : List (List ℕ × ℕ))
    → ((k : List ℕ) → contains k a ≡ true → contains k b ≡ true)
    → Fresh b rest
    → Fresh a rest
Fresh-less a b [] h fresh = tt
Fresh-less a b ((name, id) ∷ rest) h fresh = (
  ground (arith, h name, fresh.0),
  Fresh-less (a ++ (name, id) ∷ []) (b ++ (name, id) ∷ []) rest more fresh.1,
)
  where
    more :
        (k : List ℕ)
        → contains k (a ++ (name, id) ∷ []) ≡ true
        → contains k (b ++ (name, id) ∷ []) ≡ true
    more k e = ground (
      arith,
      h k,
      e,
      contains-append k a ((name, id) ∷ []),
      contains-append k b ((name, id) ∷ []),
    )

pub Fresh-append :
    (before rest : List (List ℕ × ℕ)) (name : List ℕ) (id : ℕ)
    → Fresh before rest
    → contains name (before ++ rest) ≡ false
    → Fresh before (rest ++ (name, id) ∷ [])
Fresh-append before [] name id fresh h = (rw (append-nil before) at h, tt)
Fresh-append before ((key, i) ∷ rest) name id fresh h = (
  fresh.0,
  Fresh-append (before ++ (key, i) ∷ []) rest name id fresh.1
      (rw (append_assoc before ((key, i) ∷ []) rest) h),
)

pub Fresh-erase :
    (before rest : List (List ℕ × ℕ)) (name : List ℕ)
    → Fresh before rest
    → Fresh before (erase name rest)
unfolding erase
Fresh-erase before [] name fresh = tt
Fresh-erase before ((key, i) ∷ rest) name fresh = elim (Bool-cases (same_string key name)) [
  | inl same ↦ rw same (
      Fresh-less before (before ++ (key, i) ∷ []) rest
        (λ k e. ground (arith, e, contains-append k before ((key, i) ∷ []))) fresh.1)
  | inr other ↦ rw other (fresh.0, Fresh-erase (before ++ (key, i) ∷ []) rest name fresh.1)
]

pub last :
    (before : List (List ℕ × ℕ)) (key : List ℕ) (i : ℕ) (name : List ℕ)
    → same_string key name ≡ true
    → contains name (before ++ (key, i) ∷ []) ≡ true
unfolding contains
last [] key i name h = rw h refl
last ((k, j) ∷ before) key i name h = ground (arith, last before key i name h)

-- A name of an earlier entry is none of a later one.
pub gone :
    (before rest : List (List ℕ × ℕ)) (name : List ℕ)
    → Fresh before rest
    → contains name before ≡ true
    → table_id name rest ≡ none
unfolding table_id
gone before [] name fresh h = refl
gone before ((key, i) ∷ rest) name fresh h = elim (Bool-cases (same_string key name)) [
  | inl same ↦
      let e : key ≡ name = same_string_iff key name same in
      absurd (different (sym h ∙ subst (λ k. contains k before ≡ false) e fresh.0))
  | inr other ↦ rw other (
      gone (before ++ (key, i) ∷ []) rest name fresh.1
        (ground (arith, h, contains-append name before ((key, i) ∷ []))))
]
  where
    different : true ≡ false → ⊥
    different e = cc
