-- ===== src/SchemaPage/Changes.antt =====
-- `addTable` and `removeTable` of src/backend/SchemaPage.cpp.
use kndb.Base.{
  ℕ, leb, ◌==◌, ◌⊎◌, ◌^◌, ◌+◌, ◌-◌, ◌*◌, ◌<◌, ◌≤◌, ◌≡◌, refl, sym, subst, true, false, List, [],
  ◌∷◌, ◌++◌, Option, none, some, ok, aborts, length, arith, All, All-append, length-append,
  if◌then◌else◌, inl, inr, Bool-cases,
}
use kndb.Constants.{max_str_len, max_str_sz}
use kndb.Vari.Order.{same_string}
use kndb.Vari.Order.Laws.{same_string_iff, same_string_refl}
use kndb.SchemaPage.{SchemaPage, contains, emplace, erase, free_space, add_table, remove_table}
use kndb.SchemaPage.Names.{
  Fresh, IsEntry, IsSchema, table_id, gone, last, Fresh-append, Fresh-erase,
}

table_id-absent :
    (name : List ℕ) (tables : List (List ℕ × ℕ))
    → contains name tables ≡ false
    → table_id name tables ≡ none
unfolding table_id contains
table_id-absent name [] h = refl
table_id-absent name ((key, i) ∷ rest) h = ground (arith, h, table_id-absent name rest)

table_id-append :
    (name : List ℕ) (tables : List (List ℕ × ℕ)) (id : ℕ)
    → contains name tables ≡ false
    → table_id name (tables ++ (name, id) ∷ []) ≡ some id
unfolding table_id contains
table_id-append name [] id h = rw (same_string_refl name) refl
table_id-append name ((key, i) ∷ rest) id h = ground (arith, h, table_id-append name rest id)

table_id-append_other :
    (other name : List ℕ) (tables : List (List ℕ × ℕ)) (id : ℕ)
    → same_string name other ≡ false
    → table_id other (tables ++ (name, id) ∷ []) ≡ table_id other tables
unfolding table_id
table_id-append_other other name [] id h = rw h refl
table_id-append_other other name ((key, i) ∷ rest) id h =
    ground (arith, table_id-append_other other name rest id h)

table_id-erase :
    (before tables : List (List ℕ × ℕ)) (name : List ℕ)
    → Fresh before tables
    → table_id name (erase name tables) ≡ none
unfolding table_id erase
table_id-erase before [] name fresh = refl
table_id-erase before ((key, i) ∷ rest) name fresh = elim (Bool-cases (same_string key name)) [
  | inl same ↦
      rw same (gone (before ++ (key, i) ∷ []) rest name fresh.1 (last before key i name same))
  | inr other ↦ rw (other, other) (table_id-erase (before ++ (key, i) ∷ []) rest name fresh.1)
]

table_id-erase_other :
    (other name : List ℕ) (tables : List (List ℕ × ℕ))
    → same_string name other ≡ false
    → table_id other (erase name tables) ≡ table_id other tables
unfolding table_id erase
table_id-erase_other other name [] h = refl
table_id-erase_other other name ((key, i) ∷ rest) h = elim (Bool-cases (same_string key name)) [
  | inl same ↦
      let unlike : same_string key other ≡ false =
        subst (λ k. same_string k other ≡ false) (sym (same_string_iff key name same)) h in
      rw (same, unlike) refl
  | inr differs ↦ rw differs (ground (arith, table_id-erase_other other name rest h))
]

length-erase :
    (name : List ℕ) (tables : List (List ℕ × ℕ)) → length (erase name tables) ≤ length tables
unfolding erase
length-erase name [] = omega arith
length-erase name ((key, i) ∷ rest) = ground (arith, length-erase name rest)

entries-erase :
    (name : List ℕ) (tables : List (List ℕ × ℕ))
    → All IsEntry tables
    → All IsEntry (erase name tables)
unfolding erase
entries-erase name [] h = tt
entries-erase name ((key, i) ∷ rest) h = elim (Bool-cases (same_string key name)) [
  | inl same ↦ rw same h.1
  | inr differs ↦ rw differs (h.0, entries-erase name rest h.1)
]

-- The page after a change of the id of one name.
pub record Changed (p : SchemaPage) (name : List ℕ) (id : Option ℕ) (q : SchemaPage) : Type 0 where
  pub sound : IsSchema q
  pub page : q.page_id ≡ p.page_id
  pub here : table_id name q.tables ≡ id
  pub others :
      (other : List ℕ)
      → same_string name other ≡ false
      → table_id other q.tables ≡ table_id other p.tables

free_space_lem :
    (p : SchemaPage) → length p.tables ≤ 31 → free_space p ≡ 4094 - length p.tables * 132
unfolding free_space
free_space_lem p h = omega arith

name_lem :
    (name : List ℕ) (tables : List (List ℕ × ℕ))
    → All IsEntry tables
    → contains name tables ≡ true
    → (leb (length name) max_str_len ≡ true) × ((length name == 0) ≡ false)
unfolding contains
name_lem name [] h e = cc
name_lem name ((key, i) ∷ rest) h e = elim (Bool-cases (same_string key name)) [
  | inl same ↦
      subst (λ n. (leb (length n) max_str_len ≡ true) × ((length n == 0) ≡ false))
        (same_string_iff key name same) (ground (arith, h.0.0.0), ground (arith, h.0.1))
  | inr differs ↦ name_lem name rest h.1 (rw differs at e)
]

-- What `addTable` makes of the id of the name: an entry of the name is kept.
abbrev pub added : SchemaPage → List ℕ → ℕ → Option ℕ
added p name id = if contains name p.tables then table_id name p.tables else some id

module _ (p : SchemaPage) (s : IsSchema p) (name : List ℕ) where
  emplaced :
      (id : ℕ)
      → IsEntry (name, id)
      → length p.tables < 31
      → Changed p name (added p name id) (record p { tables = emplace name id p.tables })
  unfolding emplace
  emplaced id entry room = elim (Bool-cases (contains name p.tables)) [
    | inl there ↦
        rw there (record { sound = s; page = refl; here = refl; others = λ other h. refl })
    | inr new ↦ rw new (record {
      sound = record {
        few = omega (arith, room, length-append p.tables ((name, id) ∷ []));
        entries = All-append _ p.tables ((name, id) ∷ []) s.entries (entry, tt);
        fresh = Fresh-append [] p.tables name id s.fresh new;
      };
      page = refl;
      here = table_id-append name p.tables id new;
      others = λ other h. table_id-append_other other name p.tables id h;
    })
  ]

  erased : Changed p name none (record p { tables = erase name p.tables })
  erased = record {
    sound = record {
      few = omega (arith, s.few, length-erase name p.tables);
      entries = entries-erase name p.tables s.entries;
      fresh = Fresh-erase [] p.tables name s.fresh;
    };
    page = refl;
    here = table_id-erase [] p.tables name s.fresh;
    others = λ other h. table_id-erase_other other name p.tables h;
  }

  -- On a page of at most 31 tables with different names of 1 to 127 characters without NUL, addTable
  -- of a name without NUL returns if the name has 1 to 127 characters and there are fewer than 31
  -- tables, and stops the process if not. Where it returns the page is as good, the map has the id
  -- for the name, or the one it had if the name was there, and the same ids for other names.
  pub add_table_ends :
      (id : ℕ)
      → id < 2 ^ 32
      → All (λ c. 0 < c) name
      → ((0 < length name)
          × (length name ≤ max_str_len)
          × (length p.tables < 31)
          × (q : SchemaPage) × (add_table name id p ≡ ok tt q)
          × Changed p name (added p name id) q)
        ⊎ (((length name ≡ 0) ⊎ ((max_str_len < length name) ⊎ (length p.tables ≡ 31)))
            × (add_table name id p ≡ aborts))
  unfolding add_table
  add_table_ends id small good = elim (Bool-cases (leb (length name) max_str_len)) [
    | inr long ↦ inr (inr (inl (ground (arith, long))), rw long refl)
    | inl short ↦ elim (Bool-cases (length name == 0)) [
      | inl empty ↦ inr (inl (ground (arith, empty)), rw (short, empty) refl)
      | inr some_name ↦ elim (Bool-cases (leb (max_str_sz + 4) (free_space p))) [
        | inr full ↦ inr (
          inr (inr (ground (arith, full, free_space_lem p s.few, s.few))),
          rw (short, some_name, full) refl,
        )
        | inl room ↦
            let few : length p.tables < 31 = ground (arith, room, free_space_lem p s.few, s.few) in
            let nonempty : 0 < length name = ground (arith, some_name) in
            let fits : length name ≤ max_str_len = ground (arith, short) in
            inl (
              nonempty,
              fits,
              few,
              record p { tables = emplace name id p.tables },
              rw (short, some_name, room) refl,
              emplaced id ((fits, good), nonempty, small) few,
            )
      ]
    ]
  ]

  -- On a page of at most 31 tables with different names of 1 to 127 characters without NUL,
  -- removeTable of a name that the map has returns, and of another stops the process. Where it
  -- returns the page is as good, the map does not have the name, and the same ids for other names.
  pub remove_table_ends :
      ((contains name p.tables ≡ true)
        × (q : SchemaPage) × (remove_table name p ≡ ok tt q)
        × Changed p name none q)
      ⊎ ((contains name p.tables ≡ false) × (remove_table name p ≡ aborts))
  unfolding remove_table
  remove_table_ends = elim (Bool-cases (contains name p.tables)) [
    | inr missing ↦ inr (
      missing,
      elim (Bool-cases (leb (length name) max_str_len)) [
        | inr long ↦ rw long refl
        | inl short ↦ elim (Bool-cases (length name == 0)) [
          | inl empty ↦ rw (short, empty) refl
          | inr some_name ↦ rw (short, some_name, missing) refl
        ]
      ],
    )
    | inl there ↦
        let (short, some_name) = name_lem name p.tables s.entries there in
        inl (
          there,
          record p { tables = erase name p.tables },
          rw (short, some_name, there) refl,
          erased,
        )
  ]
