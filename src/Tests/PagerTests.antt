-- ===== src/Tests/PagerTests.antt =====
-- Runs of the code of src/backend/Pager.{cpp,tpp} on a database with one FSM page and one table page.
use kndb.Base.{
  ltb, ltb→lt, ◌≤◌, ℕ, ◌+◌, ◌*◌, ◌/◌, ◌%◌, ◌<◌, ◌≡◌, refl, sym, ap, subst, ◌∙◌, true, false, List,
  [], ◌∷◌, none, some, ok, pure, ◌==◌, if◌then◌else◌, arith, inl, inr, map, ==_iff, Bool-cases,
  length, length-replicate, replicate, All-replicate, ◌-◌,
}
use kndb.Constants.{pg_sz, cache_sz, pgid_invalid}
use kndb.Io.{IoHandler}
use kndb.Io.Blocks.{IsValid}
use kndb.Fsm.{FsmPage, bitmap_bytes, get_blocks_in_page}
use kndb.Fsm.Invariant
use kndb.Fsm.{bit_is_free}
use kndb.FreeSpaceMap.Others.{is_map}
use kndb.Fsm.Bits.{zeros}
use kndb.Fsm.Bitmap.{zeros_in, free_at}
use kndb.Fsm.Scan.{zeros_in-replicate}
use kndb.TablePage.{TablePage}
use kndb.Pager.{is_free}
use kndb.Page.{Page, fsm, table, table_kind, node, node_kind}
use kndb.Vari.{int}
use kndb.NodePage.{Cell, NodePage, new_page}
use kndb.Cache.{Owned, PageCache}
use kndb.Cache.Entries.{Entry, node_of, addr_of, find_id}
use kndb.Cache.Views.{Shows}
use kndb.FreeSpaceMap.Steps.{View, FsmAt, FsmAt-unique}
use kndb.FreeSpaceMap.Invariant.{Sound}
use kndb.FreeSpaceMap.Invariant as Map
use kndb.Pager.Invariant.{IsOpen}
use kndb.Pager.Access.{
  is_free_now, GetEnds, FreePageEnds, pager_is_free_lem, get_page_ends, free_page_ends,
}
use kndb.Pager.Ends.{CreateEnds, FirstEnds, create_new_page_ends, create_first_page_ends}
use kndb.Tests.IoTests.{ram, ram-PosixLaws}
use kndb.Tests.VariTests.{memory}

-- A file of as many blocks as an FSM page stands for.
zeros_file : ℕ → List ℕ
zeros_file n = replicate n 0

length-zeros_file : (n : ℕ) → length (zeros_file n) ≡ n
unfolding zeros_file
length-zeros_file n = length-replicate {A = ℕ} n 0

pub vast : IoHandler ram
vast = record { file = zeros_file (get_blocks_in_page * pg_sz); blocks = get_blocks_in_page }

vast-IsValid : IsValid ram vast
unfolding vast
vast-IsValid = record {
  covers = omega (arith, length-zeros_file (get_blocks_in_page * pg_sz));
  few = omega arith;
}

vast_blocks : vast.blocks ≡ get_blocks_in_page
unfolding vast
vast_blocks = refl

-- The blocks 0 to 4 are in use.
pub map_bitmap : ℕ → List ℕ
map_bitmap n = 31 ∷ replicate n 0

abbrev pub map_page : FsmPage
map_page = record {
  page_id = 0;
  bitmap = map_bitmap 4083;
  next_page_id = pgid_invalid;
  free_blocks = get_blocks_in_page - 5;
}

map_bitmap-IsValid :
    (n : ℕ) → n + 1 ≡ bitmap_bytes → Invariant.IsValid (record map_page { bitmap = map_bitmap n })
unfolding map_bitmap zeros_in zeros
map_bitmap-IsValid n e = record {
  long = omega (arith, length-replicate {A = ℕ} n 0);
  short = omega (arith, length-replicate {A = ℕ} n 0);
  bytes = (omega arith, All-replicate (λ b. b < 256) n 0 (omega arith));
  counted =
      let rest : n ≡ 4083 = omega arith in
      let free =
        subst (λ k. zeros_in 4083 (replicate k 0) ≡ 4083 * 8) (sym rest)
          (zeros_in-replicate 4083) in
      omega (arith, free);
}

free_at-map_bitmap : (n i : ℕ) → i < 5 → free_at (map_bitmap n) i ≡ false
unfolding map_bitmap free_at bit_is_free
free_at-map_bitmap n i lt =
    let byte : i / 8 ≡ 0 = omega arith in
    let bit : i % 8 ≡ i = omega arith in
    rw (byte, bit)
      (elim (Bool-cases (i == 0)) [
        | inl y ↦ let here : i ≡ 0 = (==_iff i 0).0 y in rw here
        | inr a ↦ elim (Bool-cases (i == 1)) [
          | inl y ↦ let here : i ≡ 1 = (==_iff i 1).0 y in rw here
          | inr b ↦ elim (Bool-cases (i == 2)) [
            | inl y ↦ let here : i ≡ 2 = (==_iff i 2).0 y in rw here
            | inr c ↦ elim (Bool-cases (i == 3)) [
              | inl y ↦ let here : i ≡ 3 = (==_iff i 3).0 y in rw here
              | inr d ↦ let here : i ≡ 4 = ground (arith, a, b, c, d) in rw here
            ]
          ]
        ]
      ])

abbrev pub row : ℕ → Cell
row n = record { key = int n; value = int n ∷ [] }

abbrev pub root_node : NodePage
root_node = record (new_page 2 pgid_invalid true false 1) {
  children = 2 ∷ 3 ∷ [];
  cells = row 5 ∷ [];
}

abbrev pub left_node : NodePage
left_node = record (new_page 2 1 false true 2) { cells = row 3 ∷ [] }

abbrev pub right_node : NodePage
right_node = record (new_page 2 1 false true 3) { cells = row 7 ∷ row 8 ∷ [] }

abbrev pub table_page : TablePage
table_page = record { page_id = 4; types = int 0 ∷ []; btree_page_id = 1; num_tuples = 4 }

pub pages : View
pages id =
    if id == 0
    then some (record { object = 0; page = fsm map_page })
    else if id == 1
    then some (record { object = 1; page = node root_node })
    else if id == 2
    then some (record { object = 2; page = node left_node })
    else if id == 3
    then some (record { object = 3; page = node right_node })
    else if id == 4
    then some (record { object = 4; page = table table_page })
    else none

at_map : FsmAt pages 0 map_page
unfolding pages
at_map = record { object = 0; shown = refl }

pub at_root : pages 1 ≡ some (record { object = 1; page = node root_node })
unfolding pages
at_root = refl

pub at_left : pages 2 ≡ some (record { object = 2; page = node left_node })
unfolding pages
at_left = refl

pub at_right : pages 3 ≡ some (record { object = 3; page = node right_node })
unfolding pages
at_right = refl

pub at_table : pages 4 ≡ some (record { object = 4; page = table table_page })
unfolding pages
at_table = refl

pages_beyond : (id : ℕ) → 5 ≤ id → pages id ≡ none
unfolding pages
pages_beyond id h =
    let a : (id == 0) ≡ false = ground arith in
    let b : (id == 1) ≡ false = ground arith in
    let c : (id == 2) ≡ false = ground arith in
    let d : (id == 3) ≡ false = ground arith in
    let e : (id == 4) ≡ false = ground arith in rw (a, b, c, d, e)

pages_within : (id : ℕ) (o : Owned) → pages id ≡ some o → id < 5
pages_within id o e = elim (Bool-cases (ltb id 5)) [
  | inl y ↦ ltb→lt id 5 y
  | inr n ↦ absurd (nothing (sym (pages_beyond id (ground arith)) ∙ e))
]
  where
    nothing : none ≡ some o → ⊥
    nothing h = cc

not_map : (id : ℕ) → (id == 0) ≡ false → is_map (pages id) ≡ false
unfolding pages
not_map id n = elim (Bool-cases (id == 1)) [
  | inl y ↦ rw (n, y)
  | inr a ↦ elim (Bool-cases (id == 2)) [
    | inl y ↦ rw (n, a, y)
    | inr b ↦ elim (Bool-cases (id == 3)) [
      | inl y ↦ rw (n, a, b, y)
      | inr c ↦ elim (Bool-cases (id == 4)) [
        | inl y ↦ rw (n, a, b, c, y)
        | inr d ↦ rw (n, a, b, c, d)
      ]
    ]
  ]
]

map_only : (id : ℕ) (p : FsmPage) → FsmAt pages id p → (id ≡ 0) × (p ≡ map_page)
map_only id p k = elim (Bool-cases (id == 0)) [
  | inl y ↦
      let zero : id ≡ 0 = (==_iff id 0).0 y in
      (zero, FsmAt-unique pages 0 p map_page (subst (λ j. FsmAt pages j p) zero k) at_map)
  | inr n ↦ absurd (different (sym (ap is_map k.shown) ∙ not_map id n))
]
  where
    different : true ≡ false → ⊥
    different h = cc

map_page-Sound : Sound 0 map_page
map_page-Sound = record {
  valid = map_bitmap-IsValid 4083 refl;
  own = refl;
  placed = refl;
  bounded = omega arith;
}

pages-IsValid : Map.IsValid pages []
pages-IsValid = record {
  first = map_page;
  at_first = at_map;
  chain = refl;
  pages = λ id p k.
      let (zero, same) = map_only id p k in
      subst (λ j. Sound j p) (sym zero) (subst (Sound 0) (sym same) map_page-Sound);
  listed = λ id p k out off. absurd (out (map_only id p k).0);
}

abbrev pub entries : List Entry
entries =
    record { addr = 4; owned = record { object = 0; page = fsm map_page } }
    ∷ record { addr = 3; owned = record { object = 1; page = node root_node } }
    ∷ record { addr = 2; owned = record { object = 2; page = node left_node } }
    ∷ record { addr = 1; owned = record { object = 3; page = node right_node } }
    ∷ record { addr = 0; owned = record { object = 4; page = table table_page } }
    ∷ []

abbrev pub cache : PageCache ram
cache = record {
  io = vast;
  capacity = cache_sz;
  list = map node_of entries;
  map = λ id. addr_of (find_id id entries);
  next_addr = 5;
  next_object = 5;
}

cache-Shows : Shows cache pages
unfolding pages find_id
cache-Shows = record {
  entries = entries;
  holds = record {
    nodes = refl;
    indexed = λ id. refl;
    distinct = (
      omega arith,
      (
        (λ s. absurd (omega arith)),
        (
          (λ s. absurd (omega arith)),
          ((λ s. absurd (omega arith)), ((λ s. absurd (omega arith)), tt)),
        ),
      ),
      (
        (λ s. absurd (omega arith)),
        (
          (λ s. absurd (omega arith)),
          ((λ s. absurd (omega arith)), ((λ s. absurd (omega arith)), tt)),
        ),
      ),
      (
        omega arith,
        (
          (λ s. absurd (omega arith)),
          ((λ s. absurd (omega arith)), ((λ s. absurd (omega arith)), tt)),
        ),
        (
          (λ s. absurd (omega arith)),
          ((λ s. absurd (omega arith)), ((λ s. absurd (omega arith)), tt)),
        ),
        (
          omega arith,
          ((λ s. absurd (omega arith)), ((λ s. absurd (omega arith)), tt)),
          ((λ s. absurd (omega arith)), ((λ s. absurd (omega arith)), tt)),
          (
            omega arith,
            ((λ s. absurd (omega arith)), tt),
            ((λ s. absurd (omega arith)), tt),
            (omega arith, tt, tt, tt),
          ),
        ),
      ),
    );
  };
  within = omega arith;
  objects = (
    (
      (λ s. absurd (omega arith)),
      (
        (λ s. absurd (omega arith)),
        ((λ s. absurd (omega arith)), ((λ s. absurd (omega arith)), tt)),
      ),
    ),
    (
      (
        (λ s. absurd (omega arith)),
        ((λ s. absurd (omega arith)), ((λ s. absurd (omega arith)), tt)),
      ),
      (
        ((λ s. absurd (omega arith)), ((λ s. absurd (omega arith)), tt)),
        (((λ s. absurd (omega arith)), tt), (tt, tt)),
      ),
    ),
  );
  fresh = (omega arith, (omega arith, (omega arith, (omega arith, (omega arith, tt)))));
  shown = λ id. ground arith;
}

pub no_map_free : (id : ℕ) → id < 5 → Map.free_id pages id ≡ false
no_map_free id lt =
    let page : id / get_blocks_in_page * get_blocks_in_page ≡ 0 = omega arith in
    let bit : id % get_blocks_in_page ≡ id = omega arith in
    rw (page, bit, at_map.shown, free_at-map_bitmap 4083 id lt) (ground arith)

pub cache-IsOpen : IsOpen cache pages []
cache-IsOpen = record {
  shows = cache-Shows;
  map = pages-IsValid;
  file = vast-IsValid;
  covered = λ n lt.
      let page : n / get_blocks_in_page * get_blocks_in_page ≡ 0 = omega (arith, vast_blocks) in
      (map_page, subst (λ j. FsmAt pages j map_page) (sym page) at_map);
  within = λ id o e. omega (arith, pages_within id o e, vast_blocks);
  own = λ id lt placed. no_map_free id (omega (arith, vast_blocks));
  whole = rw vast_blocks;
  few = omega (arith, vast_blocks);
  room = omega arith;
}

pager_is_free_example :
    (c' : PageCache ram) × (is_free ram memory 1 cache
      ≡ ok (is_free_now ram memory cache pages [] cache-IsOpen 1) c')
    × IsOpen c' pages []
pager_is_free_example = pager_is_free_lem ram memory cache pages [] cache-IsOpen 1

get_page_example :
    GetEnds ram memory cache pages [] cache-IsOpen node_kind 1
      (record { object = 1; page = node root_node })
get_page_example = get_page_ends ram memory cache pages [] cache-IsOpen node_kind 1 _ at_root

free_page_example : FreePageEnds ram memory cache pages [] cache-IsOpen 1
free_page_example = free_page_ends ram memory cache pages [] cache-IsOpen 1 (λ e. omega arith)

abbrev new_table : ℕ → Page
new_table id =
    table (record { page_id = id; types = []; btree_page_id = pgid_invalid; num_tuples = 0 })

create_new_page_example :
    CreateEnds ram memory ram-PosixLaws table_kind
      (λ n. pure (new_table n))
      new_table
      (λ n c. refl)
      (λ n. refl)
      (λ n. refl)
      (λ n. refl)
      cache
      pages
      []
create_new_page_example =
    create_new_page_ends ram memory ram-PosixLaws table_kind (λ n. pure (new_table n)) new_table
      (λ n c. refl) (λ n. refl) (λ n. refl) (λ n. refl) cache pages [] cache-IsOpen

abbrev empty_cache : PageCache ram
empty_cache = record {
  io = record { file = []; blocks = 0 };
  capacity = cache_sz;
  list = [];
  map = λ id. none;
  next_addr = 0;
  next_object = 0;
}

empty_cache-Shows : Shows empty_cache (λ id. none)
unfolding find_id
empty_cache-Shows = record {
  entries = [];
  holds = record { nodes = refl; indexed = λ id. refl; distinct = tt };
  within = omega arith;
  objects = tt;
  fresh = tt;
  shown = λ id. refl;
}

empty_cache-IsValid : IsValid ram empty_cache.io
empty_cache-IsValid = record { covers = omega arith; few = omega arith }

create_first_page_example :
    FirstEnds ram memory ram-PosixLaws table_kind
      (λ n. pure (new_table n))
      new_table
      (λ n c. refl)
      (λ n. refl)
      (λ n. refl)
      (λ n. refl)
      empty_cache
      (λ id. none)
create_first_page_example =
    create_first_page_ends ram memory ram-PosixLaws table_kind (λ n. pure (new_table n)) new_table
      (λ n c. refl) (λ n. refl) (λ n. refl) (λ n. refl) empty_cache (λ id. none) empty_cache-Shows
      (λ id. refl) empty_cache-IsValid refl (omega arith)
