-- ===== src/Tests/EngineTests.antt =====
-- A run of the code of src/main.cpp on a small scale: a database is made, a table created, rows inserted.
use kndb.Base.{
  ℕ, true, List, [], ◌∷◌, Option, none, some, M, Outcome, ok, throws, aborts, undefined, pure,
  ◌>>=◌, ◌>>◌, zero, suc,
}
use kndb.Constants.{cache_sz}
use kndb.Posix.{Posix}
use kndb.Vari.{Vari, int, string}
use kndb.Vari.Codec.{Memory}
use kndb.SchemaPage
use kndb.Page.{schema, schema_kind}
use kndb.Cache.{PageCache}
use kndb.Pager.{create_new_page}
use kndb.Pager.Client.{Client}
use kndb.StorageEngine.{
  StorageEngine, open_engine, create_table, insert_tuple, get_tuple, get_num_tuples,
}

-- A file of which only the size is kept.
abbrev sized : Posix
sized = record {
  File = ℕ;
  open_file = λ name. some 0;
  fstat_size = λ f. some f;
  ftruncate = λ f n. some n;
  pwrite = λ f bs offset. some f;
  pread = λ f count offset. none;
  fsync = λ f. true;
  content = λ f. [];
}

abbrev memory : Memory
memory = record { past_end = λ s. []; page_buffer = [] }

abbrev empty : PageCache sized
empty = record {
  io = record { file = 0; blocks = 0 };
  capacity = cache_sz;
  list = [];
  map = λ id. none;
  next_addr = 0;
  next_object = 0;
}

abbrev students : List ℕ
students = b'S' ∷ b't' ∷ []

make_engine : M (PageCache sized) StorageEngine
make_engine = do
  r ← create_new_page sized memory schema_kind (λ id c. ok (schema (SchemaPage.new_page id)) c)
  open_engine sized memory 1

insert_rows : ℕ → M (Client sized StorageEngine) (Unit {0})
insert_rows zero = pure tt
insert_rows (suc n) = do
  b ← insert_tuple sized memory students (int n ∷ string (b'x' ∷ []) ∷ [])
  insert_rows n

session : ℕ → M (Client sized StorageEngine) (Option ℕ × Option (List Vari))
session rows = do
  create_table sized memory students (int 0 ∷ string [] ∷ [])
  insert_rows rows
  n ← get_num_tuples sized memory students
  t ← get_tuple sized memory students (int 3)
  pure (n, t)

result :
    ℕ → Outcome (PageCache sized) StorageEngine → Outcome (Unit {0}) (Option ℕ × Option (List Vari))
result rows (ok e c) = elim (session rows (record { pager = c; self = e })) [
  | ok a s ↦ ok a tt
  | throws e s ↦ throws e tt
  | aborts ↦ aborts
  | undefined ↦ undefined
]
result rows _ = undefined

run : ℕ → Outcome (Unit {0}) (Option ℕ × Option (List Vari))
run rows = result rows (make_engine empty)

-- Forty rows, of which the tree's root is split once: a term to evaluate.
run_forty : Outcome (Unit {0}) (Option ℕ × Option (List Vari))
run_forty = run 40
