-- ===== src/Io.antt =====
-- src/backend/IOHandler.{hpp,cpp}: the blocks of the database file. Block numbers and sizes are 32 bits
-- wide. An exception leaves the object as it is at the throw.
pub mod Splice
pub mod Blocks
pub mod Grow
use kndb.Base.{
  ℕ, ◌+◌, ◌-◌, ◌*◌, ◌/◌, ◌%◌, ◌^◌, List, ◌++◌, Option, none, some, M, Outcome, ok, throws,
  runtime_error, assume, require, pure, get_state, put_state, ◌>>=◌, ◌>>◌, ltb, length, drop, Bool,
}
use kndb.Constants.{pg_sz}
use kndb.Posix.{Posix}

pub record IoHandler (os : Posix) : Type 0 where
  pub file : os.File
  pub blocks : ℕ

module _ (os : Posix) where
  -- A system call on the file: `if (… == -1) throw std::runtime_error(…);`
  abbrev pub call {ℓ} : {A : Type ℓ} → (os.File → Option A) → M (IoHandler os) A
  call f h = elim (f h.file) [ none ↦ throws runtime_error h | some a ↦ ok a h ]

  abbrev pub set_file : os.File → M (IoHandler os) (Unit {0})
  set_file file h = ok tt (record h { file = file })

  abbrev pub set_blocks : ℕ → M (IoHandler os) (Unit {0})
  set_blocks n h = ok tt (record h { blocks = n })

  unfoldable pub get_num_blocks : M (IoHandler os) ℕ
  get_num_blocks h = ok h.blocks h

  -- The constructor.
  unfoldable pub open_handler : List ℕ → M (Unit {0}) (IoHandler os)
  open_handler file_name s = elim (os.open_file file_name) [
    | none ↦ throws runtime_error s
    | some file ↦ elim (os.fstat_size file) [
      | none ↦ throws runtime_error s
      | some size ↦ ok (record { file = file; blocks = size / pg_sz % 2 ^ 32 }) s
    ]
  ]

  unfoldable pub create_new_block : M (IoHandler os) ℕ
  create_new_block = do
    h ← get_state
    set_blocks ((h.blocks + 1) % 2 ^ 32)
    h ← get_state
    let new_sz = h.blocks * pg_sz % 2 ^ 32
    file ← call (λ f. os.ftruncate f new_sz)
    set_file file
    pure ((h.blocks + 2 ^ 32 - 1) % 2 ^ 32)

  unfoldable pub create_multiple_blocks : ℕ → M (IoHandler os) ℕ
  create_multiple_blocks num_blocks = do
    assume (ltb 0 num_blocks)
    h ← get_state
    let new_sz = (h.blocks + num_blocks) % 2 ^ 32 * pg_sz % 2 ^ 32
    file ← call (λ f. os.ftruncate f new_sz)
    set_file file
    set_blocks ((h.blocks + num_blocks) % 2 ^ 32)
    h ← get_state
    pure ((h.blocks + 2 ^ 32 - num_blocks) % 2 ^ 32)

  unfoldable pub write_block : List ℕ → ℕ → M (IoHandler os) (Unit {0})
  write_block arr block_no = do
    h ← get_state
    require (ltb block_no h.blocks) runtime_error
    file ← call (λ f. os.pwrite f arr (block_no * pg_sz % 2 ^ 32))
    set_file file
    require (os.fsync file) runtime_error

  -- What is read lies over the start of the buffer that the caller passes.
  unfoldable pub read_block : List ℕ → ℕ → M (IoHandler os) (List ℕ)
  read_block arr block_no = do
    h ← get_state
    require (ltb block_no h.blocks) runtime_error
    bytes ← call (λ f. os.pread f pg_sz (block_no * pg_sz % 2 ^ 32))
    pure (bytes ++ drop (length bytes) arr)
