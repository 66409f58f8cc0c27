-- ===== src/Posix.antt =====
-- The system calls that src/backend/IOHandler.cpp makes, as an interface: `none` and `false` stand for
-- a result of -1. The code is compiled for POSIX; its branches for Windows are not modelled.
use kndb.Base.{ℕ, ◌+◌, ◌≤◌, ◌≡◌, Bool, List, ◌++◌, Option, some, length, take, drop, replicate}

pub record Posix : Type 1 where
  pub File : Type 0
  pub open_file : List ℕ → Option File
  pub fstat_size : File → Option ℕ
  pub ftruncate : File → ℕ → Option File
  pub pwrite : File → List ℕ → ℕ → Option File
  pub pread : File → ℕ → ℕ → Option (List ℕ)
  pub fsync : File → Bool
  -- What the file holds.
  pub content : File → List ℕ

-- The documented behaviour of the calls on a regular file, for transfers inside of it, which are whole.
pub record PosixLaws (os : Posix) : Type 0 where
  pub stat : (f : os.File) (n : ℕ) → os.fstat_size f ≡ some n → n ≡ length (os.content f)
  pub resize :
      (f g : os.File) (n : ℕ)
      → os.ftruncate f n ≡ some g
      → os.content g ≡ take n (os.content f ++ replicate n 0)
  pub write :
      (f g : os.File) (bs : List ℕ) (offset : ℕ)
      → os.pwrite f bs offset ≡ some g
      → offset + length bs ≤ length (os.content f)
      → os.content g
        ≡ take offset (os.content f) ++ (bs ++ drop (offset + length bs) (os.content f))
  pub read :
      (f : os.File) (bs : List ℕ) (count offset : ℕ)
      → os.pread f count offset ≡ some bs
      → offset + count ≤ length (os.content f)
      → bs ≡ take count (drop offset (os.content f))
