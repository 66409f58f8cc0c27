-- ===== src/Tests/IoTests.antt =====
-- Runs of the code of src/backend/IOHandler.cpp on a file in memory.
use kndb.Base.{
  ℕ, ◌+◌, ◌*◌, sym, true, List, [], ◌++◌, some, arith, length, take, drop, replicate,
  length-replicate,
}
use mathlib.Core.Option.{some-injective}
use kndb.Constants.{pg_sz}
use kndb.Posix.{Posix, PosixLaws}
use kndb.Io.{IoHandler}
use kndb.Io.Blocks.{IsValid, WriteEnds, ReadEnds, write_block_lem, read_block_lem}
use kndb.Io.Grow.{GrowsMany, GrowsOne, create_multiple_blocks_lem, create_new_block_lem}

-- A file in memory, on which every call inside of the file succeeds.
abbrev pub ram : Posix
ram = record {
  File = List ℕ;
  open_file = λ name. some [];
  fstat_size = λ f. some (length f);
  ftruncate = λ f n. some (take n (f ++ replicate n 0));
  pwrite = λ f bs offset. some (take offset f ++ (bs ++ drop (offset + length bs) f));
  pread = λ f count offset. some (take count (drop offset f));
  fsync = λ f. true;
  content = λ f. f;
}

pub ram-PosixLaws : PosixLaws ram
ram-PosixLaws = record {
  stat = λ f n h. sym (some-injective (length f) n h);
  resize = λ f g n h. sym (some-injective _ g h);
  write = λ f g bs offset h k. sym (some-injective _ g h);
  read = λ f bs count offset h k. sym (some-injective _ bs h);
}

-- A file of three blocks.
pub three : IoHandler ram
three = record { file = replicate (3 * pg_sz) 5; blocks = 3 }

pub three-IsValid : IsValid ram three
unfolding three
three-IsValid = record {
  covers = omega (arith, length-replicate {A = ℕ} (3 * pg_sz) 5);
  few = omega arith;
}

write_block_example : WriteEnds ram (replicate pg_sz 8) 1 three
write_block_example =
    write_block_lem ram ram-PosixLaws three three-IsValid (replicate pg_sz 8) 1
      (length-replicate {A = ℕ} pg_sz 8)

read_block_example : ReadEnds ram (replicate pg_sz 8) 1 three
read_block_example =
    read_block_lem ram ram-PosixLaws three three-IsValid (replicate pg_sz 8) 1
      (length-replicate {A = ℕ} pg_sz 8)

create_multiple_blocks_example :
    GrowsMany ram ram-PosixLaws three three-IsValid 2 (omega arith) (unfold three in omega arith)
create_multiple_blocks_example =
    create_multiple_blocks_lem ram ram-PosixLaws three three-IsValid 2 (omega arith)
      (unfold three in omega arith)

create_new_block_example :
    GrowsOne ram ram-PosixLaws three three-IsValid (unfold three in omega arith)
create_new_block_example =
    create_new_block_lem ram ram-PosixLaws three three-IsValid (unfold three in omega arith)
