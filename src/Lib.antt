-- ===== src/Lib.antt =====
-- A model of the storage engine KNDB, written in C++ under src/backend. A database is one file, a
-- sequence of blocks of 4096 bytes; a page is a block with its typed contents.
--
-- The parts, from the file upwards, and the modules that model them:
--   * Posix: the system calls as an interface, with their documented behaviour as laws. It is a parameter.
--   * Io: `IOHandler` (src/backend/IOHandler.{hpp,cpp}), the blocks of the file. Io/Splice and
--     Io/Blocks have reads and writes, Io/Grow the growth of the file.
--   * Vari: the values of a row (src/backend/utility.hpp, kndb_types.hpp), their type ids and sizes;
--     Vari/Codec their serialized form, Vari/Codec/Roundtrip its round trip, Vari/Codec/Types that of the
--     type ids on a page, Vari/Degree the degree of a tree. Cursor is the buffer and the offset that `db_serialize` and `db_deserialize` work on, with
--     general laws of writers and readers in Cursor/Laws. Constants is src/backend/constants.hpp.
--   * Fsm, TablePage, SchemaPage, NodePage: `FSMPage`, `TablePage`, `SchemaPage` and
--     `BtreeNodePage<Vec<Vari>>`, a file for each class. Page is the class `Page`, from which they derive.
--     Under Fsm, Bits and Bitmap are about the bits of the bitmap, Invariant about the count of free
--     bits, Scan about the search for a free bit, Format about the serialized form; TablePage/Format is
--     about that of a table page, NodePage/Format about that of a node, with its length in Size, the
--     room on a page in Fits and the round trip in Roundtrip. SchemaPage/Names has the names
--     and ids on a schema page, SchemaPage/Changes addTable and removeTable, SchemaPage/Format the
--     serialized form.
--   * Cache: `PageCache`, the list and the map of iterators. Cache/Entries is the abstract view, one
--     sequence of entries with the page used last in front; Cache/Front and Cache/Hits have the
--     operations on a cache with room. Cache/Refs is a method call through a reference. Cache/Views says
--     what the cache shows to the code that uses it, Cache/Calls what a method call changes of it, and
--     Cache/Steps how such calls are composed; Cache/Room is the insertion of a page where there is room.
--   * FreeSpaceMap: `FreeSpaceMap`, on the `FSMPage`s that the cache holds, listed from page 0 on by their
--     links. FreeSpaceMap/Steps specialises Cache/Steps to these pages; FreeSpaceMap/Invariant has the
--     list and the set of free ids, FreeSpaceMap/Others the pages of other classes, FreeSpaceMap/Push the
--     linking of a page, FreeSpaceMap/Same views with the same FSM pages, FreeSpaceMap/Alloc, Free and
--     Release the operations on free ids. They are about caches that hold all FSM pages that the code asks
--     for; the capacity of src/backend/constants.hpp, 100000, is more than the 65344 blocks of the largest
--     database.
--   * Pager: `Pager`, which gives out page ids and references to pages, over the three others.
--     Pager/Invariant is an open database, Pager/Access has isFree, getPage and freePage, Pager/Grow,
--     Extend and Extended the growth by an FSM page, Pager/Create the new page at a free id, Pager/Ends the
--     whole of createNewPage.
--     Pager/Client is the state of an object that keeps a reference to the pager.
--   * Btree: `Btree<Vec<Vari>>` (src/backend/Btree.{hpp,tpp}), a tree of pages by their ids, over the
--     pager; Vari/Order is the order of its keys, with its laws in Vari/Order/Laws. Btree/Tree is the tree
--     that the pages make, Btree/Lookup the reference definition of a search in its cells in order,
--     Btree/Reads code that only reads, and Btree/Search the search in the pages. Btree/Depth is about the
--     fuel. For `insert`: Btree/Order is the reference definition of an insertion among the cells, with
--     Btree/OrderKept; Btree/Shape a place in a tree, by the nodes on the way up from it; Btree/Sound what
--     holds of the nodes of a tree; Btree/Vectors the vectors of a node; Btree/Writes and Btree/Runs code
--     that writes nodes and code that may make them, for which Btree/NewNode has `B_NEW`. Btree/Moves,
--     Halves, Spread and NewHalf are the steps of `split`, Btree/Spot and Fed what they make of a full
--     node and its parent, Btree/SplitInner and SplitRoot the two branches of `split`, Btree/Split the
--     whole. Btree/Descent is the search of a place for a new key, Btree/Insert and Insertion are `insert`.
--     Btree/Replace is the reference definition of an update, Btree/Place the search of the cell,
--     Btree/Changed the tree with the other values, and Btree/Update is `update`.
--   * Table: `Table` (src/backend/Table.{hpp,cpp}), a tree with the table page that keeps its root and its
--     number of rows; Table/Read has readTuple, Table/Pages calls on the table page and the test of a
--     tuple's types, Table/Rows the rows of a table, Table/Inserts
--     insertTuple and Table/Changes updateTuple.
--   * StorageEngine: `StorageEngine` (src/backend/StorageEngine.{hpp,cpp}), the tables of a database by
--     their names, which the schema page keeps.
--   * Base: shared types, lemmas and effects. Base/Effects has the outcomes of the code: a value, an
--     exception, an abort by `ASSUME` (src/assume.hpp, in a debug build) or undefined behaviour.
--   * Tests: the theorems and the code on concrete inputs.
--
-- A method is a function of the object's fields, passed as the state of a do block, named as the method
-- is. A reference to a page in the cache is the number of its object, so that two references to one page
-- see the same fields, and a reference to a page that was evicted is undefined behaviour. Integers are
-- natural numbers, reduced modulo 2 ^ w where the source's type is w bits wide; words in a buffer are
-- little-endian, and the values of `float` and `double` are their bit patterns. What `memcpy` reads
-- behind a string and what an uninitialised buffer holds are the parameter Memory. Loops are
-- structural recursion, over a list or over a count that the code itself computes, but for those of Btree
-- from page to page: they have as fuel one more than the number of pages of the largest database, which no
-- path through different pages exhausts, nor a split, each step of which makes a page; a walk that
-- exhausts it is undefined behaviour.
--
-- Not modelled: the branches for Windows, the closing of the file, src/main.cpp and the tests.
pub mod Base
pub mod Constants
pub mod Cursor
pub mod Vari
pub mod Fsm
mod Tests
pub mod Posix
pub mod Io
pub mod TablePage
pub mod SchemaPage
pub mod NodePage
pub mod Page
pub mod Cache
pub mod FreeSpaceMap
pub mod Pager
pub mod Btree
pub mod Table
pub mod StorageEngine
