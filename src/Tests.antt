-- ===== src/Tests.antt =====
-- The theorems of the other modules at concrete inputs, and runs of the code.
mod FsmTests
mod VariTests
mod IoTests
mod CacheTests
mod FreeSpaceMapTests
mod TableTests
mod EngineTests
mod PagerTests
mod BtreeTests
mod ReadTests
mod SchemaTests
mod InsertTests
