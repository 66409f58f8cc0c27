-- ===== src/Constants.antt =====
-- src/backend/constants.hpp: the sizes, identifiers and invalid marks that the other parts share.
use kndb.Base.{ℕ, ◌-◌, ◌^◌}

abbrev pub max_str_sz : ℕ
max_str_sz = 128

abbrev pub max_str_len : ℕ
max_str_len = max_str_sz - 1

abbrev pub pg_sz : ℕ
pg_sz = 4096

abbrev pub cache_sz : ℕ
cache_sz = 100000

abbrev pub max_fsmpages : ℕ
max_fsmpages = 2

abbrev pub schema_page_type : ℕ
schema_page_type = 1

abbrev pub fsm_page_type : ℕ
fsm_page_type = 2

abbrev pub table_page_type : ℕ
table_page_type = 3

abbrev pub btree_node_page_type : ℕ
btree_node_page_type = 4

abbrev pub pgid_invalid : ℕ
pgid_invalid = 2 ^ 32 - 1

abbrev pub cellid_invalid : ℕ
cellid_invalid = 2 ^ 32 - 1

abbrev pub childid_invalid : ℕ
childid_invalid = 2 ^ 32 - 1

abbrev pub pgtypeid_invalid : ℕ
pgtypeid_invalid = 2 ^ 8 - 1
