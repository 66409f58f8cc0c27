-- ===== src/Page.antt =====
-- src/backend/Page.hpp: the pages of the database, with a constructor for each class derived from
-- `Page`, and the choice of a class by the template argument `T`.
use kndb.Base.{ℕ, Bool, true, false, List, Outcome, ok, throws, aborts, undefined}
use kndb.Cursor.{Cursor}
use kndb.Vari.Codec.{Memory}
use kndb.Fsm.{FsmPage}
use kndb.Fsm
use kndb.TablePage.{TablePage}
use kndb.TablePage
use kndb.SchemaPage.{SchemaPage}
use kndb.SchemaPage
use kndb.NodePage.{NodePage}
use kndb.NodePage

pub data Page : Type 0 where
  schema : SchemaPage → Page
  fsm : FsmPage → Page
  table : TablePage → Page
  node : NodePage → Page

-- The class `T` of `retrievePage<T>`.
pub data Kind : Type 0 where
  schema_kind fsm_kind table_kind node_kind : Kind

abbrev pub get_page_id : Page → ℕ
get_page_id (schema p) = p.page_id
get_page_id (fsm p) = p.page_id
get_page_id (table p) = p.page_id
get_page_id (node p) = p.page_id

-- `dynamic_cast<T &>` succeeds.
abbrev pub has_kind : Kind → Page → Bool
has_kind schema_kind (schema p) = true
has_kind fsm_kind (fsm p) = true
has_kind table_kind (table p) = true
has_kind node_kind (node p) = true
has_kind _ _ = false

-- The virtual `toBytes`.
unfoldable pub to_bytes : Memory → Page → List ℕ → Outcome Cursor (Unit {0})
to_bytes mem (schema p) buf = SchemaPage.to_bytes mem p buf
to_bytes mem (fsm p) buf = Fsm.to_bytes p buf
to_bytes mem (table p) buf = TablePage.to_bytes p buf
to_bytes mem (node p) buf = NodePage.to_bytes mem p buf

abbrev pub built {ℓ} : {A : Type ℓ} → (A → Page) → Outcome Cursor A → Outcome Cursor Page
built f (ok a c) = ok (f a) c
built f (throws e c) = throws e c
built f aborts = aborts
built f undefined = undefined

-- `std::make_unique<T>(buf, pageID)`
unfoldable pub from_bytes : Kind → List ℕ → ℕ → Outcome Cursor Page
from_bytes schema_kind bytes id = built schema (SchemaPage.from_bytes bytes id)
from_bytes fsm_kind bytes id = built fsm (Fsm.from_bytes bytes id)
from_bytes table_kind bytes id = built table (TablePage.from_bytes bytes id)
from_bytes node_kind bytes id = built node (NodePage.from_bytes bytes id)
