-- ===== src/Table/Read.antt =====
-- `readTuple` of src/backend/Table.cpp: the test of the key, and the search in the table's tree.
use kndb.Base.{
  ℕ, ◌≤◌, ◌≡◌, refl, sym, ap, ◌∙◌, true, false, List, ◌∷◌, some, M, ok, throws, runtime_error, zoom,
  ◌==◌, if◌then◌else◌, inl, inr, Bool-cases,
}
use kndb.Posix.{Posix}
use kndb.Vari.{Vari, visit_type_id, variant_to_type_id, int, char, bool, float, double, string}
use kndb.Vari.Codec.{Memory}
use kndb.Vari.Order.Laws.{IsOrdinary}
use kndb.TablePage.{TablePage}
use kndb.Page.{table, table_kind}
use kndb.Cache.{PageCache}
use kndb.Cache.Steps.{View, on_page-Steps_same}
use kndb.FreeSpaceMap.Invariant.{free_id}
use kndb.FreeSpaceMap.Others.{KeepsOthers-refl}
use kndb.Pager.Client.{Client, on_pager, on_part}
use kndb.Pager.Invariant.{IsOpen, moved_IsOpen}
use kndb.Pager.Access.{get_page_ends}
use kndb.Btree.{Btree, max_depth}
use kndb.Btree.Lookup.{find_key, Sorted, Ordinary}
use kndb.Btree.Tree.{Tree, cells_of, height}
use kndb.Btree.Search.{TreeAt, root_of, value_of, search_lem}
use kndb.Table.{types_of, Table, table_call, with_table_page, t_page, check_key, read_tuple}

-- A table page in use, which the cache shows.
pub record TablePageAt (v : View) (id : ℕ) (p : TablePage) : Type 0 where
  pub object : ℕ
  pub shown : v id ≡ some (record { object = object; page = table p })
  pub own : p.page_id ≡ id
  pub used : free_id v id ≡ false

pub type_id_lem : {S : Type 0} (v : Vari) (s : S) → variant_to_type_id v s ≡ ok (visit_type_id v) s
unfolding variant_to_type_id visit_type_id
type_id_lem (int n) s = refl
type_id_lem (char n) s = refl
type_id_lem (bool b) s = refl
type_id_lem (float n) s = refl
type_id_lem (double n) s = refl
type_id_lem (string t) s = refl

module _ (os : Posix) (mem : Memory) (v : View) (ids : List ℕ) where
  pub with_table_page-run {ℓ} :
      {A : Type ℓ} (id : ℕ) (p : TablePage) (m : M TablePage A) (a : A) (c : PageCache os)
      → TablePageAt v id p
      → m p ≡ ok a p
      → IsOpen c v ids
      → (c' : PageCache os) × (with_table_page os mem id m c ≡ ok a c') × IsOpen c' v ids
  unfolding with_table_page
  with_table_page-run id p m a c h run o =
      elim (get_page_ends os mem c v ids o table_kind id _ h.shown) [
        | inl (free, stopped) ↦ absurd (different (sym free ∙ h.used))
        | inr (used, c1, got, k1, o1) ↦
            let (c2, called, shows, k) =
              (on_page-Steps_same {os = os} id (table p)
                  (record { object = h.object; shown = h.shown }) (table_call m) a (rw run)
                  h.own).run
                c1 o1.shows in
            (c2, rw (got, called), moved_IsOpen o1 shows k o1.map (KeepsOthers-refl v) o1.own)
      ]
    where
      different : true ≡ false → ⊥
      different e = cc

  -- The object that a method leaves, on the same open database.
  abbrev Left : Client os Table → Client os Table → Type 0
  Left s s' = IsOpen s'.pager v ids × (s'.self ≡ s.self)

  module _ (s : Client os Table) (o : IsOpen s.pager v ids) (p : TablePage)
      (h : TablePageAt v s.self.table_page_id p) (first : Vari) (rest : List Vari)
      (types : p.types ≡ first ∷ rest) (key : Vari) where
    check_key_run :
        (s' : Client os Table) × (check_key os mem key s ≡ (
          if visit_type_id first == visit_type_id key then ok tt s' else throws runtime_error s'))
        × Left s s'
    unfolding check_key t_page
    check_key_run =
        let (c, run, open_c) =
          with_table_page-run s.self.table_page_id p (types_of os mem) p.types s.pager h refl o in
        let s1 : Client os Table = record s { pager = c } in
        (
          s1,
          rw (on_pager, zoom, run, types, type_id_lem first s1, type_id_lem key s1)
              (elim (Bool-cases (visit_type_id first == visit_type_id key)) [
                | inl y ↦ rw y
                | inr n ↦ rw n
              ]),
          (open_c, refl),
        )

    -- The ends of `readTuple`: the values of the tuple, if any, or an exception at a key of another type
    -- than that of the first column.
    abbrev pub ReadTupleEnds : Tree → Type 0
    ReadTupleEnds t =
        (s' : Client os Table) × (read_tuple os mem key s ≡ (
          if visit_type_id first == visit_type_id key
          then ok (value_of (find_key key (cells_of t))) s'
          else throws runtime_error s'))
        × Left s s'

    -- On an open database of which the cache shows the table's page, in use, and all nodes
    -- of its tree, all in use, each a leaf without children or with one child more than its
    -- cells, fewer than 2 ^ 32 - 1, and as the code asserts, no deeper than a database has
    -- pages, with keys that are no NaN in order, readTuple of a key that is no NaN returns
    -- the values of the cell that the reference definition finds among the cells in order,
    -- or none, if the key is of the type of the table's first column, and throws if not; in
    -- either case it leaves the pages and the table as they are.
    pub read_tuple_ends :
        IsOrdinary key
        → (t : Tree) → height t ≤ max_depth
        → TreeAt v t
        → Sorted (cells_of t)
        → Ordinary (cells_of t)
        → s.self.btree.root_page_id ≡ root_of t
        → ReadTupleEnds t
    unfolding read_tuple
    read_tuple_ends ordinary t low shown sorted keys root =
        let (s1, checked, (open1, self1)) = check_key_run in
        elim (Bool-cases (visit_type_id first == visit_type_id key)) [
          | inr other ↦ (s1, rw (checked, other), (open1, self1))
          | inl same ↦
              let root1 : s1.self.btree.root_page_id ≡ root_of t =
                ap (λ (a : Table). a.btree.root_page_id) self1 ∙ root in
              let (b, found, open2, self2) =
                search_lem os mem v ids key ordinary t low shown sorted keys
                  (record { pager = s1.pager; self = s1.self.btree }) open1 root1 in
              (
                record { pager = b.pager; self = record s1.self { btree = b.self } },
                rw (checked, same) (rw (on_part, zoom, found)),
                (open2, ap (λ (a : Btree). record s1.self { btree = a }) self2 ∙ self1),
              )
        ]
