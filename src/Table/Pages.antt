-- ===== src/Table/Pages.antt =====
-- Calls of `Table` in src/backend/Table.cpp on its page, and the test of a tuple's types.
use kndb.Base.{
  ℕ, zero, suc, drop, ◌≡◌, refl, sym, ap, subst, ◌∙◌, Bool, true, false, ◌&&◌, List, [], ◌∷◌,
  Option, none, some, M, ok, throws, runtime_error, zoom, ◌==◌, ==_iff, if◌then◌else◌, inl, inr,
  Bool-cases, arith, length, get_elem?,
}
use kndb.Constants.{pgid_invalid}
use kndb.Posix.{Posix}
use kndb.Vari.{Vari, visit_type_id}
use kndb.Vari.Codec.{Memory}
use kndb.NodePage.{NodePage}
use kndb.TablePage.{TablePage}
use kndb.Page.{table, has_kind, table_kind, node_kind}
use kndb.Cache.{Owned, PageCache}
use kndb.Cache.Views.{put}
use kndb.Cache.Steps.{View, on_page-Steps}
use kndb.FreeSpaceMap.Invariant.{free_id}
use kndb.FreeSpaceMap.Same.{put-SameMaps, free_id-same}
use kndb.FreeSpaceMap.Others.{is_map}
use kndb.Pager.Client.{Client, on_pager}
use kndb.Pager.Invariant.{IsOpen}
use kndb.Pager.Access.{get_page_ends}
use kndb.Pager.Create.{placed_IsOpen}
use kndb.Btree.{Btree}
use kndb.Btree.Tree.{Tree}
use kndb.Btree.Reads.{NodeAt}
use kndb.Btree.Writes.{Same}
use kndb.Btree.Sound.{keep_tree}
use kndb.Btree.Split.{Stored}
use kndb.Table.{types_of, Table, table_call, with_table_page, t_page, check_types, check_tuple}
use kndb.Table.Read.{TablePageAt, type_id_lem, with_table_page-run}

abbrev pub write_table : View → ℕ → ℕ → TablePage → View
write_table v id r q = put v id (record { object = r; page = table q })

abbrev is_node : Option Owned → Bool
is_node none = false
is_node (some o) = has_kind node_kind o.page

module _ {v : View} {id : ℕ} {p : TablePage} (h : TablePageAt v id p) (q : TablePage) where
  table_free : (m : ℕ) → free_id (write_table v id h.object q) m ≡ free_id v m
  table_free m =
      free_id-same v (write_table v id h.object q)
        (put-SameMaps v id (record { object = h.object; page = table q }) (ap is_map h.shown) refl)
        m

  pub written_table : q.page_id ≡ id → TablePageAt (write_table v id h.object q) id q
  written_table own =
      let here : (id == id) ≡ true = (==_iff id id).1 refl in
      record { object = h.object; shown = rw here refl; own = own; used = table_free id ∙ h.used }

  unwritten_node : (j : ℕ) (x : NodePage) → NodeAt v j x → Same v (write_table v id h.object q) j
  unwritten_node j x a =
      let apart : (id == j) ≡ false = elim (Bool-cases (id == j)) [
        | inr n ↦ n
        | inl y ↦ absurd (
            different (
              sym (ap is_node a.shown)
              ∙ sym (ap (λ k. is_node (v k)) ((==_iff id j).0 y))
              ∙ ap is_node h.shown))
      ] in
      record { shown = rw apart refl; free = table_free j }
    where
      different : true ≡ false → ⊥
      different d = cc

  -- The tree is as it was.
  pub table_Stored :
      (t : Btree) (d : ℕ) (whole : Tree)
      → Stored v t d whole
      → Stored (write_table v id h.object q) t d whole
  table_Stored t d whole s = record {
    sound =
        keep_tree v (write_table v id h.object q) d pgid_invalid true whole
          (λ k x a o. unwritten_node k x a) s.sound;
    once = s.once;
    root = s.root;
    degree = s.degree;
  }

  pub with_table_page-write {ℓ} :
      {A : Type ℓ} {os : Posix} (mem : Memory) (m : M TablePage A) (a : A) (ids : List ℕ)
      (c : PageCache os)
      → m p ≡ ok a q
      → q.page_id ≡ id
      → IsOpen c v ids
      → (c' : PageCache os) × (with_table_page os mem id m c ≡ ok a c')
        × IsOpen c' (write_table v id h.object q) ids
  unfolding with_table_page
  with_table_page-write {os = os} mem m a ids c run own o =
      elim (get_page_ends os mem c v ids o table_kind id _ h.shown) [
        | inl (free, stopped) ↦ absurd (different (sym free ∙ h.used))
        | inr (used, c1, got, k1, o1) ↦
            let (c2, called, shows, k) =
              (on_page-Steps {os = os} id (table p) (record { object = h.object; shown = h.shown })
                  (table q) (table_call m) a (rw run) own).run
                c1 o1.shows in
            (
              c2,
              rw (got, called),
              placed_IsOpen o1 id (record { object = h.object; page = table q })
                  (o1.within id _ h.shown) (ap is_map h.shown) refl shows k.io k.capacity,
            )
      ]
    where
      different : true ≡ false → ⊥
      different e = cc

-- Whether the values have the types of the columns.
unfoldable pub fits_columns : List Vari → List Vari → Bool
fits_columns [] [] = true
fits_columns [] (w ∷ ws) = false
fits_columns (v ∷ vs) [] = false
fits_columns (v ∷ vs) (w ∷ ws) = (visit_type_id v == visit_type_id w) && fits_columns vs ws

fits_columns-length :
    (vs ws : List Vari) → (length vs == length ws) ≡ false → fits_columns vs ws ≡ false
unfolding fits_columns
fits_columns-length [] [] e = absurd (ground (arith, e))
fits_columns-length [] (w ∷ ws) e = refl
fits_columns-length (v ∷ vs) [] e = refl
fits_columns-length (v ∷ vs) (w ∷ ws) e =
    let shorter : (length vs == length ws) ≡ false = ground (arith, e) in
    elim (Bool-cases (visit_type_id v == visit_type_id w)) [
      | inl y ↦ rw (y, fits_columns-length vs ws shorter) refl
      | inr n ↦ rw n refl
    ]

drop_step :
    (i : ℕ) (xs : List Vari) (w : Vari) (ws : List Vari)
    → drop i xs ≡ w ∷ ws
    → (get_elem? xs i ≡ some w) × (drop (suc i) xs ≡ ws)
drop_step zero [] w ws e = absurd (different e)
  where
    different : [] ≡ w ∷ ws → ⊥
    different e = cc
drop_step zero (x ∷ xs) w ws e = (cc, cc)
drop_step (suc i) [] w ws e = absurd (different e)
  where
    different : [] ≡ w ∷ ws → ⊥
    different e = cc
drop_step (suc i) (x ∷ xs) w ws e = drop_step i xs w ws e

module _ (os : Posix) (mem : Memory) (v : View) (ids : List ℕ) where
  -- A method that changes nothing.
  t_page-run {ℓ} :
      {A : Type ℓ} (s : Client os Table) (p : TablePage) (m : M TablePage A) (a : A)
      → TablePageAt v s.self.table_page_id p
      → m p ≡ ok a p
      → IsOpen s.pager v ids
      → (s' : Client os Table) × (t_page os mem m s ≡ ok a s')
        × IsOpen s'.pager v ids
        × (s'.self ≡ s.self)
  unfolding t_page
  t_page-run s p m a h run o =
      let (c, ran, o') =
        with_table_page-run os mem v ids s.self.table_page_id p m a s.pager h run o in
      (record s { pager = c }, rw (on_pager, zoom, ran) refl, o', refl)

  check_types_run :
      (vs : List Vari) (i : ℕ) (ws : List Vari) (p : TablePage) (s : Client os Table)
      → drop i p.types ≡ ws
      → (length vs == length ws) ≡ true
      → TablePageAt v s.self.table_page_id p
      → IsOpen s.pager v ids
      → (s' : Client os Table) × (check_types os mem vs i s
          ≡ (if fits_columns vs ws then ok tt s' else throws runtime_error s'))
        × IsOpen s'.pager v ids
        × (s'.self ≡ s.self)
  unfolding check_types fits_columns
  check_types_run [] i [] p s types size h o = (s, refl, o, refl)
  check_types_run [] i (w ∷ ws) p s types size h o = absurd (ground (arith, size))
  check_types_run (v1 ∷ vs) i [] p s types size h o = absurd (ground (arith, size))
  check_types_run (v1 ∷ vs) i (w ∷ ws) p s types size h o =
      let (s1, ran, o1, e1) = t_page-run s p (types_of os mem) p.types h refl o in
      let (there, rest) = drop_step i p.types w ws types in
      let shorter : (length vs == length ws) ≡ true = ground (arith, size) in
      elim (Bool-cases (visit_type_id v1 == visit_type_id w)) [
        | inl y ↦
            let (s2, ran2, o2, e2) =
              check_types_run vs (suc i) ws p s1 rest shorter
                (subst (λ x. TablePageAt v x.table_page_id p) (sym e1) h) o1 in
            (s2, rw (type_id_lem v1 s, ran, there, type_id_lem w s1, y) ran2, o2, e2 ∙ e1)
        | inr n ↦ (s1, rw (type_id_lem v1 s, ran, there, type_id_lem w s1, n) refl, o1, e1)
      ]

  pub check_tuple_run :
      (values : List Vari) (p : TablePage) (s : Client os Table)
      → TablePageAt v s.self.table_page_id p
      → IsOpen s.pager v ids
      → (s' : Client os Table) × (check_tuple os mem values s
          ≡ (if fits_columns values p.types then ok tt s' else throws runtime_error s'))
        × IsOpen s'.pager v ids
        × (s'.self ≡ s.self)
  unfolding check_tuple
  check_tuple_run values p s h o =
      let (s1, ran, o1, e1) = t_page-run s p (types_of os mem) p.types h refl o in
      elim (Bool-cases (length values == length p.types)) [
        | inl y ↦
            let (s2, ran2, o2, e2) =
              check_types_run values 0 p.types p s1 refl y
                (subst (λ x. TablePageAt v x.table_page_id p) (sym e1) h) o1 in
            (s2, rw (ran, y) ran2, o2, e2 ∙ e1)
        | inr n ↦ (s1, rw (ran, n, fits_columns-length values p.types n) refl, o1, e1)
      ]
