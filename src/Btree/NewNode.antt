-- ===== src/Btree/NewNode.antt =====
-- `B_NEW` of src/backend/Btree.tpp: a new node beside those of the database.
use kndb.Base.{
  Option, none, Option-cases, ◌||◌, ℕ, ◌*◌, ◌/◌, ◌%◌, ◌<◌, ◌≡◌, ◌≢◌, refl, sym, ap, subst, ◌∙◌,
  Bool, true, false, List, some, ok, throws, runtime_error, zoom, inl, inr, ◌⊎◌, arith, lt→ltb,
  ◌==◌, ==_iff,
}
use kndb.Posix.{Posix, PosixLaws}
use kndb.Vari.Codec.{Memory}
use kndb.Fsm.{get_blocks_in_page}
use kndb.NodePage.{NodePage, new_page}
use kndb.Page.{
  has_kind, schema_kind, fsm_kind, table_kind, schema, table, Page, fsm, node, node_kind,
}
use kndb.Cache.{Owned, PageCache}
use kndb.Cache.Steps.{View}
use kndb.FreeSpaceMap.Invariant.{free_id}
use kndb.FreeSpaceMap.Others.{is_map}
use kndb.Pager.Client.{Client, on_pager}
use kndb.Pager.Invariant.{IsOpen}
use kndb.Pager.Ends.{in_use, Created, create_new_page_ends}
use kndb.Btree.{Btree, b_new}
use kndb.Btree.Reads.{NodeAt}
use kndb.Btree.Writes.{KeepsTables, is_other, NodeRef, Same}

-- A page of a table or a schema is in the file, and not at the place of an FSM page.
other_is_map : (o : Option Owned) → is_other o ≡ true → is_map o ≡ false
other_is_map none e = refl
other_is_map (some o) e = page o.page e
  where
    page :
        (p : Page)
        → has_kind table_kind p || has_kind schema_kind p ≡ true
        → has_kind fsm_kind p ≡ false
    page (schema p) e = refl
    page (fsm p) e = cc
    page (table p) e = refl
    page (node p) e = refl

not_map_place :
    {os : Posix} {c : PageCache os} {v : View} {ids : List ℕ}
    → IsOpen c v ids
    → (j : ℕ) → j < c.io.blocks
    → is_map (v j) ≡ false
    → j % get_blocks_in_page ≢ 0
not_map_place {v = v} h j lt other zero =
    let (q, at) = h.covered j lt in
    let here : j / get_blocks_in_page * get_blocks_in_page ≡ j = omega arith in
    let shown =
      subst (λ i. v i ≡ some (record { object = at.object; page = fsm q })) here at.shown in
    different (sym (ap is_map shown) ∙ other)
  where
    different : true ≡ false → ⊥
    different d = cc

other_place :
    {os : Posix} {c : PageCache os} {v : View} {ids : List ℕ}
    → IsOpen c v ids
    → (j : ℕ) → is_other (v j) ≡ true
    → (j < c.io.blocks) × (j % get_blocks_in_page ≢ 0)
other_place {v = v} h j other = elim (Option-cases (v j)) [
  | inl gone ↦ absurd (different (sym (ap is_other gone) ∙ other))
  | inr (o, e) ↦ (h.within j o e, not_map_place h j (h.within j o e) (other_is_map (v j) other))
]
  where
    different : false ≡ true → ⊥
    different d = cc

used_in_use :
    {os : Posix} (c : PageCache os) (v : View) (m : ℕ) → in_use c v m ≡ true → free_id v m ≡ false
used_in_use c v m h = ground arith

in_use_used :
    {os : Posix} (c : PageCache os) (v : View) (m : ℕ)
    → m < c.io.blocks
    → free_id v m ≡ false
    → in_use c v m ≡ true
in_use_used c v m lt used = rw (lt→ltb m c.io.blocks lt, used)

module _ (os : Posix) (mem : Memory) (laws : PosixLaws os) (deg par : ℕ) (root leaf : Bool)
    (s : Client os Btree) (v : View) (ids : List ℕ) (o : IsOpen s.pager v ids) where
  -- A database with one node more, to which the reference refers.
  pub record Made (r : ℕ) (s' : Client os Btree) : Type 0 where
    pub id : ℕ
    pub after : View
    pub list : List ℕ
    pub opened : IsOpen s'.pager after list
    pub new : NodeRef after id r (new_page deg par root leaf id)
    pub apart : (j : ℕ) (p : NodePage) → NodeAt v j p → j ≢ id
    pub kept : (j : ℕ) (p : NodePage) → NodeAt v j p → Same v after j
    pub tables : KeepsTables v after
    pub same_self : s'.self ≡ s.self

  -- The ends of `B_NEW`: a new node, or an exception where `createNewPage` throws.
  abbrev pub NewEnds : Type 0
  NewEnds =
      ((r : ℕ) × (s' : Client os Btree) × (b_new os mem deg par root leaf s ≡ ok r s') × Made r s')
      ⊎ ((s' : Client os Btree) × (b_new os mem deg par root leaf s ≡ throws runtime_error s'))

  abbrev made_page : ℕ → Page
  made_page id = node (new_page deg par root leaf id)

  made :
      (r : ℕ) (c : PageCache os)
      → Created os mem laws node_kind
          (λ id c. ok (made_page id) c)
          made_page
          (λ n c. refl)
          (λ n. refl)
          (λ n. refl)
          (λ n. refl)
          s.pager
          v
          r
          c
      → Made r (record s { pager = c })
  made r c k =
      let place =
        not_map_place k.opened k.id (k.opened.within k.id _ k.shown) (ap is_map k.shown) in
      let here : (k.id == k.id) ≡ true = (==_iff k.id k.id).1 refl in
      let in_file = λ (j : ℕ) (p : NodePage) (h : NodeAt v j p). o.within j _ h.shown in
      let old = λ (j : ℕ) (p : NodePage) (h : NodeAt v j p).
        in_use_used s.pager v j (in_file j p h) h.used in
      let apart = λ (j : ℕ) (p : NodePage) (h : NodeAt v j p) (same : j ≡ k.id).
        different (sym (old j p h) ∙ ap (in_use s.pager v) same ∙ k.unused) in
      record {
        id = k.id;
        after = k.after;
        list = k.ids;
        opened = k.opened;
        new = record {
          shown = k.shown;
          own = refl;
          used = used_in_use c k.after k.id (k.used k.id place ∙ rw here);
        };
        apart = apart;
        kept = λ j p h.
            let off : (k.id == j) ≡ false = ground (arith, apart j p h) in
            record {
              shown = k.kept j (apart j p h) (in_file j p h) (ap is_map h.shown);
              free =
                  used_in_use c k.after j (
                    k.used j (not_map_place o j (in_file j p h) (ap is_map h.shown))
                    ∙ rw off (old j p h))
                  ∙ sym h.used;
            };
        tables = record {
          tables = λ j other used.
              let (file, place) = other_place o j other in
              let was = in_use_used s.pager v j file used in
              let off : j ≢ k.id =
                λ same. different (sym was ∙ ap (in_use s.pager v) same ∙ k.unused) in
              let test : (k.id == j) ≡ false = ground (arith, off) in
              record {
                shown = k.kept j off file (other_is_map (v j) other);
                free = used_in_use c k.after j (k.used j place ∙ rw test was) ∙ sym used;
              };
        };
        same_self = refl;
      }
    where
      different : true ≡ false → ⊥
      different d = cc

  pub b_new_ends : NewEnds
  unfolding b_new
  b_new_ends =
      elim (create_new_page_ends os mem laws node_kind (λ id c. ok (made_page id) c) made_page
        (λ n c. refl) (λ n. refl) (λ n. refl) (λ n. refl) s.pager v ids o) [
          | inl (r, c, run, k) ↦
              inl (r, record s { pager = c }, rw (on_pager, zoom, run), made r c k)
          | inr (c, run, h1, h2, h3, h4) ↦ inr (record s { pager = c }, rw (on_pager, zoom, run))
        ]
