-- ===== src/Btree/Writes.antt =====
-- Code of src/backend/Btree.tpp that writes nodes of an open database.
use kndb.Base.{
  Option, none, false, ◌||◌, Bool, sym, ℕ, ◌≡◌, ◌≢◌, refl, ap, ◌∙◌, true, false, List, some, M, ok,
  pure, zoom, ◌>>=◌, arith, ◌==◌, ==_iff,
}
use kndb.Posix.{Posix}
use kndb.Vari.Codec.{Memory}
use kndb.NodePage.{NodePage}
use kndb.Page.{table_kind, schema_kind, has_kind, node}
use kndb.Cache.{Owned}
use kndb.Cache.Views.{put}
use kndb.Cache.Steps.{View, on_page-Steps}
use kndb.FreeSpaceMap.Invariant.{free_id}
use kndb.FreeSpaceMap.Same.{put-SameMaps, free_id-same}
use kndb.FreeSpaceMap.Others.{is_map}
use kndb.Pager.Client.{Client, on_pager}
use kndb.Pager.Invariant.{IsOpen}
use kndb.Pager.Create.{placed_IsOpen}
use kndb.Btree.{b_node, fields, on_node, node_call}
use kndb.Btree.Reads.{NodeAt, Reads, b_node-Reads, fields-Reads}

-- A node in use, and the reference to it.
pub record NodeRef (v : View) (id r : ℕ) (p : NodePage) : Type 0 where
  pub shown : v id ≡ some (record { object = r; page = node p })
  pub own : p.page_id ≡ id
  pub used : free_id v id ≡ false

abbrev pub ref_of : {v : View} {id : ℕ} {p : NodePage} (h : NodeAt v id p) → NodeRef v id h.object p
ref_of h = record { shown = h.shown; own = h.own; used = h.used }

abbrev pub at_of : {v : View} {id r : ℕ} {p : NodePage} → NodeRef v id r p → NodeAt v id p
at_of {r = r} h = record { object = r; shown = h.shown; own = h.own; used = h.used }

-- The same is shown for an id, and it is as free as it was.
pub record Same (v w : View) (id : ℕ) : Type 0 where
  pub shown : w id ≡ v id
  pub free : free_id w id ≡ free_id v id

pub Same-trans : {v w u : View} {id : ℕ} → Same v w id → Same w u id → Same v u id
Same-trans h k = record { shown = k.shown ∙ h.shown; free = k.free ∙ h.free }

pub Same-refl : (v : View) (id : ℕ) → Same v v id
Same-refl v id = record { shown = refl; free = refl }

-- Pages of tables and of schemas.
abbrev pub is_other : Option Owned → Bool
is_other none = false
is_other (some o) = has_kind table_kind o.page || has_kind schema_kind o.page

-- Those in use stay as they are.
pub record KeepsTables (v w : View) : Type 0 where
  pub tables : (j : ℕ) → is_other (v j) ≡ true → free_id v j ≡ false → Same v w j

pub KeepsTables-refl : (v : View) → KeepsTables v v
KeepsTables-refl v = record { tables = λ j other used. Same-refl v j }

pub KeepsTables-trans : {v w u : View} → KeepsTables v w → KeepsTables w u → KeepsTables v u
KeepsTables-trans h k = record {
  tables = λ j other used.
      let s = h.tables j other used in
      Same-trans s (k.tables j (ap is_other s.shown ∙ other) (s.free ∙ used));
}

-- On an open database that shows `v` the code returns `a`, shows `w` then, and leaves the object as it is.
pub record Writes {ℓ} {A : Type ℓ} {os : Posix} {X : Type 0} (m : M (Client os X) A) (v w : View)
    (ids : List ℕ) (a : A) : Type ℓ where
  pub run :
      (s : Client os X)
      → IsOpen s.pager v ids
      → (s' : Client os X) × (m s ≡ ok a s') × IsOpen s'.pager w ids × (s'.self ≡ s.self)
  pub tables : KeepsTables v w

pub Reads-Writes {ℓ} :
    {A : Type ℓ} {os : Posix} {X : Type 0} {m : M (Client os X) A} {v : View} {ids : List ℕ} {a : A}
    → Reads m v ids a
    → Writes m v v ids a
Reads-Writes {v = v} h = record { run = λ s o. h.run s o; tables = KeepsTables-refl v }

pub >>=-Writes {ℓ κ} :
    {A : Type ℓ} {B : Type κ} {os : Posix} {X : Type 0} {m : M (Client os X) A}
    (f : A → M (Client os X) B) {v w u : View} {ids : List ℕ} {a : A} {b : B}
    → Writes m v w ids a
    → Writes (f a) w u ids b
    → Writes (m >>= f) v u ids b
>>=-Writes f h k = record {
  run = λ s o.
      let (s1, r1, o1, e1) = h.run s o in
      let (s2, r2, o2, e2) = k.run s1 o1 in (s2, rw (r1, r2), o2, e2 ∙ e1);
  tables = KeepsTables-trans h.tables k.tables;
}

pub pure-Writes {ℓ} :
    {A : Type ℓ} {os : Posix} {X : Type 0} (v : View) (ids : List ℕ) (a : A)
    → Writes {A = A} {os = os} {X = X} (pure a) v v ids a
pure-Writes v ids a = record { run = λ s o. (s, refl, o, refl); tables = KeepsTables-refl v }

pub same_NodeRef :
    {v w : View} {id r : ℕ} {p : NodePage} → Same v w id → NodeRef v id r p → NodeRef w id r p
same_NodeRef s h = record { shown = s.shown ∙ h.shown; own = h.own; used = s.free ∙ h.used }

pub same_NodeAt : {v w : View} {id : ℕ} {p : NodePage} → Same v w id → NodeAt v id p → NodeAt w id p
same_NodeAt s h = at_of (same_NodeRef s (ref_of h))

abbrev pub write_node : View → ℕ → ℕ → NodePage → View
write_node v id r p = put v id (record { object = r; page = node p })

module _ {v : View} {id r : ℕ} {p : NodePage} (h : NodeRef v id r p) (q : NodePage) where
  write_free : (m : ℕ) → free_id (write_node v id r q) m ≡ free_id v m
  write_free m =
      free_id-same v (write_node v id r q)
        (put-SameMaps v id (record { object = r; page = node q }) (ap is_map h.shown) refl) m

  pub written : q.page_id ≡ id → NodeRef (write_node v id r q) id r q
  written own =
      let here : (id == id) ≡ true = (==_iff id id).1 refl in
      record { shown = rw here; own = own; used = write_free id ∙ h.used }

  pub unwritten : (j : ℕ) → j ≢ id → Same v (write_node v id r q) j
  unwritten j off =
      let apart : (id == j) ≡ false = ground arith in
      record { shown = rw apart; free = write_free j }

  pub written_KeepsTables : KeepsTables v (write_node v id r q)
  written_KeepsTables = record {
    tables = λ j other used. unwritten j (λ same.
        different (sym (ap is_other h.shown) ∙ ap (λ k. is_other (v k)) (sym same) ∙ other));
  }
    where
      different : false ≡ true → ⊥
      different e = cc

module _ {os : Posix} {v : View} {ids : List ℕ} {id r : ℕ} {p : NodePage}
    (h : NodeRef v id r p) where
  pub b_node-Writes : (mem : Memory) → Writes (b_node os mem id) v v ids r
  b_node-Writes mem = Reads-Writes (b_node-Reads os mem v ids id p (at_of h))

  pub fields-Writes : (mem : Memory) → Writes (fields os mem r) v v ids p
  fields-Writes mem = Reads-Writes (fields-Reads os mem v ids id p (at_of h))

  pub on_node-Writes {ℓ} :
      {A : Type ℓ} (mem : Memory) (m : M NodePage A) (a : A) (q : NodePage)
      → m p ≡ ok a q
      → q.page_id ≡ id
      → Writes (on_node os mem r m) v (write_node v id r q) ids a
  unfolding on_node
  on_node-Writes mem m a q run own = record {
    run = λ s o.
        let (c', called, shows, k) =
          (on_page-Steps {os = os} id (node p) (record { object = r; shown = h.shown }) (node q)
              (node_call m) a (rw run) own).run
            s.pager o.shows in
        (
          record s { pager = c' },
          rw (on_pager, zoom, called),
          placed_IsOpen o id (record { object = r; page = node q }) (o.within id _ h.shown)
              (ap is_map h.shown) refl shows k.io k.capacity,
          refl,
        );
    tables = written_KeepsTables h q;
  }
