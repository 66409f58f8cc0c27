-- ===== src/Btree/Reads.antt =====
-- Code of src/backend/Btree.tpp that only reads, on the pages of an open database.
use kndb.Base.{
  ℕ, ◌≡◌, refl, sym, ◌∙◌, Bool, true, false, List, some, M, ok, pure, assume, zoom, ◌>>=◌, inl, inr,
}
use kndb.Posix.{Posix}
use kndb.Vari.Codec.{Memory}
use kndb.NodePage.{NodePage}
use kndb.Page.{node, node_kind}
use kndb.Cache.Steps.{View, on_page-Steps_same}
use kndb.FreeSpaceMap.Invariant.{free_id}
use kndb.FreeSpaceMap.Others.{KeepsOthers-refl}
use kndb.Pager.Client.{Client, on_pager}
use kndb.Pager.Invariant.{IsOpen, moved_IsOpen}
use kndb.Pager.Access.{get_page_ends}
use kndb.Btree.{b_node, fields, on_node, node_call}

-- A node in use, which the cache shows.
pub record NodeAt (v : View) (id : ℕ) (p : NodePage) : Type 0 where
  pub object : ℕ
  pub shown : v id ≡ some (record { object = object; page = node p })
  pub own : p.page_id ≡ id
  pub used : free_id v id ≡ false

-- On an open database that shows `v` the code returns `a` and leaves the pages and the tree as they are.
pub record Reads {ℓ} {A : Type ℓ} {os : Posix} {X : Type 0} (m : M (Client os X) A) (v : View)
    (ids : List ℕ) (a : A) : Type ℓ where
  pub run :
      (s : Client os X)
      → IsOpen s.pager v ids
      → (s' : Client os X) × (m s ≡ ok a s') × IsOpen s'.pager v ids × (s'.self ≡ s.self)

pub >>=-Reads {ℓ κ} :
    {A : Type ℓ} {B : Type κ} {os : Posix} {X : Type 0} {m : M (Client os X) A}
    (f : A → M (Client os X) B) {v : View} {ids : List ℕ} {a : A} {b : B}
    → Reads m v ids a
    → Reads (f a) v ids b
    → Reads (m >>= f) v ids b
>>=-Reads f h k = record {
  run = λ s o.
      let (s1, r1, o1, e1) = h.run s o in
      let (s2, r2, o2, e2) = k.run s1 o1 in (s2, rw (r1, r2), o2, e2 ∙ e1);
}

pub pure-Reads {ℓ} :
    {A : Type ℓ} {os : Posix} {X : Type 0} (v : View) (ids : List ℕ) (a : A)
    → Reads {A = A} {os = os} {X = X} (pure a) v ids a
pure-Reads v ids a = record { run = λ s o. (s, refl, o, refl) }

pub assume-Reads :
    {os : Posix} {X : Type 0} (v : View) (ids : List ℕ) (b : Bool)
    → b ≡ true
    → Reads {os = os} {X = X} (assume b) v ids tt
assume-Reads v ids b e = record { run = λ s o. (s, rw e, o, refl) }

module _ (os : Posix) (mem : Memory) (v : View) (ids : List ℕ) (id : ℕ) (p : NodePage)
    (h : NodeAt v id p) where
  pub b_node-Reads : Reads (b_node os mem id) v ids h.object
  unfolding b_node
  b_node-Reads = record {
    run = λ s o. elim (get_page_ends os mem s.pager v ids o node_kind id _ h.shown) [
      | inl (free, stopped) ↦ absurd (different (sym free ∙ h.used))
      | inr (used, c', run, k, o') ↦ (record s { pager = c' }, rw (on_pager, zoom, run), o', refl)
    ];
  }
    where
      different : true ≡ false → ⊥
      different e = cc

  pub fields-Reads : Reads (fields os mem h.object) v ids p
  unfolding on_node
  fields-Reads = record {
    run = λ s o.
        let (c', run, shows, k) =
          (on_page-Steps_same {os = os} id (node p) (record { object = h.object; shown = h.shown })
              (node_call (λ p. ok p p)) p refl h.own).run
            s.pager o.shows in
        (
          record s { pager = c' },
          rw (on_pager, zoom, run),
          moved_IsOpen o shows k o.map (KeepsOthers-refl v) o.own,
          refl,
        );
  }
