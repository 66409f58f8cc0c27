-- ===== src/Btree/Runs.antt =====
-- The ends of code of src/backend/Btree.tpp that may make nodes: it returns, or throws where no page can be made.
use kndb.Base.{
  ℕ, ◌≡◌, ◌≢◌, refl, sym, ap, subst, ◌∙◌, Bool, true, List, Option, some, expect, M, ok, throws,
  runtime_error, pure, assume, ◌>>=◌, ◌>>◌, inl, inr, ◌⊎◌,
}
use kndb.Posix.{Posix, PosixLaws}
use kndb.Vari.Codec.{Memory}
use kndb.NodePage.{NodePage, new_page}
use kndb.Cache.Steps.{View}
use kndb.Pager.Client.{Client, get_self, set_self}
use kndb.Pager.Invariant.{IsOpen}
use kndb.Btree.{Btree, b_new}
use kndb.Btree.Reads.{NodeAt}
use kndb.Btree.Writes.{Writes, NodeRef, Same, KeepsTables, KeepsTables-refl, KeepsTables-trans}
use kndb.Btree.NewNode.{b_new_ends}

-- What a result, the pages and the tree object are like when the code returns.
abbrev pub After {ℓ} : Type ℓ → Type (ℓ ⊔ 1)
After A = A → View → List ℕ → Btree → Type 0

-- On an open database that shows `v`, with the tree object `t`.
pub record Runs {ℓ} {A : Type ℓ} {os : Posix} (m : M (Client os Btree) A) (v : View) (ids : List ℕ)
    (t : Btree) (P : After A) : Type ℓ where
  pub run :
      (s : Client os Btree)
      → IsOpen s.pager v ids
      → s.self ≡ t
      → ((a : A) × (s' : Client os Btree) × (w : View) × (list : List ℕ) × (m s ≡ ok a s')
          × IsOpen s'.pager w list
          × KeepsTables v w
          × P a w list s'.self)
        ⊎ ((s' : Client os Btree) × (m s ≡ throws runtime_error s'))

-- A view with one node more.
pub record Created (v w : View) (id r : ℕ) (p : NodePage) : Type 0 where
  pub new : NodeRef w id r p
  pub apart : (j : ℕ) (q : NodePage) → NodeAt v j q → j ≢ id
  pub kept : (j : ℕ) (q : NodePage) → NodeAt v j q → Same v w j
  pub tables : KeepsTables v w

module _ {os : Posix} {v : View} {ids : List ℕ} {t : Btree} where
  pub Writes-Runs {ℓ κ} :
      {A : Type ℓ} {B : Type κ} {m : M (Client os Btree) A} (f : A → M (Client os Btree) B)
      {w : View} {a : A} {P : After B}
      → Writes m v w ids a
      → Runs (f a) w ids t P
      → Runs (m >>= f) v ids t P
  Writes-Runs f h k = record {
    run = λ s o e.
        let (s1, r1, o1, e1) = h.run s o in
        elim (k.run s1 o1 (e1 ∙ e)) [
          | inl (b, s2, w, list, r2, o2, k2, post) ↦
              inl (b, s2, w, list, rw (r1, r2), o2, KeepsTables-trans h.tables k2, post)
          | inr (s2, r2) ↦ inr (s2, rw (r1, r2))
        ];
  }

  pub Writes-done {ℓ} :
      {A : Type ℓ} {m : M (Client os Btree) A} {w : View} {a : A} {P : After A}
      → Writes m v w ids a
      → P a w ids t
      → Runs m v ids t P
  Writes-done {w = w} {a = a} {P = P} h post = record {
    run = λ s o e.
        let (s1, r1, o1, e1) = h.run s o in
        inl (a, s1, w, ids, r1, o1, h.tables, subst (P a w ids) (sym (e1 ∙ e)) post);
  }

  pub expect-Runs {ℓ κ} :
      {A : Type ℓ} {B : Type κ} {o : Option A} {a : A} {P : After B} (f : A → M (Client os Btree) B)
      → o ≡ some a
      → Runs (f a) v ids t P
      → Runs (expect o >>= f) v ids t P
  expect-Runs f e h = rw e h

  pub assume-Runs {ℓ} :
      {B : Type ℓ} {P : After B} (b : Bool) (m : M (Client os Btree) B)
      → b ≡ true
      → Runs m v ids t P
      → Runs (assume b >> m) v ids t P
  assume-Runs b m e h = rw e h

  pub Runs-Runs {ℓ κ} :
      {A : Type ℓ} {B : Type κ} {m : M (Client os Btree) A} (f : A → M (Client os Btree) B)
      {P : After A} {Q : After B}
      → Runs m v ids t P
      → ((a : A) (w : View) (list : List ℕ) (u : Btree) → P a w list u → Runs (f a) w list u Q)
      → Runs (m >>= f) v ids t Q
  Runs-Runs f h k = record {
    run = λ s o e. elim (h.run s o e) [
      | inl (a, s1, w, list, r1, o1, k1, post) ↦ elim ((k a w list s1.self post).run s1 o1 refl) [
        | inl (b, s2, w2, list2, r2, o2, k2, post2) ↦
            inl (b, s2, w2, list2, rw (r1, r2), o2, KeepsTables-trans k1 k2, post2)
        | inr (s2, r2) ↦ inr (s2, rw (r1, r2))
      ]
      | inr (s1, r1) ↦ inr (s1, rw r1)
    ];
  }

  pub pure-Runs {ℓ} :
      {A : Type ℓ} {P : After A} (a : A) → P a v ids t → Runs {os = os} (pure a) v ids t P
  pure-Runs {P = P} a post = record {
    run = λ s o e. inl (a, s, v, ids, refl, o, KeepsTables-refl v, subst (P a v ids) (sym e) post);
  }

  pub get_self-Runs {ℓ} :
      {A : Type ℓ} (f : Btree → M (Client os Btree) A) {P : After A}
      → Runs (f t) v ids t P
      → Runs (get_self >>= f) v ids t P
  get_self-Runs f h = record {
    run = λ s o e. elim (h.run s o e) [
      | inl (b, s2, w, list, r2, o2, k2, post) ↦
          inl (b, s2, w, list, ap (λ x. f x s) e ∙ r2, o2, k2, post)
      | inr (s2, r2) ↦ inr (s2, ap (λ x. f x s) e ∙ r2)
    ];
  }

  pub set_self-Runs {ℓ} :
      {A : Type ℓ} {m : M (Client os Btree) A} {P : After A} (u : Btree)
      → Runs m v ids u P
      → Runs (set_self u >> m) v ids t P
  set_self-Runs u h = record { run = λ s o e. h.run (record s { self = u }) o refl }

  pub b_new-Runs {ℓ} :
      {A : Type ℓ} (mem : Memory) (laws : PosixLaws os) (deg par : ℕ) (root leaf : Bool)
      (f : ℕ → M (Client os Btree) A) {P : After A}
      → ((id r : ℕ) (w : View) (list : List ℕ)
          → Created v w id r (new_page deg par root leaf id)
          → Runs (f r) w list t P)
      → Runs (b_new os mem deg par root leaf >>= f) v ids t P
  b_new-Runs mem laws deg par root leaf f k = record {
    run = λ s o e. elim (b_new_ends os mem laws deg par root leaf s v ids o) [
      | inl (r, s1, r1, made) ↦
          elim ((k made.id r made.after made.list (record {
            new = made.new;
            apart = made.apart;
            kept = made.kept;
            tables = made.tables;
          })).run
            s1 made.opened (made.same_self ∙ e)) [
              | inl (b, s2, w, list, r2, o2, k2, post) ↦
                  inl (b, s2, w, list, rw (r1, r2), o2, KeepsTables-trans made.tables k2, post)
              | inr (s2, r2) ↦ inr (s2, rw (r1, r2))
            ]
      | inr (s1, r1) ↦ inr (s1, rw r1)
    ];
  }
