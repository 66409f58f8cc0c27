-- ===== src/FreeSpaceMap/Same.antt =====
-- Views of the cache of src/backend/PageCache.hpp that differ in pages other than FSM pages, which are all
-- the same to src/backend/FreeSpaceMap.cpp.
use kndb.Base.{
  ℕ, ◌*◌, ◌/◌, ◌%◌, ◌≡◌, refl, sym, ap, ◌∙◌, true, false, List, [], ◌∷◌, Option, none, some, ◌==◌,
  inl, inr, Bool-cases, ==_iff,
}
use kndb.Fsm.{FsmPage, get_blocks_in_page}
use kndb.Page.{Page, fsm, schema, table, node}
use kndb.Cache.{Owned}
use kndb.Cache.Views.{put}
use kndb.FreeSpaceMap.Steps.{View, FsmAt}
use kndb.FreeSpaceMap.Invariant.{Chain, IsValid, owned_free, free_in, free_id}
use kndb.FreeSpaceMap.Others.{is_map}

pub record SameMaps (v w : View) : Type 0 where
  pub to : (id : ℕ) (p : FsmPage) → FsmAt v id p → FsmAt w id p
  pub from : (id : ℕ) (p : FsmPage) → FsmAt w id p → FsmAt v id p
  pub free : (id i : ℕ) → free_in w id i ≡ free_in v id i

pub Chain-mono :
    (v w : View)
    → ((id : ℕ) (p : FsmPage) → FsmAt v id p → FsmAt w id p)
    → (next : ℕ) (ids : List ℕ) → Chain v next ids
    → Chain w next ids
Chain-mono v w to next [] c = c
Chain-mono v w to next (j ∷ ids) (c0, c1, c2, c3, p, k, some_free, rest) =
    (c0, c1, c2, c3, p, to j p k, some_free, Chain-mono v w to p.next_page_id ids rest)

pub same_IsValid : (v w : View) (ids : List ℕ) → SameMaps v w → IsValid v ids → IsValid w ids
same_IsValid v w ids s h = record {
  first = h.first;
  at_first = s.to 0 h.first h.at_first;
  chain = Chain-mono v w s.to h.first.next_page_id ids h.chain;
  pages = λ id p k. h.pages id p (s.from id p k);
  listed = λ id p k. h.listed id p (s.from id p k);
}

pub not_map_free : (o : Option Owned) (i : ℕ) → is_map o ≡ false → owned_free o i ≡ false
not_map_free none i h = refl
not_map_free (some o) i h = go o.page h
  where
    go :
        (p : Page)
        → is_map (some (record { object = o.object; page = p })) ≡ false
        → owned_free (some (record { object = o.object; page = p })) i ≡ false
    go (fsm p) h = cc
    go (schema p) h = refl
    go (table p) h = refl
    go (node p) h = refl

-- Another page in place of one that is not an FSM page, if any.
pub put-SameMaps :
    (v : View) (id : ℕ) (o : Owned)
    → is_map (v id) ≡ false
    → is_map (some o) ≡ false
    → SameMaps v (put v id o)
put-SameMaps v id o before now = record {
  to = λ j p k. elim (Bool-cases (id == j)) [
    | inl y ↦
        let here : is_map (v id) ≡ true = rw ((==_iff id j).0 y, k.shown) in
        absurd (different (sym here ∙ before))
    | inr n ↦ record { object = k.object; shown = rw (n, k.shown) }
  ];
  from = λ j p k. elim (Bool-cases (id == j)) [
    | inl y ↦
        let here : put v id o j ≡ some o = rw y in
        absurd (different (sym (ap is_map k.shown) ∙ ap is_map here ∙ now))
    | inr n ↦
        let here : put v id o j ≡ v j = rw n in
        record { object = k.object; shown = sym here ∙ k.shown }
  ];
  free = λ j i. elim (Bool-cases (id == j)) [
    | inl y ↦ rw (y, not_map_free (some o) i now, ← (==_iff id j).0 y, not_map_free (v id) i before)
    | inr n ↦ rw n
  ];
}
  where
    different : true ≡ false → ⊥
    different e = cc

pub free_id-same : (v w : View) → SameMaps v w → (m : ℕ) → free_id w m ≡ free_id v m
free_id-same v w s m = s.free (m / get_blocks_in_page * get_blocks_in_page) (m % get_blocks_in_page)
