-- ===== src/Cache/Front.antt =====
-- `updateLRU` of src/backend/PageCache.cpp while nothing has to leave the cache.
use kndb.Base.{
  ℕ, suc, ◌+◌, ◌<◌, ◌≡◌, ◌≢◌, refl, sym, ap, ◌∙◌, false, List, [], ◌∷◌, some, ok, ltb, ◌==◌, length,
  arith, inl, inr, Bool-cases, map, All,
}
use kndb.Posix.{Posix}
use kndb.Vari.Codec.{Memory}
use kndb.Page.{get_page_id}
use kndb.Cache.{Owned, Node, PageCache, map_set, erase_mapped, place_front, update_lru}
use kndb.Cache.Entries.{
  Entry, node_of, find_id, remove_id, Distinct, addr_of, Holds, remove_id-Absent,
  remove_id-Distinct, find_id-remove_id,
}

length-map_node : (es : List Entry) → length (map node_of es) ≡ length es
length-map_node [] = refl
length-map_node (e ∷ es) = ap suc (length-map_node es)

Distinct-suc : (next : ℕ) (es : List Entry) → Distinct next es → Distinct (next + 1) es
Distinct-suc next [] d = tt
Distinct-suc next (e ∷ es) d = (omega arith, d.1, d.2, Distinct-suc next es d.3)

Distinct-fresh : (next : ℕ) (es : List Entry) → Distinct next es → All (λ f. f.addr ≢ next) es
Distinct-fresh next [] d = tt
Distinct-fresh next (e ∷ es) d = ((λ s. absurd (omega arith)), Distinct-fresh next es d.3)

-- `c'` is `c` with the page in front, the others as they were, and the same file.
pub record Fronted {os : Posix} (c c' : PageCache os) (es : List Entry) (owned : Owned)
    : Type 0 where
  pub holds :
      Holds c'
        (record { addr = c.next_addr; owned = owned } ∷ remove_id (get_page_id owned.page) es)
  pub same_io : c'.io ≡ c.io
  pub same_capacity : c'.capacity ≡ c.capacity
  pub same_objects : c'.next_object ≡ c.next_object

not_less :
    {a b : ℕ} {ns : List Node} {e : Entry} (es : List Entry)
    → a ≡ b
    → ns ≡ map node_of (e ∷ es)
    → length es < b
    → ltb a (length ns) ≡ false
not_less {a} {b} {ns} {e} es p q h =
    let l : length ns ≡ suc (length es) = ap length q ∙ length-map_node (e ∷ es) in ground arith

module _ (os : Posix) (mem : Memory) (c : PageCache os) (es : List Entry) (owned : Owned)
    (indexed : (id : ℕ) → c.map id ≡ addr_of (find_id id es)) (distinct : Distinct c.next_addr es)
    (behind : erase_mapped (c.map (get_page_id owned.page)) c.list
      ≡ map node_of (remove_id (get_page_id owned.page) es)) where
  place_front-Fronted :
      (c' : PageCache os) × (place_front os mem owned c ≡ ok tt c') × Fronted c c' es owned
  unfolding place_front find_id
  place_front-Fronted =
      let id = get_page_id owned.page in
      let kept = remove_id-Distinct id c.next_addr es distinct in
      (
        record c {
          list = record { addr = c.next_addr; ptr = some owned } ∷ erase_mapped (c.map id) c.list;
          map = map_set c.map id (some c.next_addr);
          next_addr = c.next_addr + 1;
        },
        refl,
        record {
          holds = record {
            nodes = ap (◌∷◌ (record { addr = c.next_addr; ptr = some owned })) behind;
            indexed = λ j. elim (Bool-cases (id == j)) [
              | inl y ↦ rw y
              | inr n ↦ rw n (
                  indexed j
                  ∙ ap addr_of (sym (find_id-remove_id id j c.next_addr es distinct ∙ rw n)))
            ];
            distinct = (
              omega arith,
              remove_id-Absent id c.next_addr es distinct,
              Distinct-fresh c.next_addr (remove_id id es) kept,
              Distinct-suc c.next_addr (remove_id id es) kept,
            );
          };
          same_io = refl;
          same_capacity = refl;
          same_objects = refl;
        },
      )

  -- While the cache has room for the page `updateLRU` evicts nothing.
  pub update_lru-Fronted :
      length (remove_id (get_page_id owned.page) es) < c.capacity
      → (c' : PageCache os) × (update_lru os mem owned c ≡ ok tt c') × Fronted c c' es owned
  unfolding update_lru
  update_lru-Fronted room =
      let (c', run, f) = place_front-Fronted in
      let full : ltb c'.capacity (length c'.list) ≡ false =
        not_less (remove_id (get_page_id owned.page) es) (f.same_capacity) (f.holds.nodes) room in
      (c', rw (run, full), f)
