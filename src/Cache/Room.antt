-- ===== src/Cache/Room.antt =====
-- `insertPage` of src/backend/PageCache.cpp while the ids of the pages are fewer than the cache has room for.
use kndb.Base.{
  ℕ, zero, suc, ◌+◌, ◌<◌, ◌≤◌, ◌≡◌, ◌≢◌, sym, ap, subst, ◌∙◌, List, [], ◌∷◌, Option, none, some, ok,
  ◌==◌, length, arith, inl, inr, Bool-cases, Option-cases, ==_iff, All,
}
use kndb.Posix.{Posix}
use kndb.Vari.Codec.{Memory}
use kndb.Page.{Page, get_page_id}
use kndb.Cache.{Owned, PageCache, insert_page}
use kndb.Cache.Entries.{
  Entry, id_of, find_id, remove_id, Absent, Distinct, All-remove_id, remove_id-Absent,
  remove_id-Distinct, find_id-remove_id, find_id-Absent,
}
use kndb.Cache.Hits.{find_id-first, length-remove_id, remove_id-unknown, insert_page_room}
use kndb.Cache.Views.{object_of, Shows, owned_of, put, remove_id-Objects}

length-remove_id_le : (id : ℕ) (es : List Entry) → length (remove_id id es) ≤ length es
length-remove_id_le id es = elim (Option-cases (find_id id es)) [
  | inl absent ↦ rw (remove_id-unknown id es absent) (omega arith)
  | inr (e, found) ↦ omega (arith, length-remove_id id es e found)
]

length_shorter : (id : ℕ) (es : List Entry) → length es ≤ length (remove_id id es) + 1
length_shorter id es = elim (Option-cases (find_id id es)) [
  | inl absent ↦ rw (remove_id-unknown id es absent) (omega arith)
  | inr (e, found) ↦ omega (arith, length-remove_id id es e found)
]

below :
    (n : ℕ) (es : List Entry)
    → All (λ e. id_of e < suc n) es
    → Absent n es
    → All (λ e. id_of e < n) es
below n [] h a = tt
below n (e ∷ es) h a = (ground arith, below n es h.1 a.1)

-- Pages with different ids below a number are at most so many.
length-below :
    (n next : ℕ) (es : List Entry) → Distinct next es → All (λ e. id_of e < n) es → length es ≤ n
length-below zero next [] d h = omega arith
length-below zero next (e ∷ es) d h = absurd (omega (arith, h.0))
length-below (suc n) next es d h = omega (
  arith,
  length_shorter n es,
  length-below n next (remove_id n es) (remove_id-Distinct n next es d)
      (below n (remove_id n es) (All-remove_id _ n es h) (remove_id-Absent n next es d)),
)

-- Every entry is shown, under its own id.
shown_ids :
    (P : ℕ → Type 0) (v : ℕ → Option Owned)
    → ((id : ℕ) (o : Owned) → v id ≡ some o → P id)
    → (next : ℕ) (es : List Entry) → Distinct next es
    → ((id : ℕ) (e : Entry) → find_id id es ≡ some e → v id ≡ some e.owned)
    → All (λ e. P (id_of e)) es
unfolding find_id
shown_ids P v h next [] d k = tt
shown_ids P v h next (e ∷ es) d k = (
  h (id_of e) e.owned (k (id_of e) e (find_id-first e es)),
  shown_ids P v h next es d.3 (λ id f found. k id f (later id f found)),
)
  where
    later : (id : ℕ) (f : Entry) → find_id id es ≡ some f → find_id id (e ∷ es) ≡ some f
    later id f found = elim (Bool-cases (id_of e == id)) [
      | inl y ↦
          let same : id_of e ≡ id = (==_iff _ _).0 y in
          let gone : find_id id es ≡ none =
            find_id-Absent id es (subst (λ j. Absent j es) same d.1) in
          cc
      | inr n ↦ rw n found
    ]

fresh_apart :
    (n : ℕ) (es : List Entry) → All (λ e. object_of e < n) es → All (λ e. object_of e ≢ n) es
fresh_apart n [] h = tt
fresh_apart n (e ∷ es) h = ((λ s. absurd (omega (arith, h.0))), fresh_apart n es h.1)

fresh_later :
    (n : ℕ) (es : List Entry) → All (λ e. object_of e < n) es → All (λ e. object_of e < n + 1) es
fresh_later n [] h = tt
fresh_later n (e ∷ es) h = (omega (arith, h.0), fresh_later n es h.1)

module _ {os : Posix} {c : PageCache os} {v : ℕ → Option Owned} (s : Shows c v) where
  -- The cache that `insertPage` leaves.
  pub record Inserted (page : Page) (c' : PageCache os) : Type 0 where
    pub shows : Shows c' (put v (get_page_id page) (record { object = c.next_object; page = page }))
    pub same_io : c'.io ≡ c.io
    pub same_capacity : c'.capacity ≡ c.capacity

  -- While all the pages shown have ids below the capacity `insertPage` evicts nothing: the cache shows
  -- the new page, at a new object, under its id, and the others as before.
  pub insert_page-Shows :
      (mem : Memory) (page : Page) (n : ℕ)
      → ((id : ℕ) (o : Owned) → v id ≡ some o → id < n)
      → n < c.capacity
      → (c' : PageCache os) × (insert_page os mem page c ≡ ok tt c') × Inserted page c'
  unfolding find_id
  insert_page-Shows mem page n h room =
      let id = get_page_id page in
      let inside : All (λ e. id_of e < n) s.entries =
        shown_ids (λ j. j < n) v h c.next_addr s.entries s.holds.distinct
          (λ j e found. s.shown j ∙ ap owned_of found) in
      let few : length s.entries ≤ n =
        length-below n c.next_addr s.entries s.holds.distinct inside in
      let few_left = length-remove_id_le id s.entries in
      let (c', run, f) = insert_page_room os mem c s.entries s.holds page (omega arith) in
      (
        c',
        run,
        record {
          shows = record {
            entries =
                record {
                  addr = c.next_addr;
                  owned = record { object = c.next_object; page = page };
                }
                ∷ remove_id id s.entries;
            holds = f.holds;
            within = omega (arith, f.same_capacity);
            objects = (
              fresh_apart c.next_object (remove_id id s.entries)
                  (All-remove_id _ id s.entries s.fresh),
              remove_id-Objects id s.entries s.objects,
            );
            fresh =
                subst
                  (λ k. (c.next_object < k) × All (λ e. object_of e < k) (remove_id id s.entries))
                  (sym f.same_objects)
                  (
                    omega arith,
                    fresh_later c.next_object (remove_id id s.entries)
                        (All-remove_id _ id s.entries s.fresh),
                  );
            shown = λ j. elim (Bool-cases (id == j)) [
              | inl y ↦ rw y
              | inr m ↦
                  rw (m, find_id-remove_id id j c.next_addr s.entries s.holds.distinct, m)
                    (s.shown j)
            ];
          };
          same_io = f.same_io;
          same_capacity = f.same_capacity;
        },
      )
