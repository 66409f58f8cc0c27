-- ===== src/FreeSpaceMap/Release/Pages.antt =====
-- What `freeBit` of src/backend/FreeSpaceMap.cpp makes of the pages and their list.
use kndb.Base.{
  ℕ, ◌+◌, ◌<◌, ◌≡◌, ◌≢◌, sym, ap, subst, ◌∙◌, true, false, List, [], ◌∷◌, ◌==◌, All, arith, inl,
  inr, Bool-cases, ==_iff,
}
use kndb.Fsm.{FsmPage}
use kndb.Fsm.Invariant
use kndb.FreeSpaceMap.Steps.{View, FsmAt, FsmAt-unique, renewed_at, other_at, before_at, renewed}
use kndb.FreeSpaceMap.Push.{Unlisted}
use kndb.FreeSpaceMap.Invariant.{Chain, Sound, IsValid, Chain-other, pages-renewed}

-- A page with free blocks and its link as before leaves the list as it is.
Chain-same :
    (v : View) (id : ℕ) (p q : FsmPage) (h : FsmAt v id p)
    → q.next_page_id ≡ p.next_page_id
    → 0 < q.free_blocks
    → (next : ℕ) (ids : List ℕ) → Chain v next ids
    → Chain (renewed v id p q h) next ids
Chain-same v id p q h same left next [] c = c
Chain-same v id p q h same left next (j ∷ ids) (c0, c1, c2, c3, r, k, some_free, rest) =
    let tail = Chain-same v id p q h same left r.next_page_id ids rest in
    elim (Bool-cases (id == j)) [
      | inl y ↦
          let here : id ≡ j = (==_iff id j).0 y in
          let page : r ≡ p = FsmAt-unique v id r p (subst (λ i. FsmAt v i r) (sym here) k) h in
          (
            c0,
            c1,
            c2,
            c3,
            q,
            subst (λ i. FsmAt (renewed v id p q h) i q) here (renewed_at id p h q),
            left,
            subst (λ n. Chain (renewed v id p q h) n ids)
                (ap (λ (a : FsmPage). a.next_page_id) page ∙ sym same) tail,
          )
      | inr n ↦ (c0, c1, c2, c3, r, other_at id p h q j r n k, some_free, tail)
    ]

-- A page without free blocks is not in the list.
pub Chain-apart :
    (v : View) (id : ℕ) (p : FsmPage)
    → FsmAt v id p
    → p.free_blocks ≡ 0
    → (next : ℕ) (ids : List ℕ) → Chain v next ids
    → All (λ j. j ≢ id) ids
Chain-apart v id p h none_left next [] c = tt
Chain-apart v id p h none_left next (j ∷ ids) (c0, c1, c2, c3, r, k, some_free, rest) = (
  (λ same. contradiction (
      ap (λ (a : FsmPage). a.free_blocks)
        (FsmAt-unique v id r p (subst (λ i. FsmAt v i r) same k) h))),
  Chain-apart v id p h none_left r.next_page_id ids rest,
)
  where
    contradiction : r.free_blocks ≡ p.free_blocks → ⊥
    contradiction e = omega arith

module _ (v : View) (ids : List ℕ) (h : IsValid v ids) (id : ℕ) (p q : FsmPage) (k : FsmAt v id p)
    (bit : ℕ) (turned : Invariant.Turned p q bit true)
    (count : q.free_blocks ≡ p.free_blocks + 1) where
  abbrev pub released : View
  released = renewed v id p q k

  pub released_Sound : Sound id q
  released_Sound =
      let s = h.pages id p k in
      record {
        valid = turned.valid;
        own = turned.same_id ∙ s.own;
        placed = s.placed;
        bounded = s.bounded;
      }

  pub released_pages : (j : ℕ) (r : FsmPage) → FsmAt released j r → Sound j r
  released_pages = pages-renewed v id p q k h.pages released_Sound

  -- A block of page 0.
  pub first_IsValid : id ≡ 0 → IsValid released ids
  first_IsValid zero = record {
    first = q;
    at_first = subst (λ j. FsmAt released j q) zero (renewed_at id p k q);
    chain = Chain-same v id p q k turned.same_next (omega arith) q.next_page_id ids (
        subst (λ n. Chain v n ids)
          (ap (λ (a : FsmPage). a.next_page_id)
              (FsmAt-unique v 0 h.first p h.at_first (subst (λ j. FsmAt v j p) zero k))
            ∙ sym turned.same_next)
          h.chain);
    pages = released_pages;
    listed = λ j r m out off. h.listed j r (before_at id p k q j r (ground arith) m) out off;
  }

  module _ (behind : (id == 0) ≡ false) where
    abbrev pub first_at : FsmAt released 0 h.first
    first_at = other_at id p k q 0 h.first behind h.at_first

    -- A block of a page of the list.
    pub listed_IsValid : (q.free_blocks == 1) ≡ false → IsValid released ids
    listed_IsValid left = record {
      first = h.first;
      at_first = first_at;
      chain = Chain-same v id p q k turned.same_next (omega arith) h.first.next_page_id ids h.chain;
      pages = released_pages;
      listed = λ j r m out off. elim (Bool-cases (id == j)) [
        | inl y ↦
            let same : id ≡ j = (==_iff id j).0 y in
            let gone : p.free_blocks ≡ 0 =
              h.listed id p k (λ z. out (sym same ∙ z))
                (subst (λ i. All (λ a. a ≢ i) ids) (sym same) off) in
            absurd (ground arith)
        | inr n ↦ h.listed j r (before_at id p k q j r n m) out off
      ];
    }

    -- A page that was full is not in the list yet.
    abbrev pub full_before : q.free_blocks ≡ 1 → Unlisted released ids id q
    full_before one =
        let apart : All (λ j. j ≢ id) ids =
          Chain-apart v id p k (omega arith) h.first.next_page_id ids h.chain in
        record {
          first = h.first;
          at_first = first_at;
          chain = Chain-other v id p q k h.first.next_page_id ids apart h.chain;
          page = renewed_at id p k q;
          behind = behind;
          apart = apart;
          pages = released_pages;
          listed = λ j r m out other off.
              h.listed j r (before_at id p k q j r (ground (arith, other)) m) out off;
        }
