-- ===== src/FreeSpaceMap/Others.antt =====
-- Pages that are not FSM pages, in the cache of src/backend/PageCache.hpp, to which the code of
-- src/backend/FreeSpaceMap.cpp does nothing.
use kndb.Base.{
  ℕ, ◌≡◌, refl, sym, ap, ◌∙◌, Bool, true, false, Option, none, some, ◌==◌, inl, inr, Bool-cases,
  ==_iff,
}
use kndb.Fsm.{FsmPage}
use kndb.Page.{fsm_kind, has_kind}
use kndb.Cache.{Owned}
use kndb.FreeSpaceMap.Steps.{View, FsmAt, renewed}

abbrev pub is_map : Option Owned → Bool
is_map none = false
is_map (some o) = has_kind fsm_kind o.page

-- What is not an FSM page is the same in `w`, and what is one is one in `w`.
pub record KeepsOthers (v w : View) : Type 0 where
  pub others : (j : ℕ) → is_map (v j) ≡ false → w j ≡ v j
  pub maps : (j : ℕ) → is_map (v j) ≡ true → is_map (w j) ≡ true

pub KeepsOthers-refl : (v : View) → KeepsOthers v v
KeepsOthers-refl v = record { others = λ j h. refl; maps = λ j h. h }

pub KeepsOthers-trans : (v w u : View) → KeepsOthers v w → KeepsOthers w u → KeepsOthers v u
KeepsOthers-trans v w u h k = record {
  others = λ j n. k.others j (ap is_map (h.others j n) ∙ n) ∙ h.others j n;
  maps = λ j m. k.maps j (h.maps j m);
}

pub renewed-KeepsOthers :
    (v : View) (id : ℕ) (p q : FsmPage) (h : FsmAt v id p) → KeepsOthers v (renewed v id p q h)
renewed-KeepsOthers v id p q h = record {
  others = λ j n. elim (Bool-cases (id == j)) [
    | inl y ↦
        let here : is_map (v j) ≡ true = rw (← (==_iff id j).0 y, h.shown) in
        absurd (different (sym here ∙ n))
    | inr n ↦ rw n
  ];
  maps = λ j m. elim (Bool-cases (id == j)) [ inl y ↦ rw y | inr n ↦ rw n m ];
}
  where
    different : true ≡ false → ⊥
    different e = cc
