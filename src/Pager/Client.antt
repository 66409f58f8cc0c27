-- ===== src/Pager/Client.antt =====
-- An object that refers to a `Pager` of src/backend/Pager.hpp, with the pages of that pager.
use kndb.Base.{M, ok, zoom}
use kndb.Posix.{Posix}
use kndb.Cache.{PageCache}

pub record Client (os : Posix) (X : Type 0) : Type 0 where
  pub pager : PageCache os
  pub self : X

module _ {os : Posix} where
  -- A call on the pager.
  abbrev pub on_pager {ℓ} : {A : Type ℓ} {X : Type 0} → M (PageCache os) A → M (Client os X) A
  on_pager = zoom (λ s. s.pager) (λ c s. record s { pager = c })

  -- A call on an object that this one holds.
  abbrev pub on_part {ℓ} :
      {A : Type ℓ} {X Y : Type 0} → (X → Y) → (Y → X → X) → M (Client os Y) A → M (Client os X) A
  on_part get put =
      zoom (λ s. record { pager = s.pager; self = get s.self })
        (λ t s. record { pager = t.pager; self = put t.self s.self })

  abbrev pub get_self : {X : Type 0} → M (Client os X) X
  get_self s = ok s.self s

  abbrev pub set_self : {X : Type 0} → X → M (Client os X) (Unit {0})
  set_self x s = ok tt (record s { self = x })
