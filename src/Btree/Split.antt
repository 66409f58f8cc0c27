-- ===== src/Btree/Split.antt =====
-- `split` of src/backend/Btree.tpp on a whole tree.
use kndb.Base.{
  ℕ, zero, suc, ◌+◌, ◌*◌, ◌^◌, ◌≤◌, ◌≡◌, refl, sym, subst, Bool, true, false, not, List, [], ◌∷◌, M,
  pure, ◌>>=◌, ◌>>◌, if◌then◌else◌, arith, ltb, length, inl, inr, ◌⊎◌, Bool-cases,
}
use kndb.Constants.{pgid_invalid}
use kndb.Posix.{Posix, PosixLaws}
use kndb.Vari.Codec.{Memory}
use kndb.NodePage.{Cell, NodePage, max_keys}
use kndb.Cache.Steps.{View}
use kndb.Pager.Client.{Client}
use kndb.Btree.{Btree, fields, split_inner, split_root, split}
use kndb.Btree.Tree.{Tree, tree, Forest, cells_of}
use kndb.Btree.Search.{root_of}
use kndb.Btree.Shape.{Frame, plug, occurs}
use kndb.Btree.Writes.{at_of, b_node-Writes, fields-Writes}
use kndb.Btree.Runs.{After, Runs, Writes-Runs, Runs-Runs, pure-Runs}
use kndb.Btree.Sound.{TreeOk, Spare, FramesOk-plug, at_root}
use kndb.Btree.Spot.{Spot}
use kndb.Btree.SplitInner.{Stepped, split_inner_ends}
use kndb.Btree.SplitRoot.{split_root_ends}

-- A whole tree, each node once, with the tree object that refers to it.
pub record Stored (v : View) (t : Btree) (d : ℕ) (whole : Tree) : Type 0 where
  pub sound : TreeOk v d pgid_invalid true whole
  pub once : (k : ℕ) → occurs k whole ≤ 1
  pub root : t.root_page_id ≡ root_of whole
  pub degree : t.degree ≡ d

-- The tree has these cells.
abbrev pub Holds : ℕ → List Cell → After (Unit {0})
Holds d cells a w list u = (whole : Tree) × Stored w u d whole × (cells_of whole ≡ cells)

pub Spot-Stored :
    (v : View) (t : Btree) (d : ℕ) (fs : List Frame) (id r : ℕ) (p : NodePage) (kids : Forest)
    → Spot v t d fs id r p kids
    → Spare d p
    → Stored v t d (plug fs (tree id p kids))
unfolding TreeOk
Spot-Stored v t d fs id r p kids h room = record {
  sound = FramesOk-plug v d fs (tree id p kids) h.frames (at_of h.node, h.good, room, h.kids_ok);
  once = h.once;
  root = h.root;
  degree = h.degree;
}

module _ (d : ℕ) (two : 2 ≤ d) (narrow : d ≤ 2 ^ 15) where
  -- `maxKeys`
  most_keys : (p : NodePage) → p.degree ≡ d → max_keys p + 1 ≡ 2 * d
  unfolding max_keys
  most_keys p e = rw e (ground arith)

  roomy_node : (p : NodePage) → p.degree ≡ d → Spare d p → ltb (length p.cells) (max_keys p) ≡ true
  roomy_node p e room = ground (arith, most_keys p e)

  full_node :
      (p : NodePage)
      → p.degree ≡ d
      → length p.cells + 1 ≡ 2 * d
      → ltb (length p.cells) (max_keys p) ≡ false
  full_node p e full = ground (arith, most_keys p e)

  room_or_full :
      (p : NodePage) → length p.cells + 1 ≤ 2 * d → Spare d p ⊎ (length p.cells + 1 ≡ 2 * d)
  room_or_full p few = elim (Bool-cases (ltb (length p.cells + 1) (2 * d))) [
    | inl room ↦ inl (ground (arith, room))
    | inr full ↦ inr (ground (arith, full, few))
  ]

  module _ (os : Posix) (mem : Memory) (laws : PosixLaws os) where
    -- The rest of a call of `split`, on a node that is full.
    abbrev step_code : ℕ → ℕ → ℕ → Bool → M (Client os Btree) (Unit {0})
    step_code fuel r id root = do
      (if not root then split_inner os mem r id else split_root os mem r id)
      p ← fields os mem r
      (if not p.root then split os mem fuel p.parent_id else pure tt)

    split_room :
        (fuel : ℕ) (v : View) (ids : List ℕ) (t : Btree) (fs : List Frame) (id r : ℕ) (p : NodePage)
        (kids : Forest)
        → Spot v t d fs id r p kids
        → Spare d p
        → Runs (split os mem (suc fuel) id) v ids t (Holds d (cells_of (plug fs (tree id p kids))))
    unfolding split
    split_room fuel v ids t fs id r p kids h room = Writes-Runs _ (b_node-Writes h.node mem) (
        Writes-Runs _ (fields-Writes h.node mem) (
          rw (roomy_node p h.good.degree room) (
            pure-Runs tt
              (plug fs (tree id p kids), Spot-Stored v t d fs id r p kids h room, refl))))

    split_full :
        (fuel : ℕ) (v : View) (ids : List ℕ) (t : Btree) (fs : List Frame) (id r : ℕ) (p : NodePage)
        (kids : Forest) (P : After (Unit {0}))
        → Spot v t d fs id r p kids
        → length p.cells + 1 ≡ 2 * d
        → Runs (step_code fuel r id (at_root fs)) v ids t P
        → Runs (split os mem (suc fuel) id) v ids t P
    unfolding split
    split_full fuel v ids t fs id r p kids P h full rest =
        Writes-Runs _ (b_node-Writes h.node mem) (
          Writes-Runs _ (fields-Writes h.node mem) (
            rw (full_node p h.good.degree full)
              (subst (λ b. Runs (step_code fuel r id b) v ids t P) (sym h.good.is_root) rest)))

    -- On the way up.
    split_up :
        (fuel : ℕ) (w : View) (list : List ℕ) (u : Btree) (gs : List Frame) (id r : ℕ)
        (cells : List Cell) (s : Stepped w u d gs id r cells)
        → Runs
            (split os mem fuel s.up)
            w
            list
            u
            (Holds d (cells_of (plug gs (tree s.up s.page s.kids))))
        → Runs
            (fields os mem r >>= λ p. if not p.root then split os mem fuel p.parent_id else pure tt)
            w
            list
            u
            (Holds d cells)
    split_up fuel w list u gs id r cells s rest = Writes-Runs _ (fields-Writes s.node mem) (
        rw (s.not_root, s.parent)
          (subst (λ cs. Runs (split os mem fuel s.up) w list u (Holds d cs)) s.same_cells rest))

    pub split_ends :
        (fuel : ℕ) (v : View) (ids : List ℕ) (t : Btree) (fs : List Frame) (id r : ℕ) (p : NodePage)
        (kids : Forest)
        → length fs + 2 ≤ fuel
        → Spot v t d fs id r p kids
        → Runs (split os mem fuel id) v ids t (Holds d (cells_of (plug fs (tree id p kids))))
    split_ends zero v ids t fs id r p kids enough h = absurd (omega arith)
    split_ends (suc zero) v ids t fs id r p kids enough h = absurd (omega arith)
    split_ends (suc (suc fuel)) v ids t [] id r p kids enough h = elim (room_or_full p h.few) [
      | inl room ↦ split_room (suc fuel) v ids t [] id r p kids h room
      | inr full ↦ split_full (suc fuel) v ids t [] id r p kids _ h full (
          Runs-Runs _ (split_root_ends d two narrow v t id r p kids h full os mem laws ids)
            (λ a w list u stepped.
              let (s, room) = stepped in
              split_up (suc fuel) w list u [] id r (cells_of (plug [] (tree id p kids))) s
                (split_room fuel w list u [] s.up s.object s.page s.kids s.spot room)))
    ]
    split_ends (suc (suc fuel)) v ids t (f ∷ gs) id r p kids enough h =
        elim (room_or_full p h.few) [
          | inl room ↦ split_room (suc fuel) v ids t (f ∷ gs) id r p kids h room
          | inr full ↦ split_full (suc fuel) v ids t (f ∷ gs) id r p kids _ h full (
              Runs-Runs _
                (split_inner_ends d two narrow os mem laws v ids t gs f id r p kids h full)
                (λ a w list u s.
                  split_up (suc fuel) w list u gs id r (cells_of (plug (f ∷ gs) (tree id p kids))) s
                    (split_ends (suc fuel) w list u gs s.up s.object s.page s.kids
                      (omega (arith, enough)) s.spot)))
        ]
