-- ===== src/Btree/SplitRoot.antt =====
-- `split` of a full root of src/backend/Btree.tpp.
use kndb.Base.{
  ℕ, ◌+◌, ◌*◌, ◌/◌, ◌^◌, ◌≤◌, ◌≡◌, ◌≢◌, refl, sym, subst, true, false, List, [], ◌∷◌, ◌++◌, M,
  ◌>>=◌, ◌>>◌, if◌then◌else◌, arith, ◌==◌, length, inl, inr, Bool-cases,
}
use kndb.Constants.{pgid_invalid}
use kndb.Posix.{Posix, PosixLaws}
use kndb.Vari.Codec.{Memory}
use kndb.NodePage.{NodePage, new_page}
use kndb.Cache.Steps.{View}
use kndb.Pager.Client.{Client, set_self}
use kndb.Btree.{
  Btree, b_node, b_new, fields, on_node, set_children, set_root, set_parent, move_half,
  raise_median, split_root,
}
use kndb.Btree.Tree.{tree, Forest, none_left, cells_of, weave, count}
use kndb.Btree.Search.{Fits}
use kndb.Btree.Shape.{join, Frame, plug, occurs, occurs_in, occurs_above}
use kndb.Btree.Writes.{
  NodeRef, at_of, Same, Same-trans, same_NodeRef, write_node, written, unwritten, b_node-Writes,
  fields-Writes, on_node-Writes,
}
use kndb.Btree.Runs.{
  After, Created, Runs, Writes-Runs, Writes-done, b_new-Runs, get_self-Runs, set_self-Runs,
}
use kndb.Btree.Sound.{Spare, ForestOk, self_one, apart_none, keep_forest}
use kndb.Btree.Halves.{raise_median_lem}
use kndb.Btree.Spread.{Even-Fits, Cut, cut_node}
use kndb.Btree.NewHalf.{Spread, Absent-in, new_half_at}
use kndb.Btree.Spot.{Spot, Full, linked, half_l, new_kids, fed_cells}
use kndb.Btree.Fed.{
  after_raise, id_apart, opened, opened_ref, opened-Open, fed-Spot, fed_kept, low_kept,
}
use kndb.Btree.SplitInner.{Stepped}

-- The new root, above the old one.
abbrev root_page : ℕ → ℕ → NodePage
root_page d top = new_page d pgid_invalid true false top

count_none : count none_left ≡ 0
unfolding count
count_none = refl

abbrev top_frame : ℕ → ℕ → Frame
top_frame d top = record {
  id = top;
  page = root_page d top;
  left = none_left;
  right = none_left;
  before = [];
  behind = [];
  cells = refl;
  even = count_none;
}

abbrev lowered : ℕ → NodePage → NodePage
lowered top p = record p { root = false; parent_id = top }

-- What `split` does below the new root.
abbrev below_root_code : (os : Posix) → Memory → Btree → ℕ → ℕ → ℕ → M (Client os Btree) (Unit {0})
below_root_code os mem t id r rt = do
  q ← fields os mem rt
  set_self (record t { root_page_id = q.page_id })
  on_node os mem r (set_root os mem false)
  on_node os mem r (set_parent os mem q.page_id)
  median ← raise_median os mem r rt (length q.cells)
  curr ← b_node os mem id
  p ← fields os mem curr
  n ← b_new os mem t.degree q.page_id false p.leaf
  move_half os mem r n median
  new ← fields os mem n
  on_node os mem rt (set_children os mem (q.children ++ id ∷ new.page_id ∷ []))

module _ (d : ℕ) (two : 2 ≤ d) (narrow : d ≤ 2 ^ 15) (v : View) (t : Btree) (id r : ℕ)
    (p : NodePage) (kids : Forest) (h : Spot v t d [] id r p kids)
    (size : length p.cells + 1 ≡ 2 * d) where
  lowered-Fits : (top : ℕ) → Fits (lowered top p) kids
  lowered-Fits top =
      Even-Fits (lowered top p) kids h.good.fits.children h.good.fits.few
        (elim (Bool-cases p.leaf) [
          | inl leaf ↦ inl (leaf, h.good.fits.leaf leaf)
          | inr inner ↦ inr (inner, h.good.fits.inner inner, omega (arith, size, two))
        ])

  module _ (v1 : View) (top rt : ℕ) (made : Created v v1 top rt (root_page d top)) where
    abbrev node1 : NodeRef v1 id r p
    node1 = same_NodeRef (made.kept id p (at_of h.node)) h.node

    abbrev unrooted : NodePage
    unrooted = record p { root = false }

    abbrev node2 : NodeRef (write_node v1 id r unrooted) id r unrooted
    node2 = written node1 unrooted h.node.own

    abbrev v3 : View
    v3 = write_node (write_node v1 id r unrooted) id r (lowered top p)

    lowered_stays : (j : ℕ) → j ≢ id → Same v1 v3 j
    lowered_stays j off =
        Same-trans (unwritten node1 unrooted j off) (unwritten node2 (lowered top p) j off)

    abbrev grown : Btree
    grown = record t { root_page_id = top }

    once_top :
        (k : ℕ)
        → (if id == k then 1 else 0) + occurs_in k kids + (if top == k then 1 else 0) + (0 + 0 + 0)
          ≤ 1
    unfolding plug occurs
    once_top k = elim (Bool-cases (top == k)) [
      | inl e ↦
          let same : top ≡ k = ground (arith, e) in
          let none_top : occurs_in k kids ≡ 0 =
            subst (λ j. occurs_in j kids ≡ 0) same
              (Absent-in v d id kids top h.kids_ok made.apart) in
          let off : (id == k) ≡ false = ground (arith, same, made.apart id p (at_of h.node)) in
          rw (off, e) (omega (arith, none_top))
      | inr n ↦ rw n (omega (arith, h.once k))
    ]

    lowered-Full : Full v3 grown d [] (top_frame d top) id r rt (lowered top p) kids
    unfolding plug occurs occurs_above count ForestOk
    lowered-Full =
        let off : top ≢ id = λ e. made.apart id p (at_of h.node) (sym e) in
        let none_below : occurs_in id kids ≡ 0 = omega (arith, h.once id, self_one id) in
        let none_top : occurs_in top kids ≡ 0 = Absent-in v d id kids top h.kids_ok made.apart in
        record {
          node = written node2 (lowered top p) h.node.own;
          good = record {
            fits = lowered-Fits top;
            degree = h.good.degree;
            parent = refl;
            is_root = refl;
          };
          kids_ok =
              keep_forest v v3 d id kids
                (λ j x a o.
                  Same-trans (made.kept j x a)
                    (lowered_stays j (apart_none (λ k. occurs_in k kids) id j none_below o)))
                h.kids_ok;
          parent = same_NodeRef (lowered_stays top off) made.new;
          inner = refl;
          around_even = omega arith;
          up_degree = refl;
          up_parent = refl;
          up_root = refl;
          room = omega (arith, two);
          lefts = tt;
          rights = tt;
          frames = tt;
          once = once_top;
          root = refl;
          degree = h.degree;
        }

    abbrev halves : Cut d (lowered top p) kids
    halves = cut_node d (lowered top p) kids two size (lowered-Fits top)

    module _ (os : Posix) (mem : Memory) where
      -- The halves are the only children of the new root.
      link_root :
          (w : View) (list : List ℕ) (new : ℕ)
          → Spread
              (after_raise d narrow v3 grown []
                (top_frame d top)
                id
                r
                rt
                (lowered top p)
                kids
                lowered-Full
                halves)
              w
              d
              id
              r
              top
              new
              (opened d narrow v3 grown []
                (top_frame d top)
                id
                r
                rt
                (lowered top p)
                kids
                lowered-Full
                halves)
              halves.ls
              halves.rs
              halves.kl
              halves.kr
          → Runs
              (on_node os mem rt (set_children os mem (id ∷ new ∷ [])))
              w
              list
              grown
              (λ a x list u.
                (s : Stepped x u d [] id r (cells_of (plug [] (tree id p kids)))) × Spare d s.page)
      unfolding plug join weave
      link_root w list new s =
          let up =
            fed_kept d narrow v3 grown [] (top_frame d top) id r rt (lowered top p) kids
              lowered-Full halves w new s in
          Writes-done
            (on_node-Writes up mem _ tt
              (linked d (top_frame d top) id (lowered top p) kids halves new) refl refl)
            (
              record {
                up = top;
                object = rt;
                page = linked d (top_frame d top) id (lowered top p) kids halves new;
                kids = new_kids d (top_frame d top) id (lowered top p) kids halves new;
                spot =
                    fed-Spot d narrow v3 grown [] (top_frame d top) id r rt (lowered top p) kids
                      lowered-Full halves w new s;
                same_cells = fed_cells d (top_frame d top) id (lowered top p) kids halves new;
                low = half_l d (top_frame d top) id (lowered top p) kids halves;
                node =
                    low_kept d narrow v3 grown [] (top_frame d top) id r rt (lowered top p) kids
                      lowered-Full halves w new s;
                not_root = refl;
                parent = refl;
              },
              omega (arith, two),
            )

      below_root :
          (laws : PosixLaws os) (list : List ℕ)
          → Runs (below_root_code os mem t id r rt) v1 list t (λ a x list u.
            (s : Stepped x u d [] id r (cells_of (plug [] (tree id p kids)))) × Spare d s.page)
      below_root laws list =
          let full = lowered-Full in
          let ref =
            opened_ref d narrow v3 grown [] (top_frame d top) id r rt (lowered top p) kids full
              halves in
          Writes-Runs _ (fields-Writes made.new mem) (
            set_self-Runs grown (
              Writes-Runs _ (on_node-Writes node1 mem _ tt unrooted refl h.node.own) (
                Writes-Runs _ (on_node-Writes node2 mem _ tt (lowered top p) refl h.node.own) (
                  Writes-Runs _
                    (raise_median_lem os mem list v3 id r top rt (lowered top p) (root_page d top)
                      halves.ls halves.rs [] [] halves.c full.node full.parent
                      (id_apart d narrow v3 grown [] (top_frame d top) id r rt (lowered top p) kids
                        full halves)
                      halves.cells halves.half refl)
                    (Writes-Runs _ (b_node-Writes ref mem) (
                      Writes-Runs _ (fields-Writes ref mem) (
                        new_half_at d two narrow os mem laws
                          (λ x. on_node os mem rt (set_children os mem (id ∷ x.page_id ∷ [])))
                          (after_raise d narrow v3 grown [] (top_frame d top) id r rt
                            (lowered top p) kids full halves)
                          id r top
                          (opened d narrow v3 grown [] (top_frame d top) id r rt (lowered top p)
                            kids full halves)
                          halves.ls halves.rs halves.kl halves.kr
                          (opened-Open d narrow v3 grown [] (top_frame d top) id r rt
                            (lowered top p) kids full halves)
                          (λ new w list s. link_root w list new s) t.degree top (length p.cells / 2)
                          h.degree refl halves.half)))))))

  abbrev pub RootStepped : After (Unit {0})
  RootStepped a w list u =
      (s : Stepped w u d [] id r (cells_of (plug [] (tree id p kids)))) × Spare d s.page

  pub split_root_ends :
      (os : Posix) (mem : Memory) (laws : PosixLaws os) (ids : List ℕ)
      → Runs (split_root os mem r id) v ids t RootStepped
  unfolding split_root
  split_root_ends os mem laws ids =
      get_self-Runs
        (λ u.
          b_new os mem u.degree pgid_invalid true false >>= λ rt. below_root_code os mem u id r rt)
        (subst
          (λ g.
            Runs (b_new os mem g pgid_invalid true false >>= λ rt. below_root_code os mem t id r rt)
              v ids t RootStepped)
          (sym h.degree)
          (b_new-Runs mem laws d pgid_invalid true false _
            (λ top rt v1 list made. below_root v1 top rt made os mem laws list)))
