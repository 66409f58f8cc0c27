-- ===== src/Btree/NewHalf.antt =====
-- The node that `split` of src/backend/Btree.tpp makes, with the second half of the cells and children.
use kndb.Base.{
  ℕ, ◌+◌, ◌^◌, ◌<◌, ◌≤◌, ◌≡◌, ◌≢◌, refl, sym, ap, subst, ◌∙◌, true, false, List, [], ◌∷◌, ◌++◌, M,
  ◌>>=◌, ◌>>◌, if◌then◌else◌, arith, ◌==◌, length, inl, inr, ◌⊎◌, Bool-cases,
}
use kndb.Constants.{cellid_invalid}
use kndb.Posix.{Posix, PosixLaws}
use kndb.Vari.Codec.{Memory}
use kndb.NodePage.{Cell, NodePage}
use kndb.Cache.Steps.{View}
use kndb.Pager.Client.{Client}
use kndb.Btree.{Btree, fields, b_new, move_half}
use kndb.Btree.Tree.{Tree, tree, Forest, none_left, count}
use kndb.Btree.Reads.{NodeAt}
use kndb.Btree.Search.{roots_of}
use kndb.Btree.Shape.{Frame, occurs_in, occurs_above}
use kndb.Btree.Writes.{NodeRef, at_of, Same, Same-trans, same_NodeRef, fields-Writes}
use kndb.Btree.Runs.{Created, After, Runs, Writes-Runs, b_new-Runs}
use kndb.Btree.Sound.{TreeOk, ForestOk, FramesOk, keep_forest, self_one, occurs_in_at}
use kndb.Btree.Moves.{reparent, roots_of-reparent, count-reparent}
use kndb.Btree.Halves.{half_page, Whole, Halved, Shares, move_half_lem}
use kndb.Btree.Spread.{Even, Even-Fits}

-- An id of no node occurs nowhere.
abbrev pub Absent : View → ℕ → Type 0
Absent v new = (j : ℕ) (p : NodePage) → NodeAt v j p → j ≢ new

pub Absent-in :
    (v : View) (d par : ℕ) (kids : Forest) (new : ℕ)
    → ForestOk v d par kids
    → Absent v new
    → occurs_in new kids ≡ 0
Absent-in v d par kids new h off = elim (Bool-cases (occurs_in new kids == 0)) [
  | inl e ↦ ground (arith, e)
  | inr n ↦
      let there : 0 < occurs_in new kids = ground (arith, n) in
      let (p, at) = occurs_in_at v d par kids new h there in absurd (off new p at refl)
]

pub Absent-above :
    (v : View) (d : ℕ) (fs : List Frame) (t : Tree) (new : ℕ)
    → FramesOk v d fs t
    → Absent v new
    → occurs_above new fs ≡ 0
unfolding occurs_above
Absent-above v d [] t new h off = refl
Absent-above v d (f ∷ fs) t new (k, all) off =
    let here : (f.id == new) ≡ false = ground (arith, off f.id f.page k.at) in
    rw here (
      omega (
        arith,
        Absent-in v d f.id f.left new k.lefts off,
        Absent-in v d f.id f.right new k.rights off,
        Absent-above v d fs _ new all off,
      ))

-- The two halves, below the same parent.
pub record Spread (v w : View) (d id r up new : ℕ) (p : NodePage) (ls rs : List Cell)
    (kl kr : Forest) : Type 0 where
  pub low : NodeRef w id r (record p { cells = ls; children = roots_of kl })
  pub low_ok : TreeOk w d up false (tree id (record p { cells = ls; children = roots_of kl }) kl)
  pub high_ok : TreeOk w d up false (
      tree new
        (record (half_page d up p new) { cells = rs; children = roots_of kr })
        (reparent new kr))
  pub kept : (j : ℕ) (q : NodePage) → NodeAt v j q → j ≢ id → occurs_in j kr ≡ 0 → Same v w j
  pub apart : Absent v new

-- A node that has given up the cell in the middle.
pub record Open (v : View) (d id r up : ℕ) (p : NodePage) (ls rs : List Cell) (kl kr : Forest)
    : Type 0 where
  pub node : NodeRef v id r p
  pub cells : p.cells ≡ ls ++ rs
  pub children : p.children ≡ roots_of kl ++ roots_of kr
  pub degree : p.degree ≡ d
  pub parent : p.parent_id ≡ up
  pub not_root : p.root ≡ false
  pub size_l : length ls + 1 ≡ d
  pub size_r : length rs + 1 ≡ d
  pub shares : Shares p ls rs kl kr
  pub once : (k : ℕ) → (if id == k then 1 else 0) + (occurs_in k kl + occurs_in k kr) ≤ 1
  pub lows : ForestOk v d id kl
  pub highs : ForestOk v d id kr

abbrev Part : NodePage → List Cell → Forest → Type 0
Part p cs kids =
    ((p.leaf ≡ true) × (kids ≡ none_left)) ⊎ ((p.leaf ≡ false) × (count kids ≡ length cs + 1))

parts :
    (p : NodePage) (ls rs : List Cell) (kl kr : Forest) (new : ℕ)
    → Shares p ls rs kl kr
    → Part p ls kl × Part p rs (reparent new kr)
unfolding reparent
parts p ls rs kl kr new (inl (leaf, el, er)) = (inl (leaf, el), inl (leaf, ap (reparent new) er))
parts p ls rs kl kr new (inr (inner, el, er)) =
    (inr (inner, el), inr (inner, count-reparent new kr ∙ er))

Part-Even :
    (p q : NodePage) (cs : List Cell) (kids : Forest)
    → p.leaf ≡ q.leaf
    → q.cells ≡ cs
    → 0 < length cs
    → Part p cs kids
    → Even q kids
Part-Even p q cs kids same e some_cells (inl (leaf, none_there)) = inl (sym same ∙ leaf, none_there)
Part-Even p q cs kids same e some_cells (inr (inner, sizes)) = inr (
  sym same ∙ inner,
  sizes ∙ ap (λ c. length c + 1) (sym e),
  subst (λ c. 0 < length c) (sym e) some_cells,
)

module _ (d : ℕ) (two : 2 ≤ d) (narrow : d ≤ 2 ^ 15) where
  halves_ok :
      (v v1 w : View) (id r up new n : ℕ) (p : NodePage) (ls rs : List Cell) (kl kr : Forest)
      → Open v d id r up p ls rs kl kr
      → Created v v1 new n (half_page d up p new)
      → Halved v1 w d id r new n up p ls rs kl kr
      → Spread v w d id r up new p ls rs kl kr
  unfolding TreeOk reparent count
  halves_ok v v1 w id r up new n p ls rs kl kr h made done =
      let few_l : length ls < cellid_invalid = omega (arith, h.size_l, narrow) in
      let few_r : length rs < cellid_invalid = omega (arith, h.size_r, narrow) in
      let (share_l, share_r) = parts p ls rs kl kr new h.shares in
      let pl = record p { cells = ls; children = roots_of kl } in
      let pr = record (half_page d up p new) { cells = rs; children = roots_of kr } in
      record {
        low = done.low;
        low_ok = (
          at_of done.low,
          record {
            fits =
                Even-Fits pl kl refl few_l
                  (Part-Even p pl ls kl refl refl (omega (arith, h.size_l, two)) share_l);
            degree = h.degree;
            parent = h.parent;
            is_root = h.not_root;
          },
          omega (arith, h.size_l),
          done.lows,
        );
        high_ok = (
          at_of done.high,
          record {
            fits = Even-Fits pr (reparent new kr) (sym (roots_of-reparent new kr)) few_r (
                Part-Even p pr rs (reparent new kr) refl refl (omega (arith, h.size_r, two))
                  share_r);
            degree = refl;
            parent = refl;
            is_root = refl;
          },
          omega (arith, h.size_r),
          done.highs,
        );
        kept =
            λ j q at oi o. Same-trans (made.kept j q at) (done.others j oi (made.apart j q at) o);
        apart = made.apart;
      }

  module _ (os : Posix) (mem : Memory) (laws : PosixLaws os) {ids : List ℕ} {t : Btree} where
    -- The rest of `split` is run with the two halves.
    pub new_half {ℓ} :
        {A : Type ℓ} (f : NodePage → M (Client os Btree) A) {P : After A} (v : View) (id r up : ℕ)
        (p : NodePage) (ls rs : List Cell) (kl kr : Forest)
        → Open v d id r up p ls rs kl kr
        → ((new : ℕ) (w : View) (list : List ℕ)
            → Spread v w d id r up new p ls rs kl kr
            → Runs
                (f (record (half_page d up p new) { cells = rs; children = roots_of kr }))
                w
                list
                t
                P)
        → Runs
            (b_new os mem d up false p.leaf >>= λ n.
              move_half os mem r n (length ls) >> (fields os mem n >>= f))
            v
            ids
            t
            P
    new_half f v id r up p ls rs kl kr h next =
        b_new-Runs mem laws d up false p.leaf _ (λ new n v1 list made.
          let node1 = same_NodeRef (made.kept id p (at_of h.node)) h.node in
          let none_below : occurs_in id kl + occurs_in id kr ≡ 0 =
            omega (arith, h.once id, self_one id) in
          let whole : Whole v1 d id r new n up p ls rs kl kr = record {
            node = node1;
            fresh = made.new;
            apart = made.apart id p (at_of h.node);
            cells = h.cells;
            children = h.children;
            once = λ k. omega (arith, h.once k);
            not_self = none_below;
            not_new = omega (
              arith,
              Absent-in v d id kl new h.lows made.apart,
              Absent-in v d id kr new h.highs made.apart,
            );
            lows = keep_forest v v1 d id kl (λ j q at o. made.kept j q at) h.lows;
            highs = keep_forest v v1 d id kr (λ j q at o. made.kept j q at) h.highs;
          } in
          let (w, run, done) =
            move_half_lem os mem list v1 d id r new n up p ls rs kl kr whole h.shares in
          Writes-Runs _ run (
            Writes-Runs f (fields-Writes done.high mem)
              (next new w list (halves_ok v v1 w id r up new n p ls rs kl kr h made done))))

    -- The same with the numbers as the code has them.
    pub new_half_at {ℓ} :
        {A : Type ℓ} (f : NodePage → M (Client os Btree) A) {P : After A} (v : View) (id r up : ℕ)
        (p : NodePage) (ls rs : List Cell) (kl kr : Forest)
        → Open v d id r up p ls rs kl kr
        → ((new : ℕ) (w : View) (list : List ℕ)
            → Spread v w d id r up new p ls rs kl kr
            → Runs
                (f (record (half_page d up p new) { cells = rs; children = roots_of kr }))
                w
                list
                t
                P)
        → (deg par median : ℕ) → deg ≡ d
        → par ≡ up
        → median ≡ length ls
        → Runs
            (b_new os mem deg par false p.leaf >>= λ n.
              move_half os mem r n median >> (fields os mem n >>= f))
            v
            ids
            t
            P
    new_half_at f v id r up p ls rs kl kr h next deg par median ed ep em =
        rw (ed, ep, em) (new_half f v id r up p ls rs kl kr h next)
