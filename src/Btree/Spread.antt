-- ===== src/Btree/Spread.antt =====
-- A full node of src/backend/Btree.tpp in two halves, the second in a node that `split` makes.
use kndb.Base.{
  ℕ, suc, ◌+◌, ◌*◌, ◌/◌, ◌<◌, ◌≤◌, ◌≡◌, refl, sym, ap, ◌∙◌, true, false, List, [], ◌∷◌, ◌++◌, arith,
  ◌==◌, length, inl, inr, ◌⊎◌, Bool-cases,
}
use kndb.Constants.{cellid_invalid}
use kndb.NodePage.{Cell, NodePage, well_shaped}
use kndb.Btree.Tree.{Forest, none_left, count}
use kndb.Btree.Search.{Fits, roots_of}
use kndb.Btree.Shape.{join, count-join, length-roots_of}
use kndb.Btree.Vectors.{cut, cut_forest, length_append}
use kndb.Btree.Halves.{Shares}

-- A leaf without children, or an inner node with a cell and one child more.
abbrev pub Even : NodePage → Forest → Type 0
Even p kids =
    ((p.leaf ≡ true) × (kids ≡ none_left))
    ⊎ ((p.leaf ≡ false) × (count kids ≡ length p.cells + 1) × 0 < length p.cells)

pub Even-Fits :
    (p : NodePage) (kids : Forest)
    → p.children ≡ roots_of kids
    → length p.cells < cellid_invalid
    → Even p kids
    → Fits p kids
unfolding well_shaped
Even-Fits p kids e few (inl (leaf, none_there)) =
    let childless : p.children ≡ [] = e ∙ ap roots_of none_there in
    record {
      shaped = rw (leaf, childless) refl;
      children = e;
      leaf = λ l. none_there;
      inner = λ l. absurd (different (sym leaf ∙ l));
      few = few;
    }
  where
    different : true ≡ false → ⊥
    different d = cc
Even-Fits p kids e few (inr (inner, size, some_cells)) =
    let sizes : length p.children ≡ length p.cells + 1 =
      ap length e ∙ length-roots_of kids ∙ size in
    let even : (length p.children == length p.cells + 1) ≡ true = ground (arith, sizes) in
    let cells : (length p.cells == 0) ≡ false = ground (arith, some_cells) in
    record {
      shaped = elim (Bool-cases p.root) [
        | inl y ↦ rw (inner, y, cells, even) refl
        | inr n ↦ rw (inner, n, cells, even) refl
      ];
      children = e;
      leaf = λ l. absurd (different (sym l ∙ inner));
      inner = λ l. size;
      few = few;
    }
  where
    different : true ≡ false → ⊥
    different d = cc

-- A full node at the cell in the middle.
pub record Cut (d : ℕ) (p : NodePage) (kids : Forest) : Type 0 where
  pub ls : List Cell
  pub rs : List Cell
  pub c : Cell
  pub kl : Forest
  pub kr : Forest
  pub cells : p.cells ≡ ls ++ c ∷ rs
  pub kids_join : kids ≡ join kl kr
  pub size_l : length ls + 1 ≡ d
  pub size_r : length rs + 1 ≡ d
  pub half : length p.cells / 2 ≡ length ls
  pub shares : Shares p ls rs kl kr

cut_cells :
    (d : ℕ) (cs : List Cell)
    → 2 ≤ d
    → length cs + 1 ≡ 2 * d
    → (ls : List Cell) × (rs : List Cell) × (c : Cell) × (cs ≡ ls ++ c ∷ rs)
      × (length ls + 1 ≡ d)
      × (length rs + 1 ≡ d)
cut_cells d cs two size =
    let half : length cs / 2 + 1 ≡ d = ground (arith, size) in
    let (ls, rest, e, low) = cut (length cs / 2) cs (omega (arith, size, half)) in
    at_middle ls rest e (omega (arith, low, half))
  where
    at_middle :
        (ls rest : List Cell)
        → cs ≡ ls ++ rest
        → length ls + 1 ≡ d
        → (ls : List Cell) × (rs : List Cell) × (c : Cell) × (cs ≡ ls ++ c ∷ rs)
          × (length ls + 1 ≡ d)
          × (length rs + 1 ≡ d)
    at_middle ls [] e low =
        let all : length cs ≡ length ls + 0 = ap length e ∙ length_append ls [] in
        absurd (omega (arith, all, low, size, two))
    at_middle ls (c ∷ rs) e low =
        let all : length cs ≡ length ls + suc (length rs) =
          ap length e ∙ length_append ls (c ∷ rs) in
        (ls, rs, c, e, low, omega (arith, all, low, size))

pub cut_node :
    (d : ℕ) (p : NodePage) (kids : Forest)
    → 2 ≤ d
    → length p.cells + 1 ≡ 2 * d
    → Fits p kids
    → Cut d p kids
unfolding join
cut_node d p kids two size fits =
    let (ls, rs, c, e, low, high) = cut_cells d p.cells two size in
    let half : length p.cells / 2 ≡ length ls = ground (arith, size, low) in
    elim (Bool-cases p.leaf) [
      | inl leaf ↦ record {
        ls = ls;
        rs = rs;
        c = c;
        kl = none_left;
        kr = none_left;
        cells = e;
        kids_join = fits.leaf leaf;
        size_l = low;
        size_r = high;
        half = half;
        shares = inl (leaf, refl, refl);
      }
      | inr inner ↦
          let (kl, kr, f, count_l) = cut_forest d kids (omega (arith, fits.inner inner, size)) in
          let all : count kids ≡ count kl + count kr = ap count f ∙ count-join kl kr in
          record {
            ls = ls;
            rs = rs;
            c = c;
            kl = kl;
            kr = kr;
            cells = e;
            kids_join = f;
            size_l = low;
            size_r = high;
            half = half;
            shares = inr (
              inner,
              count_l ∙ sym low,
              omega (arith, all, count_l, low, high, size, fits.inner inner),
            );
          }
    ]
