-- ===== src/Btree/Halves.antt =====
-- The steps of `split` in src/backend/Btree.tpp on the node, its parent and the new node.
use kndb.Base.{
  ℕ, ◌+◌, ◌/◌, ◌<◌, ◌≤◌, ◌≡◌, ◌≢◌, refl, sym, ap, subst, ◌∙◌, Bool, true, false, List, ◌∷◌, ◌++◌,
  Option, some, M, ok, expect, ◌>>=◌, if◌then◌else◌, arith, length, take, get_elem?, inl, inr, ◌⊎◌,
}
use kndb.Posix.{Posix}
use kndb.Vari.Codec.{Memory}
use kndb.NodePage.{Cell, NodePage, new_page}
use kndb.Cache.Steps.{View}
use kndb.Pager.Client.{Client}
use kndb.Btree.{Btree, raise_median, move_half, insert_at, erase_at, tail_from}
use kndb.Btree.Tree.{Forest, none_left, count}
use kndb.Btree.Search.{roots_of}
use kndb.Btree.Shape.{occurs_in, length-roots_of}
use kndb.Btree.Vectors.{
  take-front, tail_from-front, insert_at-front, erase_at-front, get_elem?-front,
}
use kndb.Btree.Writes.{
  NodeRef, Writes, >>=-Writes, pure-Writes, Same, Same-trans, same_NodeRef, write_node, written,
  unwritten, fields-Writes, on_node-Writes,
}
use kndb.Btree.Sound.{ForestOk, keep_forest, apart_none}
use kndb.Btree.Moves.{reparent, occurs_in-reparent, set_parents_lem}

pub expect-Writes {ℓ κ} :
    {A : Type ℓ} {B : Type κ} {os : Posix} {v w : View} {ids : List ℕ} {o : Option A} {a : A}
    {b : B} (f : A → M (Client os Btree) B)
    → o ≡ some a
    → Writes (f a) v w ids b
    → Writes (expect o >>= f) v w ids b
expect-Writes f e h = rw e h

pub true-Writes {ℓ} :
    {A : Type ℓ} {os : Posix} {v w : View} {ids : List ℕ} {a : A} (b : Bool)
    (m k : M (Client os Btree) A)
    → b ≡ true
    → Writes m v w ids a
    → Writes (if b then m else k) v w ids a
true-Writes b m k e h = rw e h

pub false-Writes {ℓ} :
    {A : Type ℓ} {os : Posix} {v w : View} {ids : List ℕ} {a : A} (b : Bool)
    (m k : M (Client os Btree) A)
    → b ≡ false
    → Writes k v w ids a
    → Writes (if b then m else k) v w ids a
false-Writes b m k e h = rw e h

-- The new node before the move.
abbrev pub half_page : ℕ → ℕ → NodePage → ℕ → NodePage
half_page d par p new = new_page d par false p.leaf new

-- The node and the new one, with one half of the cells and the children each.
pub record Halved (v w : View) (d id r new n par : ℕ) (p : NodePage) (ls rs : List Cell)
    (kl kr : Forest) : Type 0 where
  pub low : NodeRef w id r (record p { cells = ls; children = roots_of kl })
  pub high : NodeRef w new n (record (half_page d par p new) { cells = rs; children = roots_of kr })
  pub lows : ForestOk w d id kl
  pub highs : ForestOk w d new (reparent new kr)
  pub others : (j : ℕ) → j ≢ id → j ≢ new → occurs_in j kr ≡ 0 → Same v w j

-- What `split` has when it moves a half.
pub record Whole (v : View) (d id r new n par : ℕ) (p : NodePage) (ls rs : List Cell)
    (kl kr : Forest) : Type 0 where
  pub node : NodeRef v id r p
  pub fresh : NodeRef v new n (half_page d par p new)
  pub apart : id ≢ new
  pub cells : p.cells ≡ ls ++ rs
  pub children : p.children ≡ roots_of kl ++ roots_of kr
  pub once : (k : ℕ) → occurs_in k kl + occurs_in k kr ≤ 1
  pub not_self : occurs_in id kl + occurs_in id kr ≡ 0
  pub not_new : occurs_in new kl + occurs_in new kr ≡ 0
  pub lows : ForestOk v d id kl
  pub highs : ForestOk v d id kr

-- A leaf has no children; of those of an inner node one more goes with each half than cells.
abbrev pub Shares : NodePage → List Cell → List Cell → Forest → Forest → Type 0
Shares p ls rs kl kr =
    ((p.leaf ≡ true) × (kl ≡ none_left) × (kr ≡ none_left))
    ⊎ ((p.leaf ≡ false) × (count kl ≡ length ls + 1) × (count kr ≡ length rs + 1))

-- The node and its parent when the cell in the middle has gone up.
abbrev pub raised :
    View
    → ℕ
    → ℕ
    → NodePage
    → ℕ
    → ℕ
    → NodePage
    → List Cell
    → List Cell
    → List Cell
    → List Cell
    → Cell
    → View
raised v id r p par rp q ls rs before behind c =
    write_node (write_node v par rp (record q { cells = before ++ c ∷ behind })) id r
      (record p { cells = ls ++ rs })

module _ (os : Posix) (mem : Memory) (ids : List ℕ) where
  pub raise_median_lem :
      (v : View) (id r par rp : ℕ) (p q : NodePage) (ls rs before behind : List Cell) (c : Cell)
      → NodeRef v id r p
      → NodeRef v par rp q
      → id ≢ par
      → p.cells ≡ ls ++ c ∷ rs
      → length p.cells / 2 ≡ length ls
      → q.cells ≡ before ++ behind
      → Writes
          (raise_median os mem r rp (length before))
          v
          (raised v id r p par rp q ls rs before behind c)
          ids
          (length p.cells / 2)
  unfolding raise_median
  raise_median_lem v id r par rp p q ls rs before behind c h k off cut half around =
      let q' = record q { cells = before ++ c ∷ behind } in
      let h' = same_NodeRef (unwritten k q' id off) h in
      let median : get_elem? p.cells (length p.cells / 2) ≡ some c =
        rw (half, cut) (get_elem?-front ls rs c) in
      let put_in : insert_at (length before) c q.cells ≡ some (before ++ c ∷ behind) =
        rw around (insert_at-front before behind c) in
      let taken : erase_at (length p.cells / 2) p.cells ≡ ls ++ rs =
        rw (half, cut) (erase_at-front ls rs c) in
      >>=-Writes _ (fields-Writes h mem) (
        expect-Writes _ median (
          >>=-Writes _ (fields-Writes k mem) (
            expect-Writes _ put_in (
              >>=-Writes _ (on_node-Writes k mem _ tt q' refl k.own) (
                >>=-Writes _
                  (on_node-Writes h' mem _ tt (record p { cells = ls ++ rs })
                    (ap (λ cs. ok tt (record p { cells = cs })) taken) h.own)
                  (pure-Writes _ ids _))))))

  module _ (v : View) (d id r new n par : ℕ) (p : NodePage) (ls rs : List Cell) (kl kr : Forest)
      (h : Whole v d id r new n par p ls rs kl kr) where
    Halved-leaf :
        p.leaf ≡ true
        → kl ≡ none_left
        → kr ≡ none_left
        → (w : View) × Writes (move_half os mem r n (length ls)) v w ids tt
          × Halved v w d id r new n par p ls rs kl kr
    unfolding move_half ForestOk reparent
    Halved-leaf leaf el er =
        let pn' = record (half_page d par p new) { cells = rs } in
        let p' = record p { cells = ls } in
        let v1 = write_node v new n pn' in
        let v2 = write_node v1 id r p' in
        let h1 = same_NodeRef (unwritten h.fresh pn' id h.apart) h.node in
        let right : tail_from (length ls) p.cells ≡ some rs =
          rw (h.cells) (tail_from-front ls rs) in
        let left : take (length ls) p.cells ≡ ls = rw (h.cells) (take-front ls rs) in
        (
          v2,
          >>=-Writes _ (fields-Writes h.node mem) (
              expect-Writes _ right (
                >>=-Writes _ (on_node-Writes h.fresh mem _ tt pn' refl refl) (
                  >>=-Writes _
                    (on_node-Writes h1 mem _ tt p' (ap (λ cs. ok tt (record p { cells = cs })) left)
                      h.node.own)
                    (true-Writes p.leaf _ _ leaf (pure-Writes v2 ids tt))))),
          record {
            low =
                subst (λ cs. NodeRef v2 id r (record p { cells = ls; children = cs }))
                  (h.children ∙ rw (el, er) refl) (written h1 p' h.node.own);
            high = rw er (
                same_NodeRef (unwritten h1 p' new (λ e. h.apart (sym e)))
                  (written h.fresh pn' refl));
            lows = rw el tt;
            highs = rw er tt;
            others = λ j oi on o. Same-trans (unwritten h.fresh pn' j on) (unwritten h1 p' j oi);
          },
        )

    Halved-inner :
        p.leaf ≡ false
        → count kl ≡ length ls + 1
        → (w : View) × Writes (move_half os mem r n (length ls)) v w ids tt
          × Halved v w d id r new n par p ls rs kl kr
    unfolding move_half
    Halved-inner inner size =
        let pn1 = record (half_page d par p new) { cells = rs } in
        let p1 = record p { cells = ls } in
        let v1 = write_node v new n pn1 in
        let v2 = write_node v1 id r p1 in
        let h1 = same_NodeRef (unwritten h.fresh pn1 id h.apart) h.node in
        let h2 = written h1 p1 h.node.own in
        let n2 =
          same_NodeRef (unwritten h1 p1 new (λ e. h.apart (sym e))) (written h.fresh pn1 refl) in
        let pn2 = record pn1 { children = roots_of kr } in
        let v3 = write_node v2 new n pn2 in
        let n3 = written n2 pn2 refl in
        let h3 = same_NodeRef (unwritten n2 pn2 id h.apart) h2 in
        let right : tail_from (length ls) p.cells ≡ some rs =
          rw (h.cells) (tail_from-front ls rs) in
        let left : take (length ls) p.cells ≡ ls = rw (h.cells) (take-front ls rs) in
        let sizes : length ls + 1 ≡ length (roots_of kl) = sym (length-roots_of kl ∙ size) in
        let moved : tail_from (length ls + 1) p.children ≡ some (roots_of kr) =
          rw (h.children, sizes) (tail_from-front (roots_of kl) (roots_of kr)) in
        let stayed : take (length ls + 1) p.children ≡ roots_of kl =
          rw (h.children, sizes) (take-front (roots_of kl) (roots_of kr)) in
        let far = λ (j : ℕ) (oi : j ≢ id) (on : j ≢ new).
          Same-trans (unwritten h.fresh pn1 j on)
            (Same-trans (unwritten h1 p1 j oi) (unwritten n2 pn2 j on)) in
        let in_half = λ (j : ℕ) (o : 0 < occurs_in j kl + occurs_in j kr).
          far j (apart_none (λ k. occurs_in k kl + occurs_in k kr) id j h.not_self o)
            (apart_none (λ k. occurs_in k kl + occurs_in k kr) new j h.not_new o) in
        let lows3 = keep_forest v v3 d id kl (λ j x a o. in_half j (omega (arith, o))) h.lows in
        let highs3 = keep_forest v v3 d id kr (λ j x a o. in_half j (omega (arith, o))) h.highs in
        let (v4, (run, highs4, same4)) =
          set_parents_lem os mem ids d new v3 id kr (λ k. omega (arith, h.once k)) highs3 in
        let h4 = same_NodeRef (same4 id (omega (arith, h.not_self))) h3 in
        let n4 = same_NodeRef (same4 new (omega (arith, h.not_new))) n3 in
        let lows4 =
          keep_forest v3 v4 d id kl (λ j x a o. same4 j (omega (arith, o, h.once j))) lows3 in
        let p2 = record p1 { children = roots_of kl } in
        let v5 = write_node v4 id r p2 in
        (
          v5,
          >>=-Writes _ (fields-Writes h.node mem) (
              expect-Writes _ right (
                >>=-Writes _ (on_node-Writes h.fresh mem _ tt pn1 refl refl) (
                  >>=-Writes _
                    (on_node-Writes h1 mem _ tt p1 (ap (λ cs. ok tt (record p { cells = cs })) left)
                      h.node.own)
                    (false-Writes p.leaf _ _ inner (
                      expect-Writes _ moved (
                        >>=-Writes _ (on_node-Writes n2 mem _ tt pn2 refl refl) (
                          >>=-Writes _ (fields-Writes n3 mem) (
                            >>=-Writes _ run (
                              on_node-Writes h4 mem _ tt p2
                                (ap (λ cs. ok tt (record p1 { children = cs })) stayed)
                                h.node.own))))))))),
          record {
            low = written h4 p2 h.node.own;
            high = same_NodeRef (unwritten h4 p2 new (λ e. h.apart (sym e))) n4;
            lows =
                keep_forest v4 v5 d id kl
                  (λ j x a o. unwritten h4 p2 j (
                    apart_none (λ k. occurs_in k kl + occurs_in k kr) id j h.not_self
                      (omega (arith, o))))
                  lows4;
            highs =
                keep_forest v4 v5 d new (reparent new kr)
                  (λ j x a o. unwritten h4 p2 j (
                    apart_none (λ k. occurs_in k kl + occurs_in k kr) id j h.not_self
                      (omega (arith, o, occurs_in-reparent j new kr))))
                  highs4;
            others = λ j oi on o.
                Same-trans (far j oi on) (Same-trans (same4 j o) (unwritten h4 p2 j oi));
          },
        )

    pub move_half_lem :
        Shares p ls rs kl kr
        → (w : View) × Writes (move_half os mem r n (length ls)) v w ids tt
          × Halved v w d id r new n par p ls rs kl kr
    move_half_lem shares = elim shares [
      | inl (leaf, el, er) ↦ Halved-leaf leaf el er
      | inr (inner, size, rest) ↦ Halved-inner inner size
    ]
