-- ===== src/Rbtree/TakeOver.antt =====
-- `take_over`, the second half of `rb_erase` of rbtree.c: the successor takes the place of the node.
use mathlib.Core.Path.{subst}
use fru1t_os.Prelude.{
  ℕ, zero, suc, ◌+◌, ◌≤◌, ◌<◌, ◌≡◌, ◌≢◌, refl, sym, ap, ◌∙◌, false, ◌==◌, if◌then◌else◌, arith,
}
use fru1t_os.Rbtree.{Color, RbNode, RbTree, set_node, rb_set_parent, adopt}
use fru1t_os.Rbtree.Erase.{take_over}
use fru1t_os.Rbtree.Shape.{Shape, branch, count, IsTree, Represents, Context, plug, above}
use fru1t_os.Rbtree.Place.{
  count_in, IsContext, put_back, count_root, kept-IsContext, adopted-IsTree, counts_itself,
  count_in_null, count_null,
}
use fru1t_os.Rbtree.Rotate.{node_same, node_other, root_same, adopt_other, adopt_self, adopt_root}
use fru1t_os.Rbtree.Holds.{misses}
use fru1t_os.Rbtree.Unlink.{swap_child, swap_elsewhere, swap_around}

adopt_there : (p q : ℕ) (t : RbTree) → 0 < p → rb_set_parent p q t ≡ adopt p q t
unfolding adopt
adopt_there p q t pos =
    let there : (p == 0) ≡ false = ground arith in
    ap (λ b. if b then t else rb_set_parent p q t) (sym there)

-- `old` at the place `k`, with the trees `a` and `b` below it, and a node `m` that is nowhere
module _ (k : Context) (a b : Shape) (c : Color) (old m : ℕ) (t : RbTree) (pos : 0 < old)
    (pos_m : 0 < m) (par : (t.nodes old).parent ≡ above k) (col : (t.nodes old).color ≡ c)
    (left : IsTree t old (t.nodes old).left a) (right : IsTree t old (t.nodes old).right b)
    (around : IsContext t k old) (some_left : 0 < (t.nodes old).left)
    (once : (z : ℕ)
      → (if old == z then 1 else 0)
          + (if m == z then 1 else 0)
          + count_in z k
          + count z a
          + count z b
        ≤ 1) where
  abbrev first_half : RbTree
  first_half = swap_child (above k) old m (set_node m (t.nodes old) t)

  abbrev all_of_it : RbTree
  all_of_it = adopt (t.nodes old).right m (adopt (t.nodes old).left m first_half)

  -- `m` and `old` are in neither tree, and not the same
  no_m : count_in m k + count m a + count m b + (if old == m then 1 else 0) ≡ 0
  no_m = omega (arith, once m, counts_itself m)

  no_old : count_in old k + count old a + count old b + (if m == old then 1 else 0) ≡ 0
  no_old = omega (arith, once old, counts_itself old)

  apart : m ≢ old
  apart e = omega (arith, no_old, counts_itself old, ap {B = ℕ} (λ x. if x == old then 1 else 0) e)

  context_place : (z : ℕ) → 0 < count_in z k → (0 < z) × (m ≢ z)
  context_place zero more = absurd (omega (arith, more, count_in_null k t old around))
  context_place (suc z) more =
      (omega arith, λ e. omega (arith, no_m, more, ap (λ x. count_in x k) e))

  around1 : IsContext (set_node m (t.nodes old) t) k old
  around1 =
      kept-IsContext k t (set_node m (t.nodes old) t) old
        (λ z more. node_other m z _ t (context_place z more).1) (root_same m _ t) around

  -- the nodes that stand outside the context
  half_m : first_half.nodes m ≡ t.nodes old
  half_m =
      swap_elsewhere k old m (set_node m (t.nodes old) t) m around1 (omega (arith, no_m))
      ∙ node_same m _ t

  half_other : (z : ℕ) → count_in z k ≡ 0 → m ≢ z → first_half.nodes z ≡ t.nodes z
  half_other z none ne =
      swap_elsewhere k old m (set_node m (t.nodes old) t) z around1 none ∙ node_other m z _ t ne

  half_around : IsContext first_half k m
  half_around =
      swap_around k old m (set_node m (t.nodes old) t) pos (omega (arith, no_old))
        (λ z. omega (arith, once z)) around1

  -- `take_over` on these reads
  take_over_equation : take_over old m t ≡ all_of_it
  unfolding take_over
  take_over_equation =
      let t1 = set_node m (t.nodes old) t in
      let old1 : t1.nodes old ≡ t.nodes old = node_other m old _ t apart in
      let old2 : first_half.nodes old ≡ t.nodes old =
        half_other old (omega (arith, no_old)) apart in
      let t3 = rb_set_parent (t.nodes old).left m first_half in
      let old3 : t3.nodes old ≡ t.nodes old =
        node_other (t.nodes old).left old _ first_half
          (misses a t old (t.nodes old).left old left pos (omega (arith, no_old)))
        ∙ old2 in
      ap
        (λ (o : RbNode).
          let t2 = swap_child o.parent old m t1 in
          let t3 = rb_set_parent (t2.nodes old).left m t2 in adopt (t3.nodes old).right m t3)
        old1
      ∙ ap
          (λ q.
            let t2 = swap_child q old m t1 in
            let t3 = rb_set_parent (t2.nodes old).left m t2 in adopt (t3.nodes old).right m t3)
          par
      ∙ ap
          (λ (o : RbNode).
            let t3 = rb_set_parent o.left m first_half in adopt (t3.nodes old).right m t3)
          old2
      ∙ ap (λ (o : RbNode). adopt o.right m t3) old3
      ∙ ap (adopt (t.nodes old).right m) (adopt_there (t.nodes old).left m first_half some_left)

  -- what stands at each address in the end
  at_other :
      (z : ℕ)
      → (t.nodes old).left ≢ z
      → (t.nodes old).right ≢ z
      → all_of_it.nodes z ≡ first_half.nodes z
  at_other z l r =
      adopt_other (t.nodes old).right m (adopt (t.nodes old).left m first_half) z r
      ∙ adopt_other (t.nodes old).left m first_half z l

  miss_left : (z : ℕ) → 0 < z → count z a ≡ 0 → (t.nodes old).left ≢ z
  miss_left z = misses a t old (t.nodes old).left z left

  miss_right : (z : ℕ) → 0 < z → count z b ≡ 0 → (t.nodes old).right ≢ z
  miss_right z = misses b t old (t.nodes old).right z right

  at_m : all_of_it.nodes m ≡ t.nodes old
  at_m =
      at_other m (miss_left m pos_m (omega (arith, no_m)))
        (miss_right m pos_m (omega (arith, no_m)))
      ∙ half_m

  below : (z : ℕ) → 0 < count z a + count z b → (0 < z) × (m ≢ z)
  below zero more = absurd (
      omega (
        arith,
        more,
        count_null a t old (t.nodes old).left left,
        count_null b t old (t.nodes old).right right,
      ))
  below (suc z) more =
      (omega arith, λ e. omega (arith, no_m, more, ap (λ x. count x a + count x b) e))

  here_left :
      all_of_it.nodes (t.nodes old).left ≡ record (t.nodes (t.nodes old).left) { parent = m }
  here_left =
      let there = count_root a t old (t.nodes old).left some_left left in
      let v = (t.nodes old).left in
      adopt_other (t.nodes old).right m (adopt v m first_half) v
        (miss_right v some_left (omega (arith, once v, there)))
      ∙ adopt_self v m first_half some_left
      ∙ ap (λ (n : RbNode). record n { parent = m })
          (half_other v (omega (arith, once v, there)) (below v (omega (arith, there))).1)

  here_right :
      0 < (t.nodes old).right
      → all_of_it.nodes (t.nodes old).right ≡ record (t.nodes (t.nodes old).right) { parent = m }
  here_right more =
      let v = (t.nodes old).right in
      let there = count_root b t old v more right in
      adopt_self v m (adopt (t.nodes old).left m first_half) more
      ∙ ap (λ (n : RbNode). record n { parent = m })
          (adopt_other (t.nodes old).left m first_half v
              (miss_left v more (omega (arith, once v, there)))
            ∙ half_other v (omega (arith, once v, there)) (below v (omega (arith, there))).1)

  pub take_over-Represents : Represents (take_over old m t) (plug k (branch a m c b))
  take_over-Represents =
      subst (λ u. Represents u (plug k (branch a m c b))) (sym take_over_equation)
        (put_back k (branch a m c b) all_of_it m
          (kept-IsContext k first_half all_of_it m
            (λ z more.
              at_other z (miss_left z (context_place z more).0 (omega (arith, once z, more)))
                (miss_right z (context_place z more).0 (omega (arith, once z, more))))
            (adopt_root (t.nodes old).right m (adopt (t.nodes old).left m first_half)
              ∙ adopt_root (t.nodes old).left m first_half)
            half_around)
          (rw at_m (
            refl,
            pos_m,
            par,
            col,
            adopted-IsTree a t all_of_it old m (t.nodes old).left (λ z. omega (arith, once z))
                (λ h. here_left)
                (λ z more ne.
                  at_other z ne
                    (miss_right z (below z (omega (arith, more))).0 (omega (arith, once z, more)))
                  ∙ half_other z (omega (arith, once z, more)) (below z (omega (arith, more))).1)
                left,
            adopted-IsTree b t all_of_it old m (t.nodes old).right (λ z. omega (arith, once z))
                here_right
                (λ z more ne.
                  at_other z
                    (miss_left z (below z (omega (arith, more))).0 (omega (arith, once z, more))) ne
                  ∙ half_other z (omega (arith, once z, more)) (below z (omega (arith, more))).1)
                right,
          )))
