-- ===== src/Rbtree/Loop.antt =====
-- `rb_insert_color` of rbtree.c computes `settle`: the loop over the pointers ends, and holds the tree that
-- the function on trees gives.
use fru1t_os.Prelude.{ℕ, zero, suc, ◌<◌, ◌≡◌, refl, sym, ap, ◌∙◌, Option, none, some, arith}
use fru1t_os.Rbtree.{
  Color, red, black, is_red, RbTree, rb_set_color, recolor, insert_loop, rb_insert_color,
}
use fru1t_os.Rbtree.Shape.{Shape, leaf, branch, Context, top, in_left, in_right, plug}
use fru1t_os.Rbtree.Settle.{blacken, settle}
use fru1t_os.Rbtree.Balance.{IsRooted, root_or, black_ne_red}
use mathlib.Core.Path.{subst}
use fru1t_os.Rbtree.Rotate.{root_same}
use fru1t_os.Rbtree.Holds.{Holds, rb_color_at, rb_set_color-Holds}
use fru1t_os.Rbtree.Round.{round_left_red, round_right_red, loop_goes}
use fru1t_os.Rbtree.Insert.{
  ends, goes, recolor_left, recolor_right, left_left_parent, left_left_at_p, left_left_at_g,
  left_left_tree, left_left_turned, left_left_black, left_right_parent, left_right_at_p,
  left_right_at_g, left_right_tree, left_right_turned, left_right_black, right_left_parent,
  right_left_at_p, right_left_at_g, right_left_apart, right_left_tree, right_left_turned,
  right_left_black, right_right_parent, right_right_at_p, right_right_at_g, right_right_apart,
  right_right_tree, right_right_turned, right_right_black,
}

-- the number of nodes above a place
abbrev pub depth : Context → ℕ
depth top = 0
depth (in_left k p c r) = suc (depth k)
depth (in_right k l p c) = suc (depth k)

pub IsRooted-below : (c : Color) (k : Context) → root_or c k ≡ black → IsRooted k
IsRooted-below c top r = refl
IsRooted-below c (in_left k p d s) r = r
IsRooted-below c (in_right k s p d) r = r

-- the loop ends with the tree `s`
abbrev Ends : (fuel n : ℕ) → RbTree → Shape → Type 0
Ends fuel n t s = (t' : RbTree) × (insert_loop fuel n t ≡ some t') × Holds t' s

pub insert_loop-settle :
    (k : Context) (a : Shape) (n : ℕ) (b : Shape) (fuel : ℕ) (t : RbTree)
    → Holds t (plug k (branch a n red b))
    → IsRooted k
    → depth k < fuel
    → Ends fuel n t (settle k a n b)
unfolding settle
insert_loop-settle k a n b zero t h r d = absurd (omega arith)
insert_loop-settle top a n b (suc fuel) t h r d = (t, ends top a n red b t fuel h refl, h)
insert_loop-settle (in_left k p black s) a n b (suc fuel) t h r d =
    (t, ends (in_left k p black s) a n red b t fuel h refl, h)
insert_loop-settle (in_right k s p black) a n b (suc fuel) t h r d =
    (t, ends (in_right k s p black) a n red b t fuel h refl, h)
insert_loop-settle (in_left top p red s) a n b (suc fuel) t h r d = absurd (black_ne_red r)
insert_loop-settle (in_right top s p red) a n b (suc fuel) t h r d = absurd (black_ne_red r)
insert_loop-settle (in_left (in_left k g c leaf) p red s) a n b (suc zero) t h r d =
    absurd (omega arith)
insert_loop-settle (in_left (in_left k g c leaf) p red s) a n b (suc (suc fuel)) t h r d = (
  left_left_tree k g c leaf p s a n b t h,
  left_left_black k g c leaf p s a n b t h fuel refl,
  left_left_turned k g c leaf p s a n b t h,
)
insert_loop-settle (in_left (in_left k g c (branch v u black w)) p red s) a n b (suc zero) t h r d =
    absurd (omega arith)
insert_loop-settle (in_left (in_left k g c (branch v u black w)) p red s) a n b (suc (suc fuel)) t h
      r d =
    (
      left_left_tree k g c (branch v u black w) p s a n b t h,
      left_left_black k g c (branch v u black w) p s a n b t h fuel refl,
      left_left_turned k g c (branch v u black w) p s a n b t h,
    )
insert_loop-settle (in_left (in_left k g c (branch v u red w)) p red s) a n b (suc fuel) t h r d =
    let at_g = left_left_at_g k g c (branch v u red w) p s a n b t h in
    let on =
      loop_goes fuel n t g (recolor p u g t)
        (goes (in_left (in_left k g c (branch v u red w)) p red s) a n red b t h refl)
        (round_left_red n p g t (left_left_parent k g c (branch v u red w) p s a n b t h)
          (left_left_at_p k g c (branch v u red w) p s a n b t h).parent at_g.left.0 u at_g.right.0
          (ap is_red (rb_color_at u red t at_g.right.1 at_g.right.3))) in
    let (t', e, h') =
      insert_loop-settle k (branch (branch a n red b) p black s) g (branch v u black w) fuel
        (recolor p u g t) (recolor_left k (branch a n red b) p red s g c v u red w t h)
        (IsRooted-below c k r) (omega (arith, d)) in
    (t', on ∙ e, h')
insert_loop-settle (in_right (in_left k g c leaf) s p red) a n b (suc zero) t h r d =
    absurd (omega arith)
insert_loop-settle (in_right (in_left k g c leaf) s p red) a n b (suc (suc fuel)) t h r d = (
  left_right_tree k g c leaf p s a n b t h,
  left_right_black k g c leaf p s a n b t h fuel refl,
  left_right_turned k g c leaf p s a n b t h,
)
insert_loop-settle (in_right (in_left k g c (branch v u black w)) s p red) a n b (suc zero) t h r
      d =
    absurd (omega arith)
insert_loop-settle (in_right (in_left k g c (branch v u black w)) s p red) a n b (suc (suc fuel)) t
      h r d =
    (
      left_right_tree k g c (branch v u black w) p s a n b t h,
      left_right_black k g c (branch v u black w) p s a n b t h fuel refl,
      left_right_turned k g c (branch v u black w) p s a n b t h,
    )
insert_loop-settle (in_right (in_left k g c (branch v u red w)) s p red) a n b (suc fuel) t h r d =
    let at_g = left_right_at_g k g c (branch v u red w) p s a n b t h in
    let on =
      loop_goes fuel n t g (recolor p u g t)
        (goes (in_right (in_left k g c (branch v u red w)) s p red) a n red b t h refl)
        (round_left_red n p g t (left_right_parent k g c (branch v u red w) p s a n b t h)
          (left_right_at_p k g c (branch v u red w) p s a n b t h).parent at_g.left.0 u at_g.right.0
          (ap is_red (rb_color_at u red t at_g.right.1 at_g.right.3))) in
    let (t', e, h') =
      insert_loop-settle k (branch s p black (branch a n red b)) g (branch v u black w) fuel
        (recolor p u g t) (recolor_left k s p red (branch a n red b) g c v u red w t h)
        (IsRooted-below c k r) (omega (arith, d)) in
    (t', on ∙ e, h')
insert_loop-settle (in_left (in_right k leaf g c) p red s) a n b (suc zero) t h r d =
    absurd (omega arith)
insert_loop-settle (in_left (in_right k leaf g c) p red s) a n b (suc (suc fuel)) t h r d = (
  right_left_tree k g c leaf p s a n b t h,
  right_left_black k g c leaf p s a n b t h fuel refl,
  right_left_turned k g c leaf p s a n b t h,
)
insert_loop-settle (in_left (in_right k (branch v u black w) g c) p red s) a n b (suc zero) t h r
      d =
    absurd (omega arith)
insert_loop-settle (in_left (in_right k (branch v u black w) g c) p red s) a n b (suc (suc fuel)) t
      h r d =
    (
      right_left_tree k g c (branch v u black w) p s a n b t h,
      right_left_black k g c (branch v u black w) p s a n b t h fuel refl,
      right_left_turned k g c (branch v u black w) p s a n b t h,
    )
insert_loop-settle (in_left (in_right k (branch v u red w) g c) p red s) a n b (suc fuel) t h r d =
    let at_g = right_left_at_g k g c (branch v u red w) p s a n b t h in
    let on =
      loop_goes fuel n t g (recolor p u g t)
        (goes (in_left (in_right k (branch v u red w) g c) p red s) a n red b t h refl)
        (round_right_red n p g t (right_left_parent k g c (branch v u red w) p s a n b t h)
          (right_left_at_p k g c (branch v u red w) p s a n b t h).parent
          (right_left_apart k g c (branch v u red w) p s a n b t h) u at_g.left.0
          (ap is_red (rb_color_at u red t at_g.left.1 at_g.left.3))) in
    let (t', e, h') =
      insert_loop-settle k (branch v u black w) g (branch (branch a n red b) p black s) fuel
        (recolor p u g t) (recolor_right k (branch a n red b) p red s g c v u red w t h)
        (IsRooted-below c k r) (omega (arith, d)) in
    (t', on ∙ e, h')
insert_loop-settle (in_right (in_right k leaf g c) s p red) a n b (suc zero) t h r d =
    absurd (omega arith)
insert_loop-settle (in_right (in_right k leaf g c) s p red) a n b (suc (suc fuel)) t h r d = (
  right_right_tree k g c leaf p s a n b t h,
  right_right_black k g c leaf p s a n b t h fuel refl,
  right_right_turned k g c leaf p s a n b t h,
)
insert_loop-settle (in_right (in_right k (branch v u black w) g c) s p red) a n b (suc zero) t h r
      d =
    absurd (omega arith)
insert_loop-settle (in_right (in_right k (branch v u black w) g c) s p red) a n b (suc (suc fuel)) t
      h r d =
    (
      right_right_tree k g c (branch v u black w) p s a n b t h,
      right_right_black k g c (branch v u black w) p s a n b t h fuel refl,
      right_right_turned k g c (branch v u black w) p s a n b t h,
    )
insert_loop-settle (in_right (in_right k (branch v u red w) g c) s p red) a n b (suc fuel) t h r d =
    let at_g = right_right_at_g k g c (branch v u red w) p s a n b t h in
    let on =
      loop_goes fuel n t g (recolor p u g t)
        (goes (in_right (in_right k (branch v u red w) g c) s p red) a n red b t h refl)
        (round_right_red n p g t (right_right_parent k g c (branch v u red w) p s a n b t h)
          (right_right_at_p k g c (branch v u red w) p s a n b t h).parent
          (right_right_apart k g c (branch v u red w) p s a n b t h) u at_g.left.0
          (ap is_red (rb_color_at u red t at_g.left.1 at_g.left.3))) in
    let (t', e, h') =
      insert_loop-settle k (branch v u black w) g (branch s p black (branch a n red b)) fuel
        (recolor p u g t) (recolor_right k s p red (branch a n red b) g c v u red w t h)
        (IsRooted-below c k r) (omega (arith, d)) in
    (t', on ∙ e, h')

pub blacken-Holds :
    (s : Shape) (t : RbTree) → Holds t s → Holds (rb_set_color t.rb_node black t) (blacken s)
blacken-Holds leaf t (is, once) = (root_same t.rb_node _ t ∙ is, once)
blacken-Holds (branch l p c r) t ((e, pos, par, col, left, right), once) =
    subst (λ x. Holds (rb_set_color x black t) (branch l p black r)) (sym e)
      (rb_set_color-Holds top l p c black r t ((e, pos, par, col, left, right), once))

-- the tree behind `rb_insert_color`
pub rb_insert_color-settle :
    (k : Context) (a : Shape) (n : ℕ) (b : Shape) (fuel : ℕ) (t : RbTree)
    → Holds t (plug k (branch a n red b))
    → IsRooted k
    → depth k < fuel
    → (t' : RbTree) × (rb_insert_color fuel n t ≡ some t') × Holds t' (blacken (settle k a n b))
unfolding rb_insert_color
rb_insert_color-settle k a n b fuel t h r d =
    let (t', e, h') = insert_loop-settle k a n b fuel t h r d in
    (
      rb_set_color t'.rb_node black t',
      ap
          (λ (o : Option RbTree). elim o [
            | none ↦ none
            | some s ↦ some (rb_set_color s.rb_node black s)
          ])
          e,
      blacken-Holds (settle k a n b) t' h',
    )
