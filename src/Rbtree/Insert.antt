-- ===== src/Rbtree/Insert.antt =====
-- The four cases of `rb_insert_color` of rbtree.c below a red parent: what the tests of a round read, and
-- the tree behind the turns.
use fru1t_os.Prelude.{ℕ, suc, ◌≡◌, ◌≢◌, refl, ap, ◌∙◌, true, false, ◌==◌, some, arith}
use fru1t_os.Rbtree.{
  Color, red, black, is_red, RbTree, rb_set_color, rb_parent, rb_is_red, recolor, turn_left_side,
  turn_right_side, insert_loop, rb_rotate_left, rb_rotate_right,
}
use fru1t_os.Rbtree.Shape.{Shape, branch, Context, in_left, in_right, plug}
use fru1t_os.Rbtree.Place.{count-plug, counts_itself}
use fru1t_os.Rbtree.Settle.{tone}
use fru1t_os.Rbtree.Balance.{tone_above}
use fru1t_os.Rbtree.Holds.{
  Holds, Facts, facts, misses, rb_color-tone, rb_color-tone_above, rb_set_color-Holds,
  rb_rotate_left-Holds, rb_rotate_right-Holds,
}
use fru1t_os.Rbtree.Round.{round_left_black, round_right_black, loop_ends, loop_goes}

-- the loop ends below a black node
pub ends :
    (k : Context) (a : Shape) (n : ℕ) (c : Color) (b : Shape) (t : RbTree) (fuel : ℕ)
    → Holds t (plug k (branch a n c b))
    → tone_above k ≡ black
    → insert_loop (suc fuel) n t ≡ some t
ends k a n c b t fuel h e = loop_ends fuel n t (ap is_red (rb_color-tone_above k a n c b t h.0 ∙ e))

-- and goes on below a red one
pub goes :
    (k : Context) (a : Shape) (n : ℕ) (c : Color) (b : Shape) (t : RbTree)
    → Holds t (plug k (branch a n c b))
    → tone_above k ≡ red
    → rb_is_red (rb_parent n t) t ≡ true
goes k a n c b t h e = ap is_red (rb_color-tone_above k a n c b t h.0 ∙ e)

pub recolor_left :
    (k : Context) (l : Shape) (p : ℕ) (e : Color) (r : Shape) (g : ℕ) (c : Color) (v : Shape)
    (u : ℕ) (d : Color) (w : Shape) (t : RbTree)
    → Holds t (plug k (branch (branch l p e r) g c (branch v u d w)))
    → Holds (recolor p u g t) (plug k (branch (branch l p black r) g red (branch v u black w)))
unfolding recolor
recolor_left k l p e r g c v u d w t h =
    rb_set_color-Holds k (branch l p black r) g c red (branch v u black w) _ (
      rb_set_color-Holds (in_left k g c (branch v u black w)) l p e black r _
        (rb_set_color-Holds (in_right k (branch l p e r) g c) v u d black w t h))

pub recolor_right :
    (k : Context) (l : Shape) (p : ℕ) (e : Color) (r : Shape) (g : ℕ) (c : Color) (v : Shape)
    (u : ℕ) (d : Color) (w : Shape) (t : RbTree)
    → Holds t (plug k (branch (branch v u d w) g c (branch l p e r)))
    → Holds (recolor p u g t) (plug k (branch (branch v u black w) g red (branch l p black r)))
unfolding recolor
recolor_right k l p e r g c v u d w t h =
    rb_set_color-Holds k (branch v u black w) g c red (branch l p black r) _ (
      rb_set_color-Holds (in_right k (branch v u black w) g c) l p e black r _
        (rb_set_color-Holds (in_left k g c (branch l p e r)) v u d black w t h))

-- a red parent on the left of `g`, with the node on its left
module _ (k : Context) (g : ℕ) (c : Color) (u : Shape) (p : ℕ) (s a : Shape) (n : ℕ) (b : Shape)
    (t : RbTree) (h : Holds t (plug (in_left (in_left k g c u) p red s) (branch a n red b))) where
  pub left_left_parent : (t.nodes n).parent ≡ p
  left_left_parent = (facts (in_left (in_left k g c u) p red s) a n red b t h.0).parent

  pub left_left_at_p : Facts t (in_left k g c u) (branch a n red b) p red s
  left_left_at_p = facts (in_left k g c u) (branch a n red b) p red s t h.0

  pub left_left_at_g : Facts t k (branch (branch a n red b) p red s) g c u
  left_left_at_g = facts k (branch (branch a n red b) p red s) g c u t h.0

  pub left_left_test : ((t.nodes p).right == n) ≡ false
  left_left_test =
      let e : (t.nodes p).right ≢ n =
        misses s t p (t.nodes p).right n left_left_at_p.right
          (facts (in_left (in_left k g c u) p red s) a n red b t h.0).place
          (omega (
            arith,
            h.1 n,
            count-plug (in_left (in_left k g c u) p red s) n (branch a n red b),
            counts_itself n,
          )) in
      ground arith

  pub left_left_tree : RbTree
  left_left_tree = rb_rotate_right g (rb_set_color g red (rb_set_color p black t))

  pub left_left_turned :
      Holds left_left_tree (plug k (branch (branch a n red b) p black (branch s g red u)))
  unfolding left_left_tree
  left_left_turned = rb_rotate_right-Holds k (branch a n red b) p black s g red u _ (
      rb_set_color-Holds k (branch (branch a n red b) p black s) g c red u _
        (rb_set_color-Holds (in_left k g c u) (branch a n red b) p red black s t h))

  pub left_left_black :
      (fuel : ℕ) → tone u ≡ black → insert_loop (suc (suc fuel)) n t ≡ some left_left_tree
  unfolding turn_left_side left_left_tree
  left_left_black fuel e =
      let uncle : rb_is_red (t.nodes g).right t ≡ false =
        ap is_red (rb_color-tone u t g (t.nodes g).right left_left_at_g.right ∙ e) in
      loop_goes (suc fuel) n t n left_left_tree
        (goes (in_left (in_left k g c u) p red s) a n red b t h refl)
        (round_left_black n p g t left_left_parent left_left_at_p.parent left_left_at_g.left.0 false
          uncle left_left_test)
      ∙ ends (in_left k p black (branch s g red u)) a n red b left_left_tree fuel left_left_turned
          refl

-- a red parent on the left of `g`, with the node on its right
module _ (k : Context) (g : ℕ) (c : Color) (u : Shape) (p : ℕ) (s a : Shape) (n : ℕ) (b : Shape)
    (t : RbTree) (h : Holds t (plug (in_right (in_left k g c u) s p red) (branch a n red b))) where
  pub left_right_parent : (t.nodes n).parent ≡ p
  left_right_parent = (facts (in_right (in_left k g c u) s p red) a n red b t h.0).parent

  pub left_right_at_p : Facts t (in_left k g c u) s p red (branch a n red b)
  left_right_at_p = facts (in_left k g c u) s p red (branch a n red b) t h.0

  pub left_right_at_g : Facts t k (branch s p red (branch a n red b)) g c u
  left_right_at_g = facts k (branch s p red (branch a n red b)) g c u t h.0

  pub left_right_test : ((t.nodes p).right == n) ≡ true
  left_right_test = let e : (t.nodes p).right ≡ n = left_right_at_p.right.0 in ground arith

  pub left_right_tree : RbTree
  left_right_tree =
      rb_rotate_right g (rb_set_color g red (rb_set_color n black (rb_rotate_left p t)))

  pub left_right_turned :
      Holds left_right_tree (plug k (branch (branch s p red a) n black (branch b g red u)))
  unfolding left_right_tree
  left_right_turned = rb_rotate_right-Holds k (branch s p red a) n black b g red u _ (
      rb_set_color-Holds k (branch (branch s p red a) n black b) g c red u _ (
        rb_set_color-Holds (in_left k g c u) (branch s p red a) n red black b _
          (rb_rotate_left-Holds (in_left k g c u) s p red a n red b t h)))

  pub left_right_black :
      (fuel : ℕ) → tone u ≡ black → insert_loop (suc (suc fuel)) n t ≡ some left_right_tree
  unfolding turn_left_side left_right_tree
  left_right_black fuel e =
      let uncle : rb_is_red (t.nodes g).right t ≡ false =
        ap is_red (rb_color-tone u t g (t.nodes g).right left_right_at_g.right ∙ e) in
      loop_goes (suc fuel) n t p left_right_tree
        (goes (in_right (in_left k g c u) s p red) a n red b t h refl)
        (round_left_black n p g t left_right_parent left_right_at_p.parent left_right_at_g.left.0
          true uncle left_right_test)
      ∙ ends (in_left k n black (branch b g red u)) s p red a left_right_tree fuel left_right_turned
          refl

-- a red parent on the right of `g`, with the node on its left
module _ (k : Context) (g : ℕ) (c : Color) (u : Shape) (p : ℕ) (s a : Shape) (n : ℕ) (b : Shape)
    (t : RbTree) (h : Holds t (plug (in_left (in_right k u g c) p red s) (branch a n red b))) where
  pub right_left_parent : (t.nodes n).parent ≡ p
  right_left_parent = (facts (in_left (in_right k u g c) p red s) a n red b t h.0).parent

  pub right_left_at_p : Facts t (in_right k u g c) (branch a n red b) p red s
  right_left_at_p = facts (in_right k u g c) (branch a n red b) p red s t h.0

  pub right_left_at_g : Facts t k u g c (branch (branch a n red b) p red s)
  right_left_at_g = facts k u g c (branch (branch a n red b) p red s) t h.0

  pub right_left_apart : (t.nodes g).left ≢ p
  right_left_apart = misses u t g (t.nodes g).left p right_left_at_g.left right_left_at_p.place (
      omega (
        arith,
        h.1 p,
        count-plug (in_left (in_right k u g c) p red s) p (branch a n red b),
        counts_itself p,
      ))

  pub right_left_test : ((t.nodes p).left == n) ≡ true
  right_left_test = let e : (t.nodes p).left ≡ n = right_left_at_p.left.0 in ground arith

  pub right_left_tree : RbTree
  right_left_tree =
      rb_rotate_left g (rb_set_color g red (rb_set_color n black (rb_rotate_right p t)))

  pub right_left_turned :
      Holds right_left_tree (plug k (branch (branch u g red a) n black (branch b p red s)))
  unfolding right_left_tree
  right_left_turned = rb_rotate_left-Holds k u g red a n black (branch b p red s) _ (
      rb_set_color-Holds k u g c red (branch a n black (branch b p red s)) _ (
        rb_set_color-Holds (in_right k u g c) a n red black (branch b p red s) _
          (rb_rotate_right-Holds (in_right k u g c) a n red b p red s t h)))

  pub right_left_black :
      (fuel : ℕ) → tone u ≡ black → insert_loop (suc (suc fuel)) n t ≡ some right_left_tree
  unfolding turn_right_side right_left_tree
  right_left_black fuel e =
      let uncle : rb_is_red (t.nodes g).left t ≡ false =
        ap is_red (rb_color-tone u t g (t.nodes g).left right_left_at_g.left ∙ e) in
      loop_goes (suc fuel) n t p right_left_tree
        (goes (in_left (in_right k u g c) p red s) a n red b t h refl)
        (round_right_black n p g t right_left_parent right_left_at_p.parent right_left_apart true
          uncle right_left_test)
      ∙ ends (in_right k (branch u g red a) n black) b p red s right_left_tree fuel
          right_left_turned refl

-- a red parent on the right of `g`, with the node on its right
module _ (k : Context) (g : ℕ) (c : Color) (u : Shape) (p : ℕ) (s a : Shape) (n : ℕ) (b : Shape)
    (t : RbTree) (h : Holds t (plug (in_right (in_right k u g c) s p red) (branch a n red b))) where
  pub right_right_parent : (t.nodes n).parent ≡ p
  right_right_parent = (facts (in_right (in_right k u g c) s p red) a n red b t h.0).parent

  pub right_right_at_p : Facts t (in_right k u g c) s p red (branch a n red b)
  right_right_at_p = facts (in_right k u g c) s p red (branch a n red b) t h.0

  pub right_right_at_g : Facts t k u g c (branch s p red (branch a n red b))
  right_right_at_g = facts k u g c (branch s p red (branch a n red b)) t h.0

  pub right_right_apart : (t.nodes g).left ≢ p
  right_right_apart = misses u t g (t.nodes g).left p right_right_at_g.left right_right_at_p.place (
      omega (
        arith,
        h.1 p,
        count-plug (in_right (in_right k u g c) s p red) p (branch a n red b),
        counts_itself p,
      ))

  pub right_right_test : ((t.nodes p).left == n) ≡ false
  right_right_test =
      let e : (t.nodes p).left ≢ n =
        misses s t p (t.nodes p).left n right_right_at_p.left
          (facts (in_right (in_right k u g c) s p red) a n red b t h.0).place
          (omega (
            arith,
            h.1 n,
            count-plug (in_right (in_right k u g c) s p red) n (branch a n red b),
            counts_itself n,
          )) in
      ground arith

  pub right_right_tree : RbTree
  right_right_tree = rb_rotate_left g (rb_set_color g red (rb_set_color p black t))

  pub right_right_turned :
      Holds right_right_tree (plug k (branch (branch u g red s) p black (branch a n red b)))
  unfolding right_right_tree
  right_right_turned = rb_rotate_left-Holds k u g red s p black (branch a n red b) _ (
      rb_set_color-Holds k u g c red (branch s p black (branch a n red b)) _
        (rb_set_color-Holds (in_right k u g c) s p red black (branch a n red b) t h))

  pub right_right_black :
      (fuel : ℕ) → tone u ≡ black → insert_loop (suc (suc fuel)) n t ≡ some right_right_tree
  unfolding turn_right_side right_right_tree
  right_right_black fuel e =
      let uncle : rb_is_red (t.nodes g).left t ≡ false =
        ap is_red (rb_color-tone u t g (t.nodes g).left right_right_at_g.left ∙ e) in
      loop_goes (suc fuel) n t n right_right_tree
        (goes (in_right (in_right k u g c) s p red) a n red b t h refl)
        (round_right_black n p g t right_right_parent right_right_at_p.parent right_right_apart
          false uncle right_right_test)
      ∙ ends (in_right k (branch u g red s) p black) a n red b right_right_tree fuel
          right_right_turned refl
