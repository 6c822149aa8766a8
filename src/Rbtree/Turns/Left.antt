-- ===== src/Rbtree/Turns/Left.antt =====
-- The last turns of `rb_erase_color` of rbtree.c with `x` on the left of its parent.
use mathlib.Core.Path.{subst}
use fru1t_os.Prelude.{ℕ, ◌≡◌, refl, sym, ap, ◌∙◌, Bool, true, false, not, ◌&&◌, if◌then◌else◌}
use fru1t_os.Rbtree.{
  Color, red, black, is_red, RbTree, rb_set_color, rb_color, rb_is_black, rb_rotate_left,
  rb_rotate_right,
}
use fru1t_os.Rbtree.Erase.{is_plain, settle_right}
use fru1t_os.Rbtree.Shape.{Shape, branch, Context, in_left, in_right, plug}
use fru1t_os.Rbtree.Settle.{tone}
use fru1t_os.Rbtree.Repair.{plain}
use fru1t_os.Rbtree.Holds.{
  Holds, Facts, facts, rb_color-tone, rb_color_at, rb_set_color-Holds, rb_rotate_left-Holds,
  rb_rotate_right-Holds,
}
use fru1t_os.Rbtree.Turns.{twice}

-- `x` on the left of `p`: the last turn, with a far child `f` that is painted black
abbrev last_left : (p s : ℕ) (c : Color) → RbTree → RbTree
last_left p s c t =
    let t2 = rb_set_color p black (rb_set_color s c t) in
    rb_rotate_left p (rb_set_color (t2.nodes s).right black t2)

module _ (k : Context) (x : Shape) (p : ℕ) (c : Color) (near : Shape) (s : ℕ) (d : Color)
    (f1 : Shape) (f : ℕ) (e : Color) (f2 : Shape) (t : RbTree)
    (h : Holds t (plug k (branch x p c (branch near s d (branch f1 f e f2))))) where
  abbrev painted_left : RbTree
  painted_left = rb_set_color p black (rb_set_color s c t)

  painted_left-Holds :
      Holds painted_left (plug k (branch x p black (branch near s c (branch f1 f e f2))))
  painted_left-Holds =
      rb_set_color-Holds k x p c black (branch near s c (branch f1 f e f2)) _
        (rb_set_color-Holds (in_right k x p c) near s d c (branch f1 f e f2) t h)

  last_left-Holds :
      Holds
        (last_left p (t.nodes p).right (rb_color p t) t)
        (plug k (branch (branch x p black near) s c (branch f1 f black f2)))
  last_left-Holds =
      let at_p = facts k x p c (branch near s d (branch f1 f e f2)) t h.0 in
      let at_s =
        facts (in_right k x p black) near s c (branch f1 f e f2) painted_left
          painted_left-Holds.0 in
      let same =
        ap (λ z. last_left p z (rb_color p t) t) at_p.right.0
        ∙ ap (λ q. last_left p s q t) (rb_color_at p c t at_p.place at_p.color)
        ∙ ap (λ z. rb_rotate_left p (rb_set_color z black painted_left)) at_s.right.0 in
      subst (λ u. Holds u (plug k (branch (branch x p black near) s c (branch f1 f black f2))))
        (sym same)
        (rb_rotate_left-Holds k x p black near s c (branch f1 f black f2) _ (
          rb_set_color-Holds (in_right (in_right k x p black) near s c) f1 f e black f2 painted_left
            painted_left-Holds))

-- the turns of the last round
module _ (k : Context) (x : Shape) (p : ℕ) (c : Color) (l : Shape) (s : ℕ) (d : Color) (r : Shape)
    (t : RbTree) (h : Holds t (plug k (branch x p c (branch l s d r)))) where
  abbrev settle_at_left : (s : ℕ) → (far_black : Bool) → RbTree
  settle_at_left s far_black =
      let t1 =
        if far_black
        then rb_rotate_right s (rb_set_color s red (rb_set_color (t.nodes s).left black t))
        else t in
      last_left p (t1.nodes p).right (rb_color p t1) t1

  pub at_p_left : Facts t k x p c (branch l s d r)
  at_p_left = facts k x p c (branch l s d r) t h.0

  at_s_left : Facts t (in_right k x p c) l s d r
  at_s_left = facts (in_right k x p c) l s d r t h.0

  settle_left_equation :
      (b : Bool) → is_red (tone r) ≡ not b → settle_right p t ≡ settle_at_left s b
  unfolding settle_right
  settle_left_equation b e =
      let far_tone : rb_is_black (t.nodes s).right t ≡ b =
        ap (λ q. not (is_red q)) (rb_color-tone r t s (t.nodes s).right at_s_left.right)
        ∙ ap not e
        ∙ twice b in
      ap (λ z. settle_at_left z (rb_is_black (t.nodes z).right t)) at_p_left.right.0
      ∙ ap (settle_at_left s) far_tone

  pub test_left : is_plain s t ≡ plain (branch l s d r)
  unfolding is_plain
  test_left =
      ap (λ q. not (is_red q) && rb_is_black (t.nodes s).right t)
        (rb_color-tone l t s (t.nodes s).left at_s_left.left)
      ∙ ap (λ q. not (is_red (tone l)) && not (is_red q))
          (rb_color-tone r t s (t.nodes s).right at_s_left.right)

pub settle_left_far :
    (k : Context) (x : Shape) (p : ℕ) (c : Color) (near : Shape) (s : ℕ) (d : Color) (f1 : Shape)
    (f : ℕ) (f2 : Shape) (t : RbTree)
    → Holds t (plug k (branch x p c (branch near s d (branch f1 f red f2))))
    → Holds (settle_right p t) (plug k (branch (branch x p black near) s c (branch f1 f black f2)))
settle_left_far k x p c near s d f1 f f2 t h =
    subst (λ u. Holds u (plug k (branch (branch x p black near) s c (branch f1 f black f2))))
      (sym (settle_left_equation k x p c near s d (branch f1 f red f2) t h false refl))
      (last_left-Holds k x p c near s d f1 f red f2 t h)

pub settle_left_near :
    (k : Context) (x : Shape) (p : ℕ) (c : Color) (n1 : Shape) (n : ℕ) (n2 : Shape) (s : ℕ)
    (d : Color) (far : Shape) (t : RbTree)
    → is_red (tone far) ≡ false
    → Holds t (plug k (branch x p c (branch (branch n1 n red n2) s d far)))
    → Holds (settle_right p t) (plug k (branch (branch x p black n1) n c (branch n2 s black far)))
settle_left_near k x p c n1 n n2 s d far t far_black h =
    let sibling_at_s = at_s_left k x p c (branch n1 n red n2) s d far t h in
    let t1 = rb_rotate_right s (rb_set_color s red (rb_set_color n black t)) in
    let h1 : Holds t1 (plug k (branch x p c (branch n1 n black (branch n2 s red far)))) =
      rb_rotate_right-Holds (in_right k x p c) n1 n black n2 s red far _ (
        rb_set_color-Holds (in_right k x p c) (branch n1 n black n2) s d red far _
          (rb_set_color-Holds (in_left (in_right k x p c) s d far) n1 n red black n2 t h)) in
    let same =
      settle_left_equation k x p c (branch n1 n red n2) s d far t h true far_black
      ∙ ap
          (λ z.
            let u = rb_rotate_right s (rb_set_color s red (rb_set_color z black t)) in
            last_left p (u.nodes p).right (rb_color p u) u)
          sibling_at_s.left.0 in
    subst (λ u. Holds u (plug k (branch (branch x p black n1) n c (branch n2 s black far))))
      (sym same) (last_left-Holds k x p c n1 n black n2 s red far t1 h1)
