-- ===== src/Rbtree/Turns/Right.antt =====
-- The last turns of `rb_erase_color` of rbtree.c with `x` on the right of its parent.
use mathlib.Core.Path.{subst}
use fru1t_os.Prelude.{ℕ, ◌≡◌, refl, sym, ap, ◌∙◌, Bool, true, false, not, ◌&&◌, if◌then◌else◌}
use fru1t_os.Rbtree.{
  Color, red, black, is_red, RbTree, rb_set_color, rb_color, rb_is_black, rb_rotate_left,
  rb_rotate_right,
}
use fru1t_os.Rbtree.Erase.{is_plain, settle_left}
use fru1t_os.Rbtree.Shape.{Shape, branch, Context, in_left, in_right, plug}
use fru1t_os.Rbtree.Settle.{tone}
use fru1t_os.Rbtree.Repair.{plain}
use fru1t_os.Rbtree.Holds.{
  Holds, Facts, facts, rb_color-tone, rb_color_at, rb_set_color-Holds, rb_rotate_left-Holds,
  rb_rotate_right-Holds,
}
use fru1t_os.Rbtree.Turns.{twice}

-- `x` on the right of `p`: the last turn, with a far child `f` that is painted black
abbrev last_right : (p s : ℕ) (c : Color) → RbTree → RbTree
last_right p s c t =
    let t2 = rb_set_color p black (rb_set_color s c t) in
    rb_rotate_right p (rb_set_color (t2.nodes s).left black t2)

module _ (k : Context) (x : Shape) (p : ℕ) (c : Color) (near : Shape) (s : ℕ) (d : Color)
    (f1 : Shape) (f : ℕ) (e : Color) (f2 : Shape) (t : RbTree)
    (h : Holds t (plug k (branch (branch (branch f1 f e f2) s d near) p c x))) where
  abbrev painted_right : RbTree
  painted_right = rb_set_color p black (rb_set_color s c t)

  painted_right-Holds :
      Holds painted_right (plug k (branch (branch (branch f1 f e f2) s c near) p black x))
  painted_right-Holds =
      rb_set_color-Holds k (branch (branch f1 f e f2) s c near) p c black x _
        (rb_set_color-Holds (in_left k p c x) (branch f1 f e f2) s d c near t h)

  last_right-Holds :
      Holds
        (last_right p (t.nodes p).left (rb_color p t) t)
        (plug k (branch (branch f1 f black f2) s c (branch near p black x)))
  last_right-Holds =
      let at_p = facts k (branch (branch f1 f e f2) s d near) p c x t h.0 in
      let at_s =
        facts (in_left k p black x) (branch f1 f e f2) s c near painted_right
          painted_right-Holds.0 in
      let same =
        ap (λ z. last_right p z (rb_color p t) t) at_p.left.0
        ∙ ap (λ q. last_right p s q t) (rb_color_at p c t at_p.place at_p.color)
        ∙ ap (λ z. rb_rotate_right p (rb_set_color z black painted_right)) at_s.left.0 in
      subst (λ u. Holds u (plug k (branch (branch f1 f black f2) s c (branch near p black x))))
        (sym same)
        (rb_rotate_right-Holds k (branch f1 f black f2) s c near p black x _ (
          rb_set_color-Holds (in_left (in_left k p black x) s c near) f1 f e black f2 painted_right
            painted_right-Holds))

-- the turns of the last round
module _ (k : Context) (x : Shape) (p : ℕ) (c : Color) (l : Shape) (s : ℕ) (d : Color) (r : Shape)
    (t : RbTree) (h : Holds t (plug k (branch (branch l s d r) p c x))) where
  abbrev settle_at_right : (s : ℕ) → (far_black : Bool) → RbTree
  settle_at_right s far_black =
      let t1 =
        if far_black
        then rb_rotate_left s (rb_set_color s red (rb_set_color (t.nodes s).right black t))
        else t in
      last_right p (t1.nodes p).left (rb_color p t1) t1

  pub at_p_right : Facts t k (branch l s d r) p c x
  at_p_right = facts k (branch l s d r) p c x t h.0

  at_s_right : Facts t (in_left k p c x) l s d r
  at_s_right = facts (in_left k p c x) l s d r t h.0

  settle_right_equation :
      (b : Bool) → is_red (tone l) ≡ not b → settle_left p t ≡ settle_at_right s b
  unfolding settle_left
  settle_right_equation b e =
      let far_tone : rb_is_black (t.nodes s).left t ≡ b =
        ap (λ q. not (is_red q)) (rb_color-tone l t s (t.nodes s).left at_s_right.left)
        ∙ ap not e
        ∙ twice b in
      ap (λ z. settle_at_right z (rb_is_black (t.nodes z).left t)) at_p_right.left.0
      ∙ ap (settle_at_right s) far_tone

  pub test_right : is_plain s t ≡ plain (branch l s d r)
  unfolding is_plain
  test_right =
      ap (λ q. not (is_red q) && rb_is_black (t.nodes s).right t)
        (rb_color-tone l t s (t.nodes s).left at_s_right.left)
      ∙ ap (λ q. not (is_red (tone l)) && not (is_red q))
          (rb_color-tone r t s (t.nodes s).right at_s_right.right)

pub settle_right_far :
    (k : Context) (x : Shape) (p : ℕ) (c : Color) (near : Shape) (s : ℕ) (d : Color) (f1 : Shape)
    (f : ℕ) (f2 : Shape) (t : RbTree)
    → Holds t (plug k (branch (branch (branch f1 f red f2) s d near) p c x))
    → Holds (settle_left p t) (plug k (branch (branch f1 f black f2) s c (branch near p black x)))
settle_right_far k x p c near s d f1 f f2 t h =
    subst (λ u. Holds u (plug k (branch (branch f1 f black f2) s c (branch near p black x))))
      (sym (settle_right_equation k x p c (branch f1 f red f2) s d near t h false refl))
      (last_right-Holds k x p c near s d f1 f red f2 t h)

pub settle_right_near :
    (k : Context) (x : Shape) (p : ℕ) (c : Color) (n1 : Shape) (n : ℕ) (n2 : Shape) (s : ℕ)
    (d : Color) (far : Shape) (t : RbTree)
    → is_red (tone far) ≡ false
    → Holds t (plug k (branch (branch far s d (branch n2 n red n1)) p c x))
    → Holds (settle_left p t) (plug k (branch (branch far s black n2) n c (branch n1 p black x)))
settle_right_near k x p c n1 n n2 s d far t far_black h =
    let sibling_at_s = at_s_right k x p c far s d (branch n2 n red n1) t h in
    let t1 = rb_rotate_left s (rb_set_color s red (rb_set_color n black t)) in
    let h1 : Holds t1 (plug k (branch (branch (branch far s red n2) n black n1) p c x)) =
      rb_rotate_left-Holds (in_left k p c x) far s red n2 n black n1 _ (
        rb_set_color-Holds (in_left k p c x) far s d red (branch n2 n black n1) _
          (rb_set_color-Holds (in_right (in_left k p c x) far s d) n2 n red black n1 t h)) in
    let same =
      settle_right_equation k x p c far s d (branch n2 n red n1) t h true far_black
      ∙ ap
          (λ z.
            let u = rb_rotate_left s (rb_set_color s red (rb_set_color z black t)) in
            last_right p (u.nodes p).left (rb_color p u) u)
          sibling_at_s.right.0 in
    subst (λ u. Holds u (plug k (branch (branch far s black n2) n c (branch n1 p black x))))
      (sym same) (last_right-Holds k x p c n1 n black far s red n2 t1 h1)
