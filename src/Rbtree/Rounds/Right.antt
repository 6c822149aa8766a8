-- ===== src/Rbtree/Rounds/Right.antt =====
-- The rounds of `rb_erase_color` of rbtree.c with `x` on the right of its parent.
use fru1t_os.Prelude.{ℕ, ◌≡◌, refl, ap, ◌∙◌, true, false, if◌then◌else◌}
use fru1t_os.Rbtree.{
  Color, red, black, is_red, RbTree, rb_set_color, rb_parent, rb_is_red, rb_rotate_right,
}
use fru1t_os.Rbtree.Erase.{Round, climbs, breaks, lift_left, is_plain, settle_left, erase_left}
use fru1t_os.Rbtree.Shape.{Shape, leaf, branch, Context, in_left, in_right, plug, above}
use fru1t_os.Rbtree.Repair.{plain, borrow_right}
use fru1t_os.Rbtree.Holds.{Holds, facts, rb_color-tone, rb_set_color-Holds, rb_rotate_right-Holds}
use fru1t_os.Rbtree.Turns.Right.{at_p_right, test_right, settle_right_far, settle_right_near}

-- the sibling is black and has a red child
pub break_right :
    (k : Context) (x : Shape) (p : ℕ) (c : Color) (l : Shape) (s : ℕ) (r : Shape) (t : RbTree)
    → Holds t (plug k (branch (branch l s black r) p c x))
    → plain (branch l s black r) ≡ false
    → Holds (settle_left p t) (plug k (borrow_right x p c (branch l s black r)))
break_right k x p c (branch f1 f red f2) s near t h np =
    settle_right_far k x p c near s black f1 f f2 t h
break_right k x p c leaf s leaf t h np = cc
break_right k x p c leaf s (branch n1 n black n2) t h np = cc
break_right k x p c leaf s (branch n1 n red n2) t h np =
    settle_right_near k x p c n2 n n1 s black leaf t refl h
break_right k x p c (branch f1 f black f2) s leaf t h np = cc
break_right k x p c (branch f1 f black f2) s (branch n1 n black n2) t h np = cc
break_right k x p c (branch f1 f black f2) s (branch n1 n red n2) t h np =
    settle_right_near k x p c n2 n n1 s black (branch f1 f black f2) t refl h

-- the round behind the lift
abbrev pub finish_right : ℕ → RbTree → Round
finish_right p t =
    let sibling : ℕ = (t.nodes p).left in
    if is_plain sibling t
    then climbs p (rb_parent p (rb_set_color sibling red t)) (rb_set_color sibling red t)
    else breaks (settle_left p t)

module _ (k : Context) (x : Shape) (p : ℕ) (c : Color) (l : Shape) (s : ℕ) (r : Shape) (t : RbTree)
    (h : Holds t (plug k (branch (branch l s black r) p c x))) where
  finish_right_at : finish_right p t ≡ (
      if plain (branch l s black r)
      then climbs p (rb_parent p (rb_set_color s red t)) (rb_set_color s red t)
      else breaks (settle_left p t))
  finish_right_at =
      ap
        (λ z.
          if is_plain z t
          then climbs p (rb_parent p (rb_set_color z red t)) (rb_set_color z red t)
          else breaks (settle_left p t))
        (at_p_right k x p c l s black r t h).left.0
      ∙ ap
          (λ b.
            if b
            then climbs p (rb_parent p (rb_set_color s red t)) (rb_set_color s red t)
            else breaks (settle_left p t))
          (test_right k x p c l s black r t h)

  pub climb_right-Holds : Holds (rb_set_color s red t) (plug k (branch (branch l s red r) p c x))
  climb_right-Holds = rb_set_color-Holds (in_left k p c x) l s black red r t h

  pub finish_right-plain :
      plain (branch l s black r) ≡ true
      → finish_right p t ≡ climbs p (above k) (rb_set_color s red t)
  finish_right-plain e =
      finish_right_at
      ∙ ap
          (λ b.
            if b
            then climbs p (rb_parent p (rb_set_color s red t)) (rb_set_color s red t)
            else breaks (settle_left p t))
          e
      ∙ ap (λ q. climbs p q (rb_set_color s red t))
          (facts k (branch l s red r) p c x (rb_set_color s red t) climb_right-Holds.0).parent

  pub finish_right_breaks :
      plain (branch l s black r) ≡ false → finish_right p t ≡ breaks (settle_left p t)
  finish_right_breaks e =
      finish_right_at
      ∙ ap
          (λ b.
            if b
            then climbs p (rb_parent p (rb_set_color s red t)) (rb_set_color s red t)
            else breaks (settle_left p t))
          e

  -- a black sibling is not lifted
  pub erase_right_black : erase_left p t ≡ finish_right p t
  unfolding erase_left lift_left
  erase_right_black =
      let at_p = at_p_right k x p c l s black r t h in
      let not_lifted : rb_is_red (t.nodes p).left t ≡ false =
        ap is_red (rb_color-tone (branch l s black r) t p (t.nodes p).left at_p.left) in
      ap
        (λ b. finish_right p (
          if b
          then rb_rotate_right p (rb_set_color p red (rb_set_color (t.nodes p).left black t))
          else t))
        not_lifted

-- a red one is
module _ (k : Context) (x : Shape) (p : ℕ) (c : Color) (a : Shape) (q : ℕ) (b : Shape) (t : RbTree)
    (h : Holds t (plug k (branch (branch a q red b) p c x))) where
  abbrev pub lifted_right : RbTree
  lifted_right = rb_rotate_right p (rb_set_color p red (rb_set_color q black t))

  pub lifted_right-Holds : Holds lifted_right (plug (in_right k a q black) (branch b p red x))
  lifted_right-Holds = rb_rotate_right-Holds k a q black b p red x _ (
      rb_set_color-Holds k (branch a q black b) p c red x _
        (rb_set_color-Holds (in_left k p c x) a q red black b t h))

  pub erase_right_red : erase_left p t ≡ finish_right p lifted_right
  unfolding erase_left lift_left
  erase_right_red =
      let at_p = at_p_right k x p c a q red b t h in
      let lifts : rb_is_red (t.nodes p).left t ≡ true =
        ap is_red (rb_color-tone (branch a q red b) t p (t.nodes p).left at_p.left) in
      ap
        (λ b. finish_right p (
          if b
          then rb_rotate_right p (rb_set_color p red (rb_set_color (t.nodes p).left black t))
          else t))
        lifts
      ∙ ap (λ z. finish_right p (rb_rotate_right p (rb_set_color p red (rb_set_color z black t))))
          at_p.left.0
