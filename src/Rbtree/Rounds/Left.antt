-- ===== src/Rbtree/Rounds/Left.antt =====
-- The rounds of `rb_erase_color` of rbtree.c with `x` on the left of its parent.
use fru1t_os.Prelude.{ℕ, ◌≡◌, refl, ap, ◌∙◌, true, false, if◌then◌else◌}
use fru1t_os.Rbtree.{
  Color, red, black, is_red, RbTree, rb_set_color, rb_parent, rb_is_red, rb_rotate_left,
}
use fru1t_os.Rbtree.Erase.{Round, climbs, breaks, lift_right, is_plain, settle_right, erase_right}
use fru1t_os.Rbtree.Shape.{Shape, leaf, branch, Context, in_left, in_right, plug, above}
use fru1t_os.Rbtree.Repair.{plain, borrow_left}
use fru1t_os.Rbtree.Holds.{Holds, facts, rb_color-tone, rb_set_color-Holds, rb_rotate_left-Holds}
use fru1t_os.Rbtree.Turns.Left.{at_p_left, test_left, settle_left_far, settle_left_near}

-- the sibling is black and has a red child
pub break_left :
    (k : Context) (x : Shape) (p : ℕ) (c : Color) (l : Shape) (s : ℕ) (r : Shape) (t : RbTree)
    → Holds t (plug k (branch x p c (branch l s black r)))
    → plain (branch l s black r) ≡ false
    → Holds (settle_right p t) (plug k (borrow_left x p c (branch l s black r)))
break_left k x p c near s (branch f1 f red f2) t h np =
    settle_left_far k x p c near s black f1 f f2 t h
break_left k x p c leaf s leaf t h np = cc
break_left k x p c (branch n1 n black n2) s leaf t h np = cc
break_left k x p c (branch n1 n red n2) s leaf t h np =
    settle_left_near k x p c n1 n n2 s black leaf t refl h
break_left k x p c leaf s (branch f1 f black f2) t h np = cc
break_left k x p c (branch n1 n black n2) s (branch f1 f black f2) t h np = cc
break_left k x p c (branch n1 n red n2) s (branch f1 f black f2) t h np =
    settle_left_near k x p c n1 n n2 s black (branch f1 f black f2) t refl h

-- the round behind the lift
abbrev pub finish_left : ℕ → RbTree → Round
finish_left p t =
    let sibling : ℕ = (t.nodes p).right in
    if is_plain sibling t
    then climbs p (rb_parent p (rb_set_color sibling red t)) (rb_set_color sibling red t)
    else breaks (settle_right p t)

module _ (k : Context) (x : Shape) (p : ℕ) (c : Color) (l : Shape) (s : ℕ) (r : Shape) (t : RbTree)
    (h : Holds t (plug k (branch x p c (branch l s black r)))) where
  finish_left_at : finish_left p t ≡ (
      if plain (branch l s black r)
      then climbs p (rb_parent p (rb_set_color s red t)) (rb_set_color s red t)
      else breaks (settle_right p t))
  finish_left_at =
      ap
        (λ z.
          if is_plain z t
          then climbs p (rb_parent p (rb_set_color z red t)) (rb_set_color z red t)
          else breaks (settle_right p t))
        (at_p_left k x p c l s black r t h).right.0
      ∙ ap
          (λ b.
            if b
            then climbs p (rb_parent p (rb_set_color s red t)) (rb_set_color s red t)
            else breaks (settle_right p t))
          (test_left k x p c l s black r t h)

  pub climb_left-Holds : Holds (rb_set_color s red t) (plug k (branch x p c (branch l s red r)))
  climb_left-Holds = rb_set_color-Holds (in_right k x p c) l s black red r t h

  pub finish_left-plain :
      plain (branch l s black r) ≡ true
      → finish_left p t ≡ climbs p (above k) (rb_set_color s red t)
  finish_left-plain e =
      finish_left_at
      ∙ ap
          (λ b.
            if b
            then climbs p (rb_parent p (rb_set_color s red t)) (rb_set_color s red t)
            else breaks (settle_right p t))
          e
      ∙ ap (λ q. climbs p q (rb_set_color s red t))
          (facts k x p c (branch l s red r) (rb_set_color s red t) climb_left-Holds.0).parent

  pub finish_left_breaks :
      plain (branch l s black r) ≡ false → finish_left p t ≡ breaks (settle_right p t)
  finish_left_breaks e =
      finish_left_at
      ∙ ap
          (λ b.
            if b
            then climbs p (rb_parent p (rb_set_color s red t)) (rb_set_color s red t)
            else breaks (settle_right p t))
          e

  -- a black sibling is not lifted
  pub erase_left_black : erase_right p t ≡ finish_left p t
  unfolding erase_right lift_right
  erase_left_black =
      let at_p = at_p_left k x p c l s black r t h in
      let not_lifted : rb_is_red (t.nodes p).right t ≡ false =
        ap is_red (rb_color-tone (branch l s black r) t p (t.nodes p).right at_p.right) in
      ap
        (λ b. finish_left p (
          if b
          then rb_rotate_left p (rb_set_color p red (rb_set_color (t.nodes p).right black t))
          else t))
        not_lifted

-- a red one is
module _ (k : Context) (x : Shape) (p : ℕ) (c : Color) (a : Shape) (q : ℕ) (b : Shape) (t : RbTree)
    (h : Holds t (plug k (branch x p c (branch a q red b)))) where
  abbrev pub lifted_left : RbTree
  lifted_left = rb_rotate_left p (rb_set_color p red (rb_set_color q black t))

  pub lifted_left-Holds : Holds lifted_left (plug (in_left k q black b) (branch x p red a))
  lifted_left-Holds = rb_rotate_left-Holds k x p red a q black b _ (
      rb_set_color-Holds k x p c red (branch a q black b) _
        (rb_set_color-Holds (in_right k x p c) a q red black b t h))

  pub erase_left_red : erase_right p t ≡ finish_left p lifted_left
  unfolding erase_right lift_right
  erase_left_red =
      let at_p = at_p_left k x p c a q red b t h in
      let lifts : rb_is_red (t.nodes p).right t ≡ true =
        ap is_red (rb_color-tone (branch a q red b) t p (t.nodes p).right at_p.right) in
      ap
        (λ b. finish_left p (
          if b
          then rb_rotate_left p (rb_set_color p red (rb_set_color (t.nodes p).right black t))
          else t))
        lifts
      ∙ ap (λ z. finish_left p (rb_rotate_left p (rb_set_color p red (rb_set_color z black t))))
          at_p.right.0
