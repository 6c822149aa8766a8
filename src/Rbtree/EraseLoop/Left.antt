-- ===== src/Rbtree/EraseLoop/Left.antt =====
-- A round of the loop of `rb_erase_color` of rbtree.c with `x` on the left of its parent.
use fru1t_os.Prelude.{
  ℕ, suc, ◌<◌, ◌≡◌, refl, sym, ap, ◌∙◌, true, false, not, if◌then◌else◌, arith, inl, inr,
  Bool-cases,
}
use fru1t_os.Rbtree.{Color, red, black, is_red, RbTree, rb_set_color, rb_is_black}
use fru1t_os.Rbtree.Erase.{settle_right, erase_right, erase_loop}
use fru1t_os.Rbtree.Shape.{Shape, leaf, branch, Context, in_left, plug, above}
use fru1t_os.Rbtree.Settle.{tone, blacken}
use fru1t_os.Rbtree.Balance.{IsCalm, IsEven, black_ne_red}
use fru1t_os.Rbtree.Repair.{redden, plain, borrow_left, turn_up_left, repair}
use fru1t_os.Rbtree.Holds.{Holds, facts, misses, rb_color-tone}
use fru1t_os.Rbtree.Rounds.Left.{
  break_left, finish_left-plain, finish_left_breaks, climb_left-Holds, erase_left_black,
  lifted_left, lifted_left-Holds, erase_left_red,
}
use fru1t_os.Rbtree.Close.{
  pointer, pointer_lem, root_Below, closed_at, closed_root, on_with, round_left,
}
use fru1t_os.Rbtree.EraseLoop.{Closes, Closes-same, red_ends}

-- `x` stands on the left
module _ (k : Context) (p : ℕ) (c : Color) (x : Shape) (black_x : is_red (tone x) ≡ false) where
  abbrev climbed_left : Shape → Shape
  climbed_left s = repair k (branch x p c (redden s))

  repair_left-plain :
      (l : Shape) (s : ℕ) (r : Shape)
      → plain (branch l s black r) ≡ true
      → climbed_left (branch l s black r) ≡ repair (in_left k p c (branch l s black r)) x
  unfolding repair
  repair_left-plain l s r e = rw (black_x, e) refl

  repair_left_borrows :
      (l : Shape) (s : ℕ) (r : Shape)
      → plain (branch l s black r) ≡ false
      → blacken (plug k (borrow_left x p c (branch l s black r)))
        ≡ repair (in_left k p c (branch l s black r)) x
  unfolding repair
  repair_left_borrows l s r e = rw (black_x, e) refl

  repair_left_lifts :
      (a : Shape) (q : ℕ) (b : Shape)
      → turn_up_left k x p (branch a q red b) ≡ repair (in_left k p c (branch a q red b)) x
  unfolding repair
  repair_left_lifts a q b = rw black_x refl

  module _ (fuel : ℕ) (t : RbTree) where
    enter_left :
        (l : Shape) (s : ℕ) (d : Color) (r : Shape)
        → Holds t (plug k (branch x p c (branch l s d r)))
        → erase_loop (suc fuel) (pointer x) p t ≡ on_with fuel (erase_right p t)
    enter_left l s d r h =
        let f = facts k x p c (branch l s d r) t h.0 in
        let below = root_Below k x p c (branch l s d r) t h in
        let at = pointer_lem x t p (t.nodes p).left f.left in
        let black_there : rb_is_black (pointer x) t ≡ true =
          ap (λ z. rb_is_black z t) (sym at)
          ∙ ap (λ q. not (is_red q)) (rb_color-tone x t p (t.nodes p).left f.left)
          ∙ ap not black_x in
        round_left fuel (pointer x) p t black_there
          (λ e. misses x t p (t.nodes p).left t.rb_node f.left below.place below.not_left (at ∙ e))
          at

    -- a black sibling with a red child
    borrow_left-Closes :
        (l : Shape) (s : ℕ) (r : Shape)
        → Holds t (plug k (branch x p c (branch l s black r)))
        → plain (branch l s black r) ≡ false
        → Closes (suc fuel) (pointer x) p t (repair (in_left k p c (branch l s black r)) x)
    borrow_left-Closes l s r h np =
        let t' = settle_right p t in
        Closes-same (suc fuel) (pointer x) p t (repair_left_borrows l s r np) (
          t'.rb_node,
          t',
          enter_left l s black r h
              ∙ ap (on_with fuel)
                  (erase_left_black k x p c l s r t h ∙ finish_left_breaks k x p c l s r t h np),
          closed_root (plug k (borrow_left x p c (branch l s black r))) t'
              (break_left k x p c l s r t h np),
        )

    -- without one the loop goes on above
    climb_left-Closes :
        (l : Shape) (s : ℕ) (r : Shape)
        → Holds t (plug k (branch x p c (branch l s black r)))
        → plain (branch l s black r) ≡ true
        → Closes fuel p (above k) (rb_set_color s red t) (climbed_left (branch l s black r))
        → Closes (suc fuel) (pointer x) p t (repair (in_left k p c (branch l s black r)) x)
    climb_left-Closes l s r h pl (n, t', e, h') =
        Closes-same (suc fuel) (pointer x) p t (repair_left-plain l s r pl) (
          n,
          t',
          enter_left l s black r h
              ∙ ap (on_with fuel)
                  (erase_left_black k x p c l s r t h ∙ finish_left-plain k x p c l s r t h pl)
              ∙ e,
          h',
        )

    -- a red sibling, whose child next to `x` is black
    lift_left-Closes :
        (n1 : Shape) (n : ℕ) (n2 : Shape) (q : ℕ) (b : Shape)
        → Holds t (plug k (branch x p c (branch (branch n1 n black n2) q red b)))
        → 0 < fuel
        → Closes
            (suc fuel)
            (pointer x)
            p
            t
            (repair (in_left k p c (branch (branch n1 n black n2) q red b)) x)
    lift_left-Closes n1 n n2 q b h more =
        let a = branch n1 n black n2 in
        let old = (branch a q red b) in
        let up = (in_left k q black b) in
        let t1 = lifted_left k x p c a q b t h in
        let h1 = lifted_left-Holds k x p c a q b t h in
        let start = enter_left a q red b h ∙ ap (on_with fuel) (erase_left_red k x p c a q b t h) in
        let goal = repair_left_lifts a q b in
        elim (Bool-cases (plain a)) [
          | inl pl ↦
              let h2 = climb_left-Holds up x p red n1 n n2 t1 h1 in
              let t2 = rb_set_color n red t1 in
              Closes-same (suc fuel) (pointer x) p t
                (ap
                    (λ v.
                      if v
                      then plug up (branch x p black (redden a))
                      else blacken (plug up (borrow_left x p red a)))
                    (sym pl)
                  ∙ goal)
                (
                  p,
                  t2,
                  start
                      ∙ ap (on_with fuel) (finish_left-plain up x p red n1 n n2 t1 h1 pl)
                      ∙ red_ends fuel up x p (branch n1 n red n2) q t2 h2 more,
                  closed_at up (branch x p red (branch n1 n red n2)) t2 h2,
                )
          | inr np ↦
              let t2 = settle_right p t1 in
              Closes-same (suc fuel) (pointer x) p t
                (ap
                    (λ v.
                      if v
                      then plug up (branch x p black (redden a))
                      else blacken (plug up (borrow_left x p red a)))
                    (sym np)
                  ∙ goal)
                (
                  t2.rb_node,
                  t2,
                  start ∙ ap (on_with fuel) (finish_left_breaks up x p red n1 n n2 t1 h1 np),
                  closed_root (plug up (borrow_left x p red a)) t2
                      (break_left up x p red n1 n n2 t1 h1 np),
                )
        ]

  -- all of it
  pub left-Closes :
      (fuel : ℕ) (s : Shape) (h : ℕ) (t : RbTree)
      → Holds t (plug k (branch x p c s))
      → IsEven (suc h) s
      → IsCalm s
      → 0 < fuel
      → ((u : RbTree)
          → Holds u (plug k (branch x p c (redden s)))
          → Closes fuel p (above k) u (climbed_left s))
      → Closes (suc fuel) (pointer x) p t (repair (in_left k p c s) x)
  left-Closes fuel leaf h t holds even calm more next = absurd (omega (arith, even))
  left-Closes fuel (branch l s black r) h t holds even calm more next =
      elim (Bool-cases (plain (branch l s black r))) [
        | inl pl ↦
            climb_left-Closes fuel t l s r holds pl
              (next (rb_set_color s red t) (climb_left-Holds k x p c l s r t holds))
        | inr np ↦ borrow_left-Closes fuel t l s r holds np
      ]
  left-Closes fuel (branch leaf q red b) h t holds even calm more next =
      absurd (omega (arith, even.0))
  left-Closes fuel (branch (branch n1 n red n2) q red b) h t holds even calm more next =
      absurd (black_ne_red calm.0)
  left-Closes fuel (branch (branch n1 n black n2) q red b) h t holds even calm more next =
      lift_left-Closes fuel t n1 n n2 q b holds more
