-- ===== src/Rbtree/EraseLoop/Right.antt =====
-- A round of the loop of `rb_erase_color` of rbtree.c with `x` on the right of its parent.
use fru1t_os.Prelude.{
  ℕ, suc, ◌<◌, ◌≡◌, refl, sym, ap, ◌∙◌, true, false, not, if◌then◌else◌, arith, inl, inr,
  Bool-cases,
}
use fru1t_os.Rbtree.{Color, red, black, is_red, RbTree, rb_set_color, rb_is_black}
use fru1t_os.Rbtree.Erase.{settle_left, erase_left, erase_loop}
use fru1t_os.Rbtree.Shape.{Shape, leaf, branch, count, Context, in_right, plug, above}
use fru1t_os.Rbtree.Place.{count-plug, count_root}
use fru1t_os.Rbtree.Settle.{tone, blacken}
use fru1t_os.Rbtree.Balance.{IsCalm, IsEven, black_ne_red}
use fru1t_os.Rbtree.Repair.{redden, plain, borrow_right, turn_up_right, repair}
use fru1t_os.Rbtree.Holds.{Holds, facts, misses, rb_color-tone}
use fru1t_os.Rbtree.Rounds.Right.{
  break_right, finish_right-plain, finish_right_breaks, climb_right-Holds, erase_right_black,
  lifted_right, lifted_right-Holds, erase_right_red,
}
use fru1t_os.Rbtree.Close.{
  pointer, pointer_lem, root_Below, closed_at, closed_root, on_with, round_right,
}
use fru1t_os.Rbtree.EraseLoop.{Closes, Closes-same, red_ends}

-- `x` stands on the right
module _ (k : Context) (p : ℕ) (c : Color) (x : Shape) (black_x : is_red (tone x) ≡ false) where
  abbrev climbed_right : Shape → Shape
  climbed_right s = repair k (branch (redden s) p c x)

  repair_right-plain :
      (l : Shape) (s : ℕ) (r : Shape)
      → plain (branch l s black r) ≡ true
      → climbed_right (branch l s black r) ≡ repair (in_right k (branch l s black r) p c) x
  unfolding repair
  repair_right-plain l s r e = rw (black_x, e) refl

  repair_right_borrows :
      (l : Shape) (s : ℕ) (r : Shape)
      → plain (branch l s black r) ≡ false
      → blacken (plug k (borrow_right x p c (branch l s black r)))
        ≡ repair (in_right k (branch l s black r) p c) x
  unfolding repair
  repair_right_borrows l s r e = rw (black_x, e) refl

  repair_right_lifts :
      (a : Shape) (q : ℕ) (b : Shape)
      → turn_up_right k x p (branch a q red b) ≡ repair (in_right k (branch a q red b) p c) x
  unfolding repair
  repair_right_lifts a q b = rw black_x refl

  module _ (fuel : ℕ) (t : RbTree) where
    enter_right :
        (l : Shape) (s : ℕ) (d : Color) (r : Shape)
        → Holds t (plug k (branch (branch l s d r) p c x))
        → erase_loop (suc fuel) (pointer x) p t ≡ on_with fuel (erase_left p t)
    enter_right l s d r h =
        let f = facts k (branch l s d r) p c x t h.0 in
        let below = root_Below k (branch l s d r) p c x t h in
        let at = pointer_lem x t p (t.nodes p).right f.right in
        let black_there : rb_is_black (pointer x) t ≡ true =
          ap (λ z. rb_is_black z t) (sym at)
          ∙ ap (λ q. not (is_red q)) (rb_color-tone x t p (t.nodes p).right f.right)
          ∙ ap not black_x in
        let sibling_place : 0 < (t.nodes p).left = omega (arith, f.left.0, f.left.1) in
        let there = count_root (branch l s d r) t p (t.nodes p).left sibling_place f.left in
        let not_there : count (t.nodes p).left x ≡ 0 = omega (
          arith,
          there,
          h.1 (t.nodes p).left,
          count-plug k (t.nodes p).left (branch (branch l s d r) p c x),
        ) in
        round_right fuel (pointer x) p t black_there
          (λ e.
            misses x t p (t.nodes p).right t.rb_node f.right below.place below.not_right (at ∙ e))
          (λ e.
            misses x t p (t.nodes p).right (t.nodes p).left f.right sibling_place not_there
              (at ∙ sym e))

    -- a black sibling with a red child
    borrow_right-Closes :
        (l : Shape) (s : ℕ) (r : Shape)
        → Holds t (plug k (branch (branch l s black r) p c x))
        → plain (branch l s black r) ≡ false
        → Closes (suc fuel) (pointer x) p t (repair (in_right k (branch l s black r) p c) x)
    borrow_right-Closes l s r h np =
        let t' = settle_left p t in
        Closes-same (suc fuel) (pointer x) p t (repair_right_borrows l s r np) (
          t'.rb_node,
          t',
          enter_right l s black r h
              ∙ ap (on_with fuel)
                  (erase_right_black k x p c l s r t h ∙ finish_right_breaks k x p c l s r t h np),
          closed_root (plug k (borrow_right x p c (branch l s black r))) t'
              (break_right k x p c l s r t h np),
        )

    -- without one the loop goes on above
    climb_right-Closes :
        (l : Shape) (s : ℕ) (r : Shape)
        → Holds t (plug k (branch (branch l s black r) p c x))
        → plain (branch l s black r) ≡ true
        → Closes fuel p (above k) (rb_set_color s red t) (climbed_right (branch l s black r))
        → Closes (suc fuel) (pointer x) p t (repair (in_right k (branch l s black r) p c) x)
    climb_right-Closes l s r h pl (n, t', e, h') =
        Closes-same (suc fuel) (pointer x) p t (repair_right-plain l s r pl) (
          n,
          t',
          enter_right l s black r h
              ∙ ap (on_with fuel)
                  (erase_right_black k x p c l s r t h ∙ finish_right-plain k x p c l s r t h pl)
              ∙ e,
          h',
        )

    -- a red sibling, whose child next to `x` is black
    lift_right-Closes :
        (n1 : Shape) (n : ℕ) (n2 : Shape) (q : ℕ) (b : Shape)
        → Holds t (plug k (branch (branch b q red (branch n1 n black n2)) p c x))
        → 0 < fuel
        → Closes
            (suc fuel)
            (pointer x)
            p
            t
            (repair (in_right k (branch b q red (branch n1 n black n2)) p c) x)
    lift_right-Closes n1 n n2 q b h more =
        let a = branch n1 n black n2 in
        let old = (branch b q red a) in
        let up = (in_right k b q black) in
        let t1 = lifted_right k x p c b q a t h in
        let h1 = lifted_right-Holds k x p c b q a t h in
        let start =
          enter_right b q red a h ∙ ap (on_with fuel) (erase_right_red k x p c b q a t h) in
        let goal = repair_right_lifts b q a in
        elim (Bool-cases (plain a)) [
          | inl pl ↦
              let h2 = climb_right-Holds up x p red n1 n n2 t1 h1 in
              let t2 = rb_set_color n red t1 in
              Closes-same (suc fuel) (pointer x) p t
                (ap
                    (λ v.
                      if v
                      then plug up (branch (redden a) p black x)
                      else blacken (plug up (borrow_right x p red a)))
                    (sym pl)
                  ∙ goal)
                (
                  p,
                  t2,
                  start
                      ∙ ap (on_with fuel) (finish_right-plain up x p red n1 n n2 t1 h1 pl)
                      ∙ red_ends fuel up (branch n1 n red n2) p x q t2 h2 more,
                  closed_at up (branch (branch n1 n red n2) p red x) t2 h2,
                )
          | inr np ↦
              let t2 = settle_left p t1 in
              Closes-same (suc fuel) (pointer x) p t
                (ap
                    (λ v.
                      if v
                      then plug up (branch (redden a) p black x)
                      else blacken (plug up (borrow_right x p red a)))
                    (sym np)
                  ∙ goal)
                (
                  t2.rb_node,
                  t2,
                  start ∙ ap (on_with fuel) (finish_right_breaks up x p red n1 n n2 t1 h1 np),
                  closed_root (plug up (borrow_right x p red a)) t2
                      (break_right up x p red n1 n n2 t1 h1 np),
                )
        ]

  -- all of it
  pub right-Closes :
      (fuel : ℕ) (s : Shape) (h : ℕ) (t : RbTree)
      → Holds t (plug k (branch s p c x))
      → IsEven (suc h) s
      → IsCalm s
      → 0 < fuel
      → ((u : RbTree)
          → Holds u (plug k (branch (redden s) p c x))
          → Closes fuel p (above k) u (climbed_right s))
      → Closes (suc fuel) (pointer x) p t (repair (in_right k s p c) x)
  right-Closes fuel leaf h t holds even calm more next = absurd (omega (arith, even))
  right-Closes fuel (branch l s black r) h t holds even calm more next =
      elim (Bool-cases (plain (branch l s black r))) [
        | inl pl ↦
            climb_right-Closes fuel t l s r holds pl
              (next (rb_set_color s red t) (climb_right-Holds k x p c l s r t holds))
        | inr np ↦ borrow_right-Closes fuel t l s r holds np
      ]
  right-Closes fuel (branch b q red leaf) h t holds even calm more next =
      absurd (omega (arith, even.1))
  right-Closes fuel (branch b q red (branch n1 n red n2)) h t holds even calm more next =
      absurd (black_ne_red calm.1)
  right-Closes fuel (branch b q red (branch n1 n black n2)) h t holds even calm more next =
      lift_right-Closes fuel t n1 n n2 q b holds more
