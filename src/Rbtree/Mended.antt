-- ===== src/Rbtree/Mended.antt =====
-- `rb_erase_color` of rbtree.c on a tree that lacks a black node on the ways through one place.
use fru1t_os.Prelude.{
  ℕ, zero, suc, ◌<◌, ◌≡◌, refl, sym, ap, true, not, ◌==◌, Option, none, some, if◌then◌else◌, arith,
  inl, inr, Bool-cases,
}
use fru1t_os.Rbtree.{Color, red, black, is_red, RbTree, rb_set_color}
use fru1t_os.Rbtree.Erase.{rb_erase_color}
use fru1t_os.Rbtree.Shape.{
  Shape, leaf, branch, in_order, IsDistinct, Represents, Context, top, in_left, in_right, plug,
  above,
}
use fru1t_os.Rbtree.Settle.{tone, blacken}
use fru1t_os.Rbtree.Balance.{IsCalm, IsEven, IsRedBlack, CalmIn, EvenIn, IsRooted, blacken-IsCalm}
use fru1t_os.Rbtree.Repair.{redden, repair, in_order-repair}
use fru1t_os.Rbtree.Lent.{raise, left-EvenIn, right-EvenIn}
use fru1t_os.Rbtree.Repaired.{raise-suc, repair-IsRedBlack}
use fru1t_os.Rbtree.Loop.{depth}
use fru1t_os.Rbtree.Holds.{Holds, facts, rb_color_at}
use fru1t_os.Rbtree.Close.{pointer, pointer_lem, closed_by, closed_at, ends_root, ends_red}
use fru1t_os.Rbtree.EraseLoop.{Closes, Closes-same}
use fru1t_os.Rbtree.EraseLoop.Left.{left-Closes}
use fru1t_os.Rbtree.EraseLoop.Right.{right-Closes}

red_here :
    (k : Context) (a : Shape) (n : ℕ) (b : Shape) (fuel : ℕ) (t : RbTree)
    → Holds t (plug k (branch a n red b))
    → Closes (suc fuel) n (above k) t (plug k (branch a n black b))
red_here k a n b fuel t h =
    let f = facts k a n red b t h.0 in
    (
      n,
      t,
      ends_red fuel n (above k) t (ap (λ z. not (is_red z)) (rb_color_at n red t f.place f.color)),
      closed_at k (branch a n red b) t h,
    )

repair_left_red :
    (k : Context) (p : ℕ) (c : Color) (s : Shape) (x : Shape)
    → is_red (tone x) ≡ true
    → plug (in_left k p c s) (blacken x) ≡ repair (in_left k p c s) x
unfolding repair
repair_left_red k p c s x e = rw e refl

repair_right_red :
    (k : Context) (p : ℕ) (c : Color) (s : Shape) (x : Shape)
    → is_red (tone x) ≡ true
    → plug (in_right k s p c) (blacken x) ≡ repair (in_right k s p c) x
unfolding repair
repair_right_red k p c s x e = rw e refl

red_at :
    (k : Context) (x : Shape) (fuel : ℕ) (t : RbTree)
    → is_red (tone x) ≡ true
    → Holds t (plug k x)
    → Closes (suc fuel) (pointer x) (above k) t (plug k (blacken x))
red_at k leaf fuel t e h = cc
red_at k (branch a n black b) fuel t e h = cc
red_at k (branch a n red b) fuel t e h = red_here k a n b fuel t h

-- the loop ends, with the tree that `repair` gives
erase_loop-repair :
    (k : Context) (x : Shape) (h fuel : ℕ) (t : RbTree)
    → Holds t (plug k x)
    → EvenIn k (suc h)
    → CalmIn k
    → depth k < fuel
    → Closes fuel (pointer x) (above k) t (repair k x)
unfolding repair
erase_loop-repair k x h zero t v even calm d = absurd (omega arith)
erase_loop-repair top x h (suc fuel) t v even calm d = (
  pointer x,
  t,
  ends_root fuel (pointer x) 0 t (sym (pointer_lem x t 0 t.rb_node v.0)),
  closed_at top x t v,
)
erase_loop-repair (in_left k p c s) x h (suc fuel) t v even calm d =
    let (here, higher) = left-EvenIn c (suc h) k p s even in
    let (beside, below, up, around) = calm in
    elim (Bool-cases (is_red (tone x))) [
      | inl e ↦
          Closes-same (suc fuel) (pointer x) p t (repair_left_red k p c s x e)
            (red_at (in_left k p c s) x fuel t e v)
      | inr e ↦ left-Closes k p c x e fuel s h t v here below (omega (arith, d)) (λ u w.
          erase_loop-repair k (branch x p c (redden s)) (raise c h) fuel u w
            (raise-suc c h k higher) around (omega (arith, d)))
    ]
erase_loop-repair (in_right k s p c) x h (suc fuel) t v even calm d =
    let (here, higher) = right-EvenIn c (suc h) k p s even in
    let (beside, below, up, around) = calm in
    elim (Bool-cases (is_red (tone x))) [
      | inl e ↦
          Closes-same (suc fuel) (pointer x) p t (repair_right_red k p c s x e)
            (red_at (in_right k s p c) x fuel t e v)
      | inr e ↦ right-Closes k p c x e fuel s h t v here below (omega (arith, d)) (λ u w.
          erase_loop-repair k (branch (redden s) p c x) (raise c h) fuel u w
            (raise-suc c h k higher) around (omega (arith, d)))
    ]

rb_erase_color-repair :
    (k : Context) (x : Shape) (h fuel : ℕ) (t : RbTree)
    → Holds t (plug k x)
    → EvenIn k (suc h)
    → CalmIn k
    → depth k < fuel
    → (t' : RbTree) × (rb_erase_color fuel (pointer x) (above k) t ≡ some t')
      × Holds t' (repair k x)
unfolding rb_erase_color
rb_erase_color-repair k x h fuel t v even calm d =
    let (n, u, e, v') = erase_loop-repair k x h fuel t v even calm d in
    (
      closed_by n u,
      ap
          (λ (o : Option (ℕ × RbTree)). elim o [
            | none ↦ none
            | some (m, w) ↦ some (if m == 0 then w else rb_set_color m black w)
          ])
          e,
      v',
    )

-- In a tree of different nodes with a black root and no red node below a red one, let each way down
-- through the place `k` pass one black node less than the other ways. `rb_erase_color` with more fuel than
-- the place is deep ends, and leaves a red-black tree of the same nodes in the same order whose pointers fit.
pub rb_erase_color_lem :
    (fuel : ℕ) (k : Context) (x : Shape) (h : ℕ) (t : RbTree)
    → Represents t (plug k x)
    → IsDistinct (plug k x)
    → IsEven h x
    → IsCalm x
    → CalmIn k
    → EvenIn k (suc h)
    → IsRooted k
    → depth k < fuel
    → (t' : RbTree) × (s : Shape) × (rb_erase_color fuel (pointer x) (above k) t ≡ some t')
      × Represents t' s
      × IsDistinct s
      × (in_order s ≡ in_order (plug k x))
      × IsRedBlack s
rb_erase_color_lem fuel k x h t is once even calm around ways rooted d =
    let (t', e, (is', once')) = rb_erase_color-repair k x h fuel t (is, once) ways around d in
    (
      t',
      repair k x,
      e,
      is',
      once',
      in_order-repair k x,
      repair-IsRedBlack k x h even (blacken-IsCalm x calm) around ways rooted,
    )
