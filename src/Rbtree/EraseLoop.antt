-- ===== src/Rbtree/EraseLoop.antt =====
-- The loop of `rb_erase_color` of rbtree.c on the pointers, round by round: it makes the tree that `repair`
-- gives.
pub mod Left
pub mod Right
use mathlib.Core.Path.{subst}
use fru1t_os.Prelude.{
  ℕ, zero, suc, ◌<◌, ◌≡◌, refl, sym, ap, ◌∙◌, true, false, not, some, if◌then◌else◌, arith, inl,
  inr, Bool-cases,
}
use fru1t_os.Rbtree.{Color, red, black, is_red, RbTree, rb_set_color, rb_is_black}
use fru1t_os.Rbtree.Erase.{settle_left, settle_right, erase_left, erase_right, erase_loop}
use fru1t_os.Rbtree.Shape.{Shape, leaf, branch, count, Context, in_left, in_right, plug, above}
use fru1t_os.Rbtree.Place.{count-plug, count_root}
use fru1t_os.Rbtree.Settle.{tone, blacken}
use fru1t_os.Rbtree.Balance.{IsCalm, IsEven, black_ne_red}
use fru1t_os.Rbtree.Repair.{
  redden, plain, borrow_left, borrow_right, turn_up_left, turn_up_right, repair,
}
use fru1t_os.Rbtree.Holds.{Holds, facts, misses, rb_color-tone, rb_color_at}
use fru1t_os.Rbtree.Close.{
  pointer, pointer_lem, root_Below, closed_by, closed_at, closed_root, on_with, ends_red,
  round_left, round_right,
}

-- the loop ends with a node and a store that, with the node painted black, holds the tree `s`
abbrev pub Closes : (fuel n q : ℕ) → RbTree → Shape → Type 0
Closes fuel n q t s =
    (m : ℕ) × (t' : RbTree) × (erase_loop fuel n q t ≡ some (m, t')) × Holds (closed_by m t') s

pub Closes-same :
    (fuel n q : ℕ) (t : RbTree) {s s' : Shape} → s ≡ s' → Closes fuel n q t s → Closes fuel n q t s'
Closes-same fuel n q t e = subst (Closes fuel n q t) e

pub red_ends :
    (fuel : ℕ) (k : Context) (l : Shape) (p : ℕ) (r : Shape) (q : ℕ) (t : RbTree)
    → Holds t (plug k (branch l p red r))
    → 0 < fuel
    → erase_loop fuel p q t ≡ some (p, t)
red_ends zero k l p r q t h more = absurd (omega arith)
red_ends (suc fuel) k l p r q t h more =
    let f = facts k l p red r t h.0 in
    ends_red fuel p q t (ap (λ z. not (is_red z)) (rb_color_at p red t f.place f.color))
