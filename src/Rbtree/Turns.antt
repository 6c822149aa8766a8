-- ===== src/Rbtree/Turns.antt =====
-- One round of the loop of `rb_erase_color` of rbtree.c on the pointers: the lift of a red sibling, and
-- what is done with a black one.
pub mod Left
pub mod Right
use mathlib.Core.Path.{subst}
use fru1t_os.Prelude.{ℕ, ◌≡◌, refl, sym, ap, ◌∙◌, Bool, true, false, not, ◌&&◌, if◌then◌else◌}
use fru1t_os.Rbtree.{
  Color, red, black, is_red, RbTree, rb_set_color, rb_color, rb_is_black, rb_rotate_left,
  rb_rotate_right,
}
use fru1t_os.Rbtree.Erase.{is_plain, settle_left, settle_right}
use fru1t_os.Rbtree.Shape.{Shape, branch, Context, in_left, in_right, plug}
use fru1t_os.Rbtree.Settle.{tone}
use fru1t_os.Rbtree.Repair.{plain}
use fru1t_os.Rbtree.Holds.{
  Holds, Facts, facts, rb_color-tone, rb_color_at, rb_set_color-Holds, rb_rotate_left-Holds,
  rb_rotate_right-Holds,
}

pub twice : (b : Bool) → not (not b) ≡ b
twice true = refl
twice false = refl
