-- ===== src/Rbtree/Removed.antt =====
-- A node with one child at most that `rb_erase` of rbtree.c removes, and the colours behind it.
use mathlib.Core.Path.{subst}
use fru1t_os.Prelude.{
  ℕ, zero, suc, ◌+◌, ◌≤◌, ◌<◌, ◌≡◌, refl, sym, ap, ◌∙◌, true, false, ◌==◌, List, Option, none, some,
  if◌then◌else◌, arith,
}
use fru1t_os.Rbtree.{Color, red, black, RbTree, rb_parent, rb_color, leftmost}
use fru1t_os.Rbtree.Erase.{unlink, color_fixup, erase_inner, rb_erase}
use fru1t_os.Rbtree.Shape.{
  Shape, leaf, branch, in_order, count, IsDistinct, IsTree, Represents, Context, plug, above,
}
use fru1t_os.Rbtree.Place.{count-plug, IsContext, take_out}
use fru1t_os.Rbtree.Settle.{tone}
use fru1t_os.Rbtree.Balance.{BlackIf, IsCalm, IsEven, IsRedBlack, CalmIn, EvenIn, root_or}
use fru1t_os.Rbtree.Lent.{raise, whole-IsRedBlack}
use fru1t_os.Rbtree.Loop.{depth, IsRooted-below}
use fru1t_os.Rbtree.Added.{unplug-CalmIn, unplug-EvenIn, tone-plug}
use fru1t_os.Rbtree.Holds.{Holds, Facts, facts, rb_color_at}
use fru1t_os.Rbtree.Close.{pointer, pointer_lem}
use fru1t_os.Rbtree.Mended.{rb_erase_color_lem}
use fru1t_os.Rbtree.Unlink.{unlink-Unlinked}

-- a result with a red-black tree of these nodes
abbrev pub Leaves : Option RbTree → List ℕ → Type 0
Leaves o ps =
    (t' : RbTree) × (s : Shape) × (o ≡ some t')
    × Represents t' s
    × IsDistinct s
    × (in_order s ≡ ps)
    × IsRedBlack s

-- the colours around a place that has lost a node of the colour `c`, and of the tree there
pub record Lacks (k : Context) (c : Color) (x : Shape) : Type 0 where
  pub h : ℕ
  pub even : IsEven h x
  pub calm : IsCalm x
  pub join : BlackIf c (tone x)
  pub around : CalmIn k
  pub ways : EvenIn k (raise c h)
  pub root : root_or c k ≡ black

pub color_fixup-Leaves :
    (fuel : ℕ) (k : Context) (c : Color) (x : Shape) (t : RbTree)
    → Holds t (plug k x)
    → Lacks k c x
    → depth k < fuel
    → Leaves (color_fixup fuel c (pointer x) (above k) t) (in_order (plug k x))
unfolding color_fixup
color_fixup-Leaves fuel k red x t (is, once) v d = (
  t,
  plug k x,
  refl,
  is,
  once,
  refl,
  whole-IsRedBlack k x v.h v.around v.ways (IsRooted-below red k v.root) v.calm v.even v.join,
)
color_fixup-Leaves fuel k black x t (is, once) v d =
    rb_erase_color_lem fuel k x v.h t is once v.even v.calm v.around v.ways
      (IsRooted-below black k v.root) d

split-IsEven :
    (c : Color) (g : ℕ) (l : Shape) (n : ℕ) (r : Shape)
    → IsEven g (branch l n c r)
    → (h : ℕ) × (g ≡ raise c h) × IsEven h l × IsEven h r
split-IsEven red g l n r e = (g, refl, e.0, e.1)
split-IsEven black zero l n r e = absurd e
split-IsEven black (suc g) l n r e = (g, refl, e.0, e.1)

-- the colours of a red-black tree at a node that is lost
pub Lacks-right :
    (k : Context) (l : Shape) (n : ℕ) (c : Color) (r : Shape)
    → IsRedBlack (plug k (branch l n c r))
    → Lacks k c r
Lacks-right k l n c r v =
    let (around, (x, y, left, right), up) = unplug-CalmIn k (branch l n c r) v.calm in
    let (g, ways, even) = unplug-EvenIn k (branch l n c r) v.even.0 v.even.1 in
    let (h, e, el, er) = split-IsEven c g l n r even in
    record {
      h = h;
      even = er;
      calm = right;
      join = y;
      around = around;
      ways = subst (EvenIn k) e ways;
      root = sym (tone-plug k (branch l n c r)) ∙ v.root;
    }

pub Lacks-left :
    (k : Context) (l : Shape) (n : ℕ) (c : Color) (r : Shape)
    → IsRedBlack (plug k (branch l n c r))
    → Lacks k c l
Lacks-left k l n c r v =
    let (around, (x, y, left, right), up) = unplug-CalmIn k (branch l n c r) v.calm in
    let (g, ways, even) = unplug-EvenIn k (branch l n c r) v.even.0 v.even.1 in
    let (h, e, el, er) = split-IsEven c g l n r even in
    record {
      h = h;
      even = el;
      calm = left;
      join = x;
      around = around;
      ways = subst (EvenIn k) e ways;
      root = sym (tone-plug k (branch l n c r)) ∙ v.root;
    }

pub around_at :
    (k : Context) (l : Shape) (n : ℕ) (c : Color) (r : Shape) (t : RbTree)
    → Represents t (plug k (branch l n c r))
    → IsContext t k n
around_at k l n c r t is =
    let (h, around, (same, pos, par, col, left, right)) = take_out k (branch l n c r) t is in
    subst (IsContext t k) same around

-- the node `n` gives its place to the tree `x` at `v`
pub unlinked-Leaves :
    (fuel : ℕ) (k : Context) (n v : ℕ) (c : Color) (x l r : Shape) (t : RbTree)
    → Facts t k l n c r
    → IsContext t k n
    → IsTree t n v x
    → ((z : ℕ) → count z (plug k (branch l n c r)) ≤ 1)
    → ((z : ℕ) → count z l + count z r ≡ count z x)
    → Lacks k c x
    → depth k < fuel
    → Leaves
        (color_fixup fuel (rb_color n t) v (rb_parent n t) (unlink n v t))
        (in_order (plug k x))
unlinked-Leaves fuel k n v c x l r t f around is once only lacks d =
    let u =
      unlink-Unlinked k n v x t f.place f.parent around is
        (λ z. omega (arith, once z, count-plug k z (branch l n c r), only z)) in
    let same : color_fixup fuel c (pointer x) (above k) (unlink n v t)
        ≡ color_fixup fuel (rb_color n t) v (rb_parent n t) (unlink n v t) =
      ap (λ q. color_fixup fuel q (pointer x) (above k) (unlink n v t))
        (sym (rb_color_at n c t f.place f.color))
      ∙ ap (λ z. color_fixup fuel (rb_color n t) z (above k) (unlink n v t))
          (sym (pointer_lem x t n v is))
      ∙ ap (λ q. color_fixup fuel (rb_color n t) v q (unlink n v t)) (sym f.parent) in
    subst (λ o. Leaves o (in_order (plug k x))) same
      (color_fixup-Leaves fuel k c x (unlink n v t) u.holds lacks d)

module _ (fuel n : ℕ) (t : RbTree) where
  abbrev both : Option RbTree
  both = elim (leftmost fuel (t.nodes n).right t) [ none ↦ none | some s ↦ erase_inner fuel n s t ]

  abbrev by_left : Option RbTree
  by_left =
      color_fixup fuel (rb_color n t) (t.nodes n).left (rb_parent n t) (unlink n (t.nodes n).left t)

  abbrev by_right : Option RbTree
  by_right =
      color_fixup fuel (rb_color n t) (t.nodes n).right (rb_parent n t)
        (unlink n (t.nodes n).right t)

  pub no_left : (t.nodes n).left ≡ 0 → rb_erase fuel n t ≡ by_right
  unfolding rb_erase
  no_left e =
      let null : ((t.nodes n).left == 0) ≡ true = ground arith in
      ap (λ b. if b then by_right else if (t.nodes n).right == 0 then by_left else both) null

  pub no_right : 0 < (t.nodes n).left → (t.nodes n).right ≡ 0 → rb_erase fuel n t ≡ by_left
  unfolding rb_erase
  no_right pos e =
      let there : ((t.nodes n).left == 0) ≡ false = ground arith in
      let null : ((t.nodes n).right == 0) ≡ true = ground arith in
      ap (λ b. if b then by_right else if (t.nodes n).right == 0 then by_left else both) there
      ∙ ap (λ b. if b then by_left else both) null

  pub two_children :
      (m : ℕ)
      → 0 < (t.nodes n).left
      → 0 < (t.nodes n).right
      → leftmost fuel (t.nodes n).right t ≡ some m
      → rb_erase fuel n t ≡ erase_inner fuel n m t
  unfolding rb_erase
  two_children m pos more e =
      let there : ((t.nodes n).left == 0) ≡ false = ground arith in
      let there' : ((t.nodes n).right == 0) ≡ false = ground arith in
      ap (λ b. if b then by_right else if (t.nodes n).right == 0 then by_left else both) there
      ∙ ap (λ b. if b then by_left else both) there'
      ∙ ap (λ (o : Option ℕ). elim o [ none ↦ none | some s ↦ erase_inner fuel n s t ]) e

-- a node without a left child
pub erase_no_left :
    (fuel : ℕ) (k : Context) (n : ℕ) (c : Color) (x : Shape) (t : RbTree)
    → Holds t (plug k (branch leaf n c x))
    → IsRedBlack (plug k (branch leaf n c x))
    → depth k < fuel
    → Leaves (rb_erase fuel n t) (in_order (plug k x))
erase_no_left fuel k n c x t (is, once) v d =
    let f = facts k leaf n c x t is in
    subst (λ o. Leaves o (in_order (plug k x))) (sym (no_left fuel n t f.left))
      (unlinked-Leaves fuel k n (t.nodes n).right c x leaf x t f (around_at k leaf n c x t is)
        f.right once (λ z. omega arith) (Lacks-right k leaf n c x v) d)

-- a node with a left child only
pub erase_no_right :
    (fuel : ℕ) (k : Context) (n : ℕ) (c : Color) (a : Shape) (p : ℕ) (e : Color) (b : Shape)
    (t : RbTree)
    → Holds t (plug k (branch (branch a p e b) n c leaf))
    → IsRedBlack (plug k (branch (branch a p e b) n c leaf))
    → depth k < fuel
    → Leaves (rb_erase fuel n t) (in_order (plug k (branch a p e b)))
erase_no_right fuel k n c a p e b t (is, once) v d =
    let x = branch a p e b in
    let f = facts k x n c leaf t is in
    let there : 0 < (t.nodes n).left = omega (arith, f.left.0, f.left.1) in
    subst (λ o. Leaves o (in_order (plug k x))) (sym (no_right fuel n t there f.right))
      (unlinked-Leaves fuel k n (t.nodes n).left c x x leaf t f (around_at k x n c leaf t is) f.left
        once (λ z. omega arith) (Lacks-left k x n c leaf v) d)
