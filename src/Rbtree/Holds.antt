-- ===== src/Rbtree/Holds.antt =====
-- A store that holds a tree of different nodes, and what the single steps of `rb_insert_color` leave.
use fru1t_os.Prelude.{
  ℕ, ◌+◌, ◌≤◌, ◌<◌, ◌≡◌, ◌≢◌, refl, ap, ◌∙◌, true, false, ◌==◌, if◌then◌else◌, arith,
}
use fru1t_os.Rbtree.{
  Color, black, RbTree, rb_set_color, rb_parent, rb_color, rb_rotate_left, rb_rotate_right,
}
use fru1t_os.Rbtree.Shape.{
  Shape, leaf, branch, count, IsDistinct, IsTree, Represents, Context, top, in_left, in_right, plug,
  above,
}
use fru1t_os.Rbtree.Place.{
  count_in, count-plug, take_out, put_back, count_root, kept-IsTree, kept-IsContext, counts_itself,
}
use fru1t_os.Rbtree.Rotate.{node_same, node_other, root_same}
use fru1t_os.Rbtree.Turn.{rb_rotate_left_lem}
use fru1t_os.Rbtree.Mirror.{rb_rotate_right_lem}
use fru1t_os.Rbtree.Settle.{tone}
use fru1t_os.Rbtree.Balance.{tone_above}

abbrev pub Holds : RbTree → Shape → Type 0
Holds t s = Represents t s × IsDistinct s

pub same-IsDistinct :
    (k : Context) (s s' : Shape)
    → ((z : ℕ) → count z s' ≡ count z s)
    → IsDistinct (plug k s)
    → IsDistinct (plug k s')
same-IsDistinct k s s' same once z =
    omega (arith, once z, same z, count-plug k z s, count-plug k z s')

-- what the store says of a node in a tree
pub record Facts (t : RbTree) (k : Context) (l : Shape) (x : ℕ) (c : Color) (r : Shape)
    : Type 0 where
  pub place : 0 < x
  pub parent : (t.nodes x).parent ≡ above k
  pub color : (t.nodes x).color ≡ c
  pub left : IsTree t x (t.nodes x).left l
  pub right : IsTree t x (t.nodes x).right r

pub facts :
    (k : Context) (l : Shape) (x : ℕ) (c : Color) (r : Shape) (t : RbTree)
    → Represents t (plug k (branch l x c r))
    → Facts t k l x c r
facts k l x c r t is =
    let (h, around, (at, pos, par, col, left, right)) = take_out k (branch l x c r) t is in
    record { place = pos; parent = par; color = col; left = left; right = right }

-- a pointer that is not to `p`, which does not stand below it
pub misses : (s : Shape) (t : RbTree) (q v p : ℕ) → IsTree t q v s → 0 < p → count p s ≡ 0 → v ≢ p
misses s t q v p is pos none_there e =
    omega (arith, none_there, count_root s t q v (omega arith) is, ap (λ z. count z s) e)

pub rb_color_at :
    (x : ℕ) (c : Color) (t : RbTree) → 0 < x → (t.nodes x).color ≡ c → rb_color x t ≡ c
rb_color_at x c t pos e =
    let there : (x == 0) ≡ false = ground arith in
    ap (λ b. if b then black else (t.nodes x).color) there ∙ e

pub rb_color_null : (x : ℕ) (t : RbTree) → x ≡ 0 → rb_color x t ≡ black
rb_color_null x t e =
    let null : (x == 0) ≡ true = ground arith in
    ap (λ b. if b then black else (t.nodes x).color) null

pub rb_color-tone : (s : Shape) (t : RbTree) (q x : ℕ) → IsTree t q x s → rb_color x t ≡ tone s
rb_color-tone leaf t q x is = rb_color_null x t is
rb_color-tone (branch l a c r) t q x (e, pos, par, col, left, right) =
    ap (λ z. rb_color z t) e ∙ rb_color_at a c t pos col

pub rb_color-tone_above :
    (k : Context) (l : Shape) (x : ℕ) (c : Color) (r : Shape) (t : RbTree)
    → Represents t (plug k (branch l x c r))
    → rb_color (rb_parent x t) t ≡ tone_above k
rb_color-tone_above top l x c r t is = rb_color_null _ t (facts top l x c r t is).parent
rb_color-tone_above (in_left k p d s) l x c r t is =
    let f = facts k (branch l x c r) p d s t is in
    ap (λ z. rb_color z t) (facts (in_left k p d s) l x c r t is).parent
    ∙ rb_color_at p d t f.place f.color
rb_color-tone_above (in_right k s p d) l x c r t is =
    let f = facts k s p d (branch l x c r) t is in
    ap (λ z. rb_color z t) (facts (in_right k s p d) l x c r t is).parent
    ∙ rb_color_at p d t f.place f.color

-- a node gets another colour
pub rb_set_color-Holds :
    (k : Context) (l : Shape) (x : ℕ) (c c' : Color) (r : Shape) (t : RbTree)
    → Holds t (plug k (branch l x c r))
    → Holds (rb_set_color x c' t) (plug k (branch l x c' r))
rb_set_color-Holds k l x c c' r t (is, once) =
    let (h, around, (at, pos, par, col, left, right)) = take_out k (branch l x c r) t is in
    let t' = rb_set_color x c' t in
    let n = node_same x (record (t.nodes x) { color = c' }) t in
    let all : (z : ℕ) → count_in z k + count z (branch l x c r) ≤ 1 =
      λ z. omega (arith, once z, count-plug k z (branch l x c r)) in
    let other : (z : ℕ) → 0 < count_in z k + count z l + count z r → t'.nodes z ≡ t.nodes z =
      λ z more.
        node_other x z _ t (λ e.
          omega (arith, all z, more, counts_itself z, ap (λ p. count z (branch l p c r)) e)) in
    (
      put_back k (branch l x c' r) t' h
          (kept-IsContext k t t' h (λ z more. other z (omega arith)) (root_same x _ t) around)
          (rw n (
            at,
            pos,
            par,
            refl,
            kept-IsTree l t t' x (t.nodes x).left (λ z more. other z (omega arith)) left,
            kept-IsTree r t t' x (t.nodes x).right (λ z more. other z (omega arith)) right,
          )),
      same-IsDistinct k (branch l x c r) (branch l x c' r) (λ z. refl) once,
    )

pub rb_rotate_left-Holds :
    (k : Context) (a : Shape) (x : ℕ) (c : Color) (b : Shape) (y : ℕ) (d : Color) (e : Shape)
    (t : RbTree)
    → Holds t (plug k (branch a x c (branch b y d e)))
    → Holds (rb_rotate_left x t) (plug k (branch (branch a x c b) y d e))
rb_rotate_left-Holds k a x c b y d e t (is, once) =
    let (turned, order, again) = rb_rotate_left_lem k a b e x y c d t is once in (turned, again)

pub rb_rotate_right-Holds :
    (k : Context) (a : Shape) (x : ℕ) (c : Color) (b : Shape) (y : ℕ) (d : Color) (e : Shape)
    (t : RbTree)
    → Holds t (plug k (branch (branch a x c b) y d e))
    → Holds (rb_rotate_right y t) (plug k (branch a x c (branch b y d e)))
rb_rotate_right-Holds k a x c b y d e t (is, once) = (
  rb_rotate_right_lem k a b e x y c d t is once,
  same-IsDistinct k (branch (branch a x c b) y d e) (branch a x c (branch b y d e))
      (λ z. omega arith) once,
)
