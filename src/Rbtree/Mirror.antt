-- ===== src/Rbtree/Mirror.antt =====
-- The right rotation of rbtree.c is the left one in the mirror.
use mathlib.Core.Path.{fun_ext, subst}
use fru1t_os.Prelude.{
  inl, inr, ℕ, ◌≡◌, refl, sym, ap, ◌∙◌, Bool, true, false, ◌==◌, if◌then◌else◌, arith, Bool-cases,
}
use fru1t_os.Rbtree.Turn.{rb_rotate_left_lem}
use fru1t_os.Rbtree.{
  Color, RbNode, RbTree, set_node, set_left, set_right, rb_set_parent, replace_child,
  replace_right_first, adopt, rb_rotate_left, rb_rotate_right,
}
use fru1t_os.Rbtree.Shape.{
  Shape, leaf, branch, in_order, count, IsDistinct, IsTree, Represents, Context, top, in_left,
  in_right, plug,
}

abbrev pub mirror_node : RbNode → RbNode
mirror_node n = record { parent = n.parent; left = n.right; right = n.left; color = n.color }

abbrev pub mirror : RbTree → RbTree
mirror t = record { rb_node = t.rb_node; nodes = λ p. mirror_node (t.nodes p) }

mirror_if :
    (b : Bool) (n m : RbNode)
    → mirror_node (if b then n else m) ≡ (if b then mirror_node n else mirror_node m)
mirror_if true n m = refl
mirror_if false n m = refl

mirror-set_node :
    (p : ℕ) (n : RbNode) (t : RbTree)
    → mirror (set_node p n t) ≡ set_node p (mirror_node n) (mirror t)
unfolding set_node
mirror-set_node p n t =
    ap (λ (f : ℕ → RbNode). record { rb_node = t.rb_node; nodes = f })
      (fun_ext (λ q. mirror_if (q == p) n (t.nodes q)))

mirror-adopt : (p q : ℕ) (t : RbTree) → mirror (adopt p q t) ≡ adopt p q (mirror t)
unfolding adopt
mirror-adopt p q t = elim (Bool-cases (p == 0)) [
  | inl e ↦ rw e refl
  | inr e ↦ rw e (mirror-set_node p _ t)
]

mirror-replace_child :
    (q old new : ℕ) (t : RbTree)
    → mirror (replace_child q old new t) ≡ replace_right_first q old new (mirror t)
unfolding replace_child replace_right_first
mirror-replace_child q old new t = elim (Bool-cases (q == 0)) [
  | inl e ↦ rw e refl
  | inr e ↦ elim (Bool-cases (old == (t.nodes q).left)) [
    | inl l ↦ rw (e, l) (mirror-set_node q _ t)
    | inr l ↦ rw (e, l) (mirror-set_node q _ t)
  ]
]

-- the step of a rotation, from the tree behind the first write on
abbrev rest_left : (node right parent : ℕ) → RbTree → RbTree
rest_left node right parent t1 = rb_set_parent node right (
    replace_child parent node right
      (rb_set_parent right parent (set_left right node (adopt (t1.nodes right).left node t1))))

abbrev rest_right : (node left parent : ℕ) → RbTree → RbTree
rest_right node left parent t1 = rb_set_parent node left (
    replace_right_first parent node left
      (rb_set_parent left parent (set_right left node (adopt (t1.nodes left).right node t1))))

mirror-rest : (x y q : ℕ) (t : RbTree) → mirror (rest_left x y q t) ≡ rest_right x y q (mirror t)
mirror-rest x y q t =
    let adopted = mirror-adopt (t.nodes y).left x t in
    let crowned = mirror-set_node y _ (adopt (t.nodes y).left x t) ∙ ap (set_right y x) adopted in
    let raised =
      mirror-set_node y _ (set_left y x (adopt (t.nodes y).left x t))
      ∙ ap (rb_set_parent y q) crowned in
    let placed =
      mirror-replace_child q x y (rb_set_parent y q (set_left y x (adopt (t.nodes y).left x t)))
      ∙ ap (replace_right_first q x y) raised in
    mirror-set_node x _ _ ∙ ap (rb_set_parent x y) placed

pub mirror-rb_rotate_left :
    (x : ℕ) (t : RbTree) → mirror (rb_rotate_left x t) ≡ rb_rotate_right x (mirror t)
unfolding rb_rotate_left rb_rotate_right
mirror-rb_rotate_left x t =
    mirror-rest x (t.nodes x).right (t.nodes x).parent
      (set_right x (t.nodes (t.nodes x).right).left t)
    ∙ ap (rest_right x (t.nodes x).right (t.nodes x).parent) (mirror-set_node x _ t)

abbrev flip : Shape → Shape
flip leaf = leaf
flip (branch l p c r) = branch (flip r) p c (flip l)

abbrev flip_context : Context → Context
flip_context top = top
flip_context (in_left k p c r) = in_right (flip_context k) (flip r) p c
flip_context (in_right k l p c) = in_left (flip_context k) p c (flip l)

flip-plug : (k : Context) (s : Shape) → flip (plug k s) ≡ plug (flip_context k) (flip s)
flip-plug top s = refl
flip-plug (in_left k p c r) s = flip-plug k (branch s p c r)
flip-plug (in_right k l p c) s = flip-plug k (branch l p c s)

flip-flip : (s : Shape) → flip (flip s) ≡ s
flip-flip leaf = refl
flip-flip (branch l p c r) = rw (flip-flip l, flip-flip r) refl

count-flip : (z : ℕ) (s : Shape) → count z (flip s) ≡ count z s
count-flip z leaf = refl
count-flip z (branch l p c r) = omega (arith, count-flip z l, count-flip z r)

mirror-IsTree : (s : Shape) (t : RbTree) (q p : ℕ) → IsTree t q p s → IsTree (mirror t) q p (flip s)
mirror-IsTree leaf t q p is = is
mirror-IsTree (branch l a c r) t q p (e, pos, par, col, left, right) = (
  e,
  pos,
  par,
  col,
  mirror-IsTree r t a (t.nodes a).right right,
  mirror-IsTree l t a (t.nodes a).left left,
)

-- the tree behind a right rotation of the node `y` with the left child `x`
pub rb_rotate_right_lem :
    (k : Context) (a b e : Shape) (x y : ℕ) (c d : Color) (t : RbTree)
    → Represents t (plug k (branch (branch a x c b) y d e))
    → IsDistinct (plug k (branch (branch a x c b) y d e))
    → Represents (rb_rotate_right y t) (plug k (branch a x c (branch b y d e)))
rb_rotate_right_lem k a b e x y c d t is distinct =
    let old = branch (branch a x c b) y d e in
    let new = branch a x c (branch b y d e) in
    let flipped : Represents (mirror t) (plug (flip_context k) (flip old)) =
      subst (Represents (mirror t)) (flip-plug k old)
        (mirror-IsTree (plug k old) t 0 t.rb_node is) in
    let once : IsDistinct (plug (flip_context k) (flip old)) =
      subst IsDistinct (flip-plug k old)
        (λ z. omega (arith, distinct z, count-flip z (plug k old))) in
    let (turned, order, again) =
      rb_rotate_left_lem (flip_context k) (flip e) (flip b) (flip a) y x d c (mirror t) flipped
        once in
    let back =
      mirror-IsTree (plug (flip_context k) (flip new)) (rb_rotate_left y (mirror t)) 0
        (rb_rotate_left y (mirror t)).rb_node turned in
    subst (λ s. Represents s (plug k new)) (mirror-rb_rotate_left y (mirror t))
      (subst (Represents (mirror (rb_rotate_left y (mirror t))))
        (ap flip (sym (flip-plug k new)) ∙ flip-flip (plug k new)) back)

-- A left rotation of a node `x` with the right child `y`, anywhere in a tree whose nodes are all
-- different, puts `y` in the place of `x`, with `x` as its left child: pointers down and up, colours and
-- the root fit the new tree, whose nodes stand in the same order and are all different again. A right
-- rotation of `y` then gives the first tree back.
pub rotations_lem :
    (k : Context) (a b e : Shape) (x y : ℕ) (c d : Color) (t : RbTree)
    → Represents t (plug k (branch a x c (branch b y d e)))
    → IsDistinct (plug k (branch a x c (branch b y d e)))
    → Represents (rb_rotate_left x t) (plug k (branch (branch a x c b) y d e))
      × (in_order (plug k (branch (branch a x c b) y d e))
          ≡ in_order (plug k (branch a x c (branch b y d e))))
      × IsDistinct (plug k (branch (branch a x c b) y d e))
      × Represents (rb_rotate_right y (rb_rotate_left x t)) (plug k (branch a x c (branch b y d e)))
rotations_lem k a b e x y c d t is distinct =
    let (turned, order, once) = rb_rotate_left_lem k a b e x y c d t is distinct in
    (turned, order, once, rb_rotate_right_lem k a b e x y c d (rb_rotate_left x t) turned once)
