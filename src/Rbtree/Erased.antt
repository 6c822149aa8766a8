-- ===== src/Rbtree/Erased.antt =====
-- `rb_erase` of rbtree.c: the node is gone, and the tree is a red-black tree again.
use mathlib.Core.Path.{subst}
use fru1t_os.Prelude.{ℕ, ◌<◌, ◌≡◌, sym, ap, ◌∙◌, List, ◌∷◌, ◌++◌, some, arith, append_assoc}
use fru1t_os.Rbtree.{Color, RbTree, leftmost}
use fru1t_os.Rbtree.Erase.{erase_inner, rb_erase}
use fru1t_os.Rbtree.Shape.{
  Shape, leaf, branch, in_order, count, IsDistinct, Represents, Context, top, in_right, plug,
}
use fru1t_os.Rbtree.Balance.{IsRedBlack}
use fru1t_os.Rbtree.Order.{before, after, in_order-around, append_nil, size}
use fru1t_os.Rbtree.Loop.{depth}
use fru1t_os.Rbtree.Holds.{Holds, facts}
use fru1t_os.Rbtree.Least.{compose, plug-compose, depth-compose, size-plug, least, locate}
use fru1t_os.Rbtree.Removed.{Leaves, erase_no_left, erase_no_right, two_children}
use fru1t_os.Rbtree.Successor.{erase_inner-Leaves}

-- a node with two children
erase_between :
    (fuel : ℕ) (k : Context) (n : ℕ) (c : Color) (a1 : Shape) (p1 : ℕ) (c1 : Color) (a2 b1 : Shape)
    (q : ℕ) (e : Color) (b2 : Shape) (t : RbTree)
    → Holds t (plug k (branch (branch a1 p1 c1 a2) n c (branch b1 q e b2)))
    → IsRedBlack (plug k (branch (branch a1 p1 c1 a2) n c (branch b1 q e b2)))
    → size (plug k (branch (branch a1 p1 c1 a2) n c (branch b1 q e b2))) < fuel
    → Leaves
        (rb_erase fuel n t)
        (before k ++ ((in_order (branch a1 p1 c1 a2) ++ in_order (branch b1 q e b2)) ++ after k))
erase_between fuel k n c a1 p1 c1 a2 b1 q e b2 t (is, once) v h =
    let a = branch a1 p1 c1 a2 in
    let b = branch b1 q e b2 in
    let f = facts k a n c b t is in
    let room = size-plug k (branch a n c b) in
    let (at, pos, par, col, left, right) = f.right in
    let s = least b1 top fuel q e b2 t left (omega (arith, h, room)) in
    let whole : plug (compose (in_right k a n c) s.place) (branch leaf s.m s.d s.y)
        ≡ plug k (branch a n c b) =
      plug-compose (in_right k a n c) s.place (branch leaf s.m s.d s.y)
      ∙ ap (λ x. plug k (branch a n c x)) s.same in
    let found = ap (λ x. leftmost fuel x t) at ∙ s.found in
    let deep : depth (compose (in_right k a s.m c) s.place) < fuel = omega (
      arith,
      h,
      room,
      depth-compose (in_right k a s.m c) s.place,
      size-plug s.place (branch leaf s.m s.d s.y),
      ap size s.same,
    ) in
    let rest = s.m ∷ in_order (plug s.place s.y) in
    let right_order : rest ≡ in_order b =
      ap (λ x. s.m ∷ x) (in_order-around s.place s.y)
      ∙ ap (λ ps. s.m ∷ (ps ++ (in_order s.y ++ after s.place))) s.first
      ∙ ap (λ ps. ps ++ (s.m ∷ (in_order s.y ++ after s.place))) (sym s.first)
      ∙ sym (in_order-around s.place (branch leaf s.m s.d s.y))
      ∙ ap in_order s.same in
    let order : in_order (plug k (branch a s.m c (plug s.place s.y)))
        ≡ before k ++ ((in_order a ++ in_order b) ++ after k) =
      in_order-around k (branch a s.m c (plug s.place s.y))
      ∙ ap (λ ps. before k ++ ((in_order a ++ ps) ++ after k)) right_order in
    subst (λ o. Leaves o (before k ++ ((in_order a ++ in_order b) ++ after k)))
      (sym (
        two_children fuel n t s.m (omega (arith, f.left.0, f.left.1)) (omega (arith, at, pos))
          found))
      (subst (Leaves (erase_inner fuel n s.m t)) order (
        erase_inner-Leaves fuel k a1 p1 c1 a2 n c s.place s.m s.d s.y t
          (subst (Represents t) (sym whole) is) (subst IsDistinct (sym whole) once)
          (subst IsRedBlack (sym whole) v) deep))

erase_at :
    (fuel : ℕ) (k : Context) (l : Shape) (n : ℕ) (c : Color) (r : Shape) (t : RbTree)
    → Holds t (plug k (branch l n c r))
    → IsRedBlack (plug k (branch l n c r))
    → size (plug k (branch l n c r)) < fuel
    → Leaves (rb_erase fuel n t) (before k ++ ((in_order l ++ in_order r) ++ after k))
erase_at fuel k leaf n c r t h v room =
    subst (Leaves (rb_erase fuel n t)) (in_order-around k r)
      (erase_no_left fuel k n c r t h v (omega (arith, room, size-plug k (branch leaf n c r))))
erase_at fuel k (branch a p e b) n c leaf t h v room =
    let x = branch a p e b in
    subst (Leaves (rb_erase fuel n t))
      (in_order-around k x ∙ ap (λ ps. before k ++ (ps ++ after k)) (sym (append_nil (in_order x))))
      (erase_no_right fuel k n c a p e b t h v
        (omega (arith, room, size-plug k (branch x n c leaf))))
erase_at fuel k (branch a p e b) n c (branch a' p' e' b') t h v room =
    erase_between fuel k n c a p e b a' p' e' b' t h v room

-- On a red-black tree of different nodes whose pointers fit, `rb_erase` of one of the nodes, with more fuel
-- than there are nodes, returns. It leaves a red-black tree whose pointers fit, with the other nodes in the
-- same order.
pub rb_erase_lem :
    (fuel n : ℕ) (sh : Shape) (t : RbTree)
    → Represents t sh
    → IsDistinct sh
    → IsRedBlack sh
    → 0 < count n sh
    → size sh < fuel
    → (t' : RbTree) × (s : Shape) × (ps : List ℕ) × (qs : List ℕ) × (rb_erase fuel n t ≡ some t')
      × Represents t' s
      × IsDistinct s
      × IsRedBlack s
      × (in_order sh ≡ ps ++ n ∷ qs)
      × (in_order s ≡ ps ++ qs)
rb_erase_lem fuel n sh t is once v there room =
    let p = locate sh n top there in
    let k = p.place in
    let l = p.l in
    let r = p.r in
    let (t', s, e, is', once', order, v') =
      erase_at fuel k l n p.c r t
        (subst (Represents t) (sym p.same) is, subst IsDistinct (sym p.same) once)
        (subst IsRedBlack (sym p.same) v) (omega (arith, room, ap size p.same)) in
    (
      t',
      s,
      before k ++ in_order l,
      in_order r ++ after k,
      e,
      is',
      once',
      v',
      ap in_order (sym p.same)
          ∙ in_order-around k (branch l n p.c r)
          ∙ ap (λ ps. before k ++ ps) (append_assoc (in_order l) (n ∷ in_order r) (after k))
          ∙ sym (append_assoc (before k) (in_order l) (n ∷ (in_order r ++ after k))),
      order
          ∙ ap (λ ps. before k ++ ps) (append_assoc (in_order l) (in_order r) (after k))
          ∙ sym (append_assoc (before k) (in_order l) (in_order r ++ after k)),
    )
