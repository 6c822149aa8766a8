-- ===== src/Rbtree/Lent.antt =====
-- The tree that `rb_erase_color` makes is a red-black tree.
use mathlib.Core.Path.{subst}
use fru1t_os.Prelude.{
  ℕ, suc, ◌≡◌, refl, sym, ap, ◌∙◌, Bool, true, false, not, ◌&&◌, inl, inr, Bool-cases,
}
use fru1t_os.Rbtree.{Color, red, black, is_red}
use fru1t_os.Rbtree.Shape.{Shape, leaf, branch, Context, in_left, in_right, plug}
use fru1t_os.Rbtree.Settle.{tone, blacken}
use fru1t_os.Rbtree.Balance.{
  BlackIf, IsCalm, IsEven, IsRedBlack, tone_above, CalmIn, EvenIn, root_or, IsRooted, black_ne_red,
  black_beside, plug-IsCalm, plug-IsEven, tone-blacken, blacken-IsCalm, red_blacken-IsEven,
  blacken-IsEven, not_red, plug-Balanced,
}
use fru1t_os.Rbtree.Added.{tone-plug}
use fru1t_os.Rbtree.Repair.{plain, near_left, near_right, borrow_left, borrow_right}

-- the number of black nodes with a node of that colour on top
abbrev pub raise : Color → ℕ → ℕ
raise red h = h
raise black h = suc h

pub branch-IsEven :
    (c : Color) (h : ℕ) (l : Shape) (p : ℕ) (r : Shape)
    → IsEven h l
    → IsEven h r
    → IsEven (raise c h) (branch l p c r)
branch-IsEven red h l p r x y = (x, y)
branch-IsEven black h l p r x y = (x, y)

pub left-EvenIn :
    (c : Color) (h : ℕ) (k : Context) (p : ℕ) (s : Shape)
    → EvenIn (in_left k p c s) h
    → IsEven h s × EvenIn k (raise c h)
left-EvenIn red h k p s e = e
left-EvenIn black h k p s e = e

pub right-EvenIn :
    (c : Color) (h : ℕ) (k : Context) (p : ℕ) (s : Shape)
    → EvenIn (in_right k s p c) h
    → IsEven h s × EvenIn k (raise c h)
right-EvenIn red h k p s e = e
right-EvenIn black h k p s e = e

-- a black tree of at least one black node on each way down
pub record IsBlackNode (h : ℕ) (l r : Shape) : Type 0 where
  pub even : IsEven h l × IsEven h r
  pub calm : IsCalm l × IsCalm r

-- a tree of one colour less that is calm but for its root
pub blacken_same : (s : Shape) → tone s ≡ black → blacken s ≡ s
blacken_same leaf t = refl
blacken_same (branch l p red r) t = absurd (black_ne_red t)
blacken_same (branch l p black r) t = refl

-- the whole tree with a black root is red and black where the place above is
pub whole-IsRedBlack :
    (k : Context) (s : Shape) (h : ℕ)
    → CalmIn k
    → EvenIn k h
    → IsRooted k
    → IsCalm s
    → IsEven h s
    → tone s ≡ black
    → IsRedBlack (plug k s)
whole-IsRedBlack k s h ck ek r cs es t =
    let (calm, even) = plug-Balanced k s h ck ek cs es t in
    record { root = tone-plug k s ∙ ap (λ c. root_or c k) t ∙ r; calm = calm; even = even }

-- the same with the root of the whole blackened
pub blackened-IsRedBlack :
    (k : Context) (s : Shape) (h : ℕ)
    → CalmIn k
    → EvenIn k h
    → BlackIf (tone_above k) (tone s)
    → IsCalm s
    → IsEven h s
    → IsRedBlack (blacken (plug k s))
blackened-IsRedBlack k s h ck ek join cs es =
    let (g, even) = plug-IsEven k s h ek es in
    record {
      root = tone-blacken (plug k s);
      calm = blacken-IsCalm (plug k s) (plug-IsCalm k s ck cs join);
      even = blacken-IsEven (plug k s) g even;
    }

-- a black sibling with a red child
module _ (x : Shape) (p : ℕ) (c : Color) (h : ℕ) (ex : IsEven h x) (cx : IsCalm x)
    (tx : tone x ≡ black) where
  near_left-Lent :
      (near : Shape) (s : ℕ) (far : Shape)
      → is_red (tone near) ≡ true
      → tone far ≡ black
      → IsEven h near
      → IsEven h far
      → IsCalm near
      → IsCalm far
      → IsCalm (near_left x p c near s far) × IsEven (raise c (suc h)) (near_left x p c near s far)
  near_left-Lent leaf s far t tf en ef cn cf = cc
  near_left-Lent (branch l n black r) s far t tf en ef cn cf = cc
  near_left-Lent (branch l n red r) s far t tf (el, er) ef (tl, tr, cl, cr) cf = (
    (black_beside c, black_beside c, (tt, tt, cx, cl), (tt, tt, cr, cf)),
    branch-IsEven c (suc h) (branch x p black l) n (branch r s black far) (ex, el) (er, ef),
  )

  pub borrow_left-Lent :
      (l : Shape) (s : ℕ) (d : Color) (r : Shape)
      → plain (branch l s d r) ≡ false
      → IsBlackNode h l r
      → IsCalm (borrow_left x p c (branch l s d r))
        × IsEven (raise c (suc h)) (borrow_left x p c (branch l s d r))
  borrow_left-Lent l s d r np v = elim (Bool-cases (is_red (tone r))) [
    | inl t ↦ rw t (
      (
        black_beside c,
        subst (BlackIf c) (sym (tone-blacken r)) (black_beside c),
        (tt, tt, cx, v.calm.0),
        blacken-IsCalm r v.calm.1,
      ),
      branch-IsEven c (suc h) (branch x p black l) s (blacken r) (ex, v.even.0)
          (red_blacken-IsEven r h t v.even.1),
    )
    | inr t ↦
        let near_red : is_red (tone l) ≡ true = one_red (is_red (tone l)) (is_red (tone r)) np t in
        rw t (near_left-Lent l s r near_red (not_red r t) v.even.0 v.even.1 v.calm.0 v.calm.1)
  ]
    where
      one_red : (a b : Bool) → (not a && not b) ≡ false → b ≡ false → a ≡ true
      one_red true b e f = refl
      one_red false true e f = cc
      one_red false false e f = cc

-- a black sibling with a red child
module _ (x : Shape) (p : ℕ) (c : Color) (h : ℕ) (ex : IsEven h x) (cx : IsCalm x)
    (tx : tone x ≡ black) where
  near_right-Lent :
      (near : Shape) (s : ℕ) (far : Shape)
      → is_red (tone near) ≡ true
      → tone far ≡ black
      → IsEven h near
      → IsEven h far
      → IsCalm near
      → IsCalm far
      → IsCalm (near_right x p c near s far)
        × IsEven (raise c (suc h)) (near_right x p c near s far)
  near_right-Lent leaf s far t tf en ef cn cf = cc
  near_right-Lent (branch l n black r) s far t tf en ef cn cf = cc
  near_right-Lent (branch l n red r) s far t tf (el, er) ef (tl, tr, cl, cr) cf = (
    (black_beside c, black_beside c, (tt, tt, cf, cl), (tt, tt, cr, cx)),
    branch-IsEven c (suc h) (branch far s black l) n (branch r p black x) (ef, el) (er, ex),
  )

  pub borrow_right-Lent :
      (l : Shape) (s : ℕ) (d : Color) (r : Shape)
      → plain (branch l s d r) ≡ false
      → IsBlackNode h l r
      → IsCalm (borrow_right x p c (branch l s d r))
        × IsEven (raise c (suc h)) (borrow_right x p c (branch l s d r))
  borrow_right-Lent l s d r np v = elim (Bool-cases (is_red (tone l))) [
    | inl t ↦ rw t (
      (
        subst (BlackIf c) (sym (tone-blacken l)) (black_beside c),
        black_beside c,
        blacken-IsCalm l v.calm.0,
        (tt, tt, v.calm.1, cx),
      ),
      branch-IsEven c (suc h) (blacken l) s (branch r p black x) (red_blacken-IsEven l h t v.even.0)
          (v.even.1, ex),
    )
    | inr t ↦
        let near_red : is_red (tone r) ≡ true = one_red (is_red (tone l)) (is_red (tone r)) np t in
        rw t (near_right-Lent r s l near_red (not_red l t) v.even.1 v.even.0 v.calm.1 v.calm.0)
  ]
    where
      one_red : (a b : Bool) → (not a && not b) ≡ false → a ≡ false → b ≡ true
      one_red true b e f = cc
      one_red false true e f = refl
      one_red false false e f = cc
