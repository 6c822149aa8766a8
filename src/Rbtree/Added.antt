-- ===== src/Rbtree/Added.antt =====
-- A node that is hung into a red-black tree and settled by `rb_insert_color`.
use native.Mathlib.Decide.{ℕ_discrete}
use fru1t_os.Prelude.{
  ℕ, zero, suc, ◌≤◌, ◌<◌, ◌≡◌, refl, sym, ap, ◌∙◌, Bool, ◌==◌, some, if◌then◌else◌, arith,
}
use fru1t_os.Rbtree.{red, black, RbTree, hang, rb_insert_color}
use fru1t_os.Rbtree.Shape.{
  Shape, leaf, branch, in_order, count, IsDistinct, Represents, Context, top, in_left, in_right,
  plug, above,
}
use fru1t_os.Rbtree.Place.{count-plug, IsContext, take_out, put_back}
use fru1t_os.Rbtree.Settle.{tone, blacken, settle, in_order-blacken, in_order-settle}
use fru1t_os.Rbtree.Balance.{
  BlackIf, BlackIf-sym, IsCalm, IsEven, IsRedBlack, tone_above, CalmIn, EvenIn, root_or, IsRooted,
}
use fru1t_os.Rbtree.Settled.{settle-IsRedBlack}
use fru1t_os.Rbtree.Holds.{Holds}
use fru1t_os.Rbtree.Hang.{
  IsSide, Hung, hang_top, hang_left, hang_right, hang_below_left, hang_below_right,
}
use fru1t_os.Rbtree.Loop.{depth, rb_insert_color-settle}

hang-Hung :
    (p : ℕ) (k : Context) (b : Bool) (t : RbTree)
    → Holds t (plug k leaf)
    → count p (plug k leaf) ≡ 0
    → IsSide k b
    → Hung p k t (hang p (above k) b t)
hang-Hung p top b t h fresh side = hang_top p t b
hang-Hung p (in_left k q c s) b t h fresh side =
    let (hole, (pos, par, col, left, right, around), null) =
      take_out (in_left k q c s) leaf t h.0 in
    rw (side, hang_left p q t pos)
      (hang_below_left p t k q c s pos (omega (arith, fresh, count-plug (in_left k q c s) p leaf))
        (λ z. omega (arith, h.1 z, count-plug (in_left k q c s) z leaf)))
hang-Hung p (in_right k s q c) b t h fresh side =
    let (hole, (pos, par, col, left, right, around), null) =
      take_out (in_right k s q c) leaf t h.0 in
    rw (side, hang_right p q t pos)
      (hang_below_right p t k q c s pos (omega (arith, fresh, count-plug (in_right k s q c) p leaf))
        (λ z. omega (arith, h.1 z, count-plug (in_right k s q c) z leaf)))

hung-IsDistinct :
    (p : ℕ) (k : Context)
    → count p (plug k leaf) ≡ 0
    → IsDistinct (plug k leaf)
    → IsDistinct (plug k (branch leaf p red leaf))
hung-IsDistinct p k fresh once z = elim (ℕ_discrete p z) [
  | yes e ↦
      let none_there : count z (plug k leaf) ≡ 0 =
        ap (λ x. count x (plug k leaf)) (sym e) ∙ fresh in
      let one : (if p == z then 1 else 0) ≤ 1 = ground arith in
      omega (arith, none_there, one, count-plug k z leaf, count-plug k z (branch leaf p red leaf))
  | no ne ↦
      let zero_there : ◌≡◌ {A = ℕ} (if p == z then 1 else 0) 0 = ground arith in
      omega
        (arith, once z, zero_there, count-plug k z leaf, count-plug k z (branch leaf p red leaf))
]

pub hang-Holds :
    (p : ℕ) (k : Context) (b : Bool) (t : RbTree)
    → Holds t (plug k leaf)
    → 0 < p
    → count p (plug k leaf) ≡ 0
    → IsSide k b
    → Holds (hang p (above k) b t) (plug k (branch leaf p red leaf))
hang-Holds p k b t h pos fresh side =
    let t' = hang p (above k) b t in
    let v = hang-Hung p k b t h fresh side in
    let (hole, around, null) = take_out k leaf t h.0 in
    let around_null : IsContext t k 0 = rw (← null) around in
    (
      put_back k (branch leaf p red leaf) t' p (v.around around_null)
          (rw v.fresh (refl, pos, refl, refl, refl, refl)),
      hung-IsDistinct p k fresh h.1,
    )

-- the colours around a place of a tree

pub unplug-CalmIn :
    (k : Context) (s : Shape)
    → IsCalm (plug k s)
    → CalmIn k × IsCalm s × BlackIf (tone_above k) (tone s)
unplug-CalmIn top s calm = (tt, calm, tt)
unplug-CalmIn (in_left k p c r) s calm =
    let (around, (x, y, left, right), up) = unplug-CalmIn k (branch s p c r) calm in
    ((y, right, BlackIf-sym (tone_above k) c up, around), left, x)
unplug-CalmIn (in_right k l p c) s calm =
    let (around, (x, y, left, right), up) = unplug-CalmIn k (branch l p c s) calm in
    ((x, left, BlackIf-sym (tone_above k) c up, around), right, y)

pub unplug-EvenIn :
    (k : Context) (s : Shape) (g : ℕ) → IsEven g (plug k s) → (h : ℕ) × EvenIn k h × IsEven h s
unplug-EvenIn top s g even = (g, tt, even)
unplug-EvenIn (in_left k p red r) s g even =
    let (h, around, (left, right)) = unplug-EvenIn k (branch s p red r) g even in
    (h, (right, around), left)
unplug-EvenIn (in_left k p black r) s g even =
    let (h, around, below) = unplug-EvenIn k (branch s p black r) g even in
    below_black h around below
  where
    below_black :
        (h : ℕ)
        → EvenIn k h
        → IsEven h (branch s p black r)
        → (i : ℕ) × EvenIn (in_left k p black r) i × IsEven i s
    below_black zero around below = absurd below
    below_black (suc i) around below = (i, (below.1, around), below.0)
unplug-EvenIn (in_right k l p red) s g even =
    let (h, around, (left, right)) = unplug-EvenIn k (branch l p red s) g even in
    (h, (left, around), right)
unplug-EvenIn (in_right k l p black) s g even =
    let (h, around, below) = unplug-EvenIn k (branch l p black s) g even in
    below_black h around below
  where
    below_black :
        (h : ℕ)
        → EvenIn k h
        → IsEven h (branch l p black s)
        → (i : ℕ) × EvenIn (in_right k l p black) i × IsEven i s
    below_black zero around below = absurd below
    below_black (suc i) around below = (i, (below.0, around), below.1)

pub tone-plug : (k : Context) (s : Shape) → tone (plug k s) ≡ root_or (tone s) k
tone-plug top s = refl
tone-plug (in_left k p c r) s = tone-plug k (branch s p c r)
tone-plug (in_right k l p c) s = tone-plug k (branch l p c s)

-- A node that is not in a red-black tree of different nodes, hung below any place of it and given to
-- `rb_insert_color` with more fuel than the place is deep: the loop ends, and leaves a red-black tree whose
-- pointers fit, with the same nodes in the same order and the new one at its place.
pub rb_insert_color_lem :
    (fuel p : ℕ) (k : Context) (b : Bool) (t : RbTree)
    → Represents t (plug k leaf)
    → IsDistinct (plug k leaf)
    → IsRedBlack (plug k leaf)
    → 0 < p
    → count p (plug k leaf) ≡ 0
    → IsSide k b
    → depth k < fuel
    → (t' : RbTree) × (s : Shape) × (rb_insert_color fuel p (hang p (above k) b t) ≡ some t')
      × Represents t' s
      × IsDistinct s
      × (in_order s ≡ in_order (plug k (branch leaf p red leaf)))
      × IsRedBlack s
rb_insert_color_lem fuel p k b t is once v pos fresh side d =
    let (around, leaf_calm, up) = unplug-CalmIn k leaf v.calm in
    let (h, even, at_leaf) = unplug-EvenIn k leaf v.even.0 v.even.1 in
    let rooted : IsRooted k = sym (tone-plug k leaf) ∙ v.root in
    let (t', e, (is', once')) =
      rb_insert_color-settle k leaf p leaf fuel (hang p (above k) b t)
        (hang-Holds p k b t (is, once) pos fresh side) rooted d in
    (
      t',
      blacken (settle k leaf p leaf),
      e,
      is',
      once',
      in_order-blacken (settle k leaf p leaf) ∙ in_order-settle k leaf p leaf,
      settle-IsRedBlack k leaf p leaf h
          (record { tones = (refl, refl); calm = (tt, tt); even = (at_leaf, at_leaf) }) around even
          rooted,
    )
