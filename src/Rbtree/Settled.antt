-- ===== src/Rbtree/Settled.antt =====
-- The tree that `rb_insert_color` makes of a red-black tree with a new red node is a red-black tree again.
use fru1t_os.Prelude.{ℕ, suc, ◌≡◌, refl, inl, inr, Bool-cases}
use fru1t_os.Rbtree.{red, black, is_red}
use fru1t_os.Rbtree.Shape.{Shape, branch, Context, top, in_left, in_right}
use fru1t_os.Rbtree.Settle.{tone, blacken, settle}
use fru1t_os.Rbtree.Balance.{
  IsCalm, IsEven, IsRedBlack, CalmIn, EvenIn, IsRooted, IsNode, Balanced, black_ne_red,
  plug-Balanced, tone-blacken, blacken-IsCalm, red_blacken-IsEven, blacken-IsEven, not_red,
}

-- the node as a tree
module _ {h : ℕ} {a b : Shape} (v : IsNode h a b) (n : ℕ) where
  node-IsCalm : IsCalm (branch a n red b)
  node-IsCalm = (v.tones.0, v.tones.1, v.calm.0, v.calm.1)

  node-IsEven : IsEven h (branch a n red b)
  node-IsEven = v.even

settle-Balanced :
    (k : Context) (a : Shape) (n : ℕ) (b : Shape) (h : ℕ)
    → IsNode h a b
    → CalmIn k
    → EvenIn k h
    → IsRooted k
    → Balanced (settle k a n b)
unfolding settle
settle-Balanced top a n b h v calm even r = (node-IsCalm v n, (h, node-IsEven v n))
settle-Balanced (in_left k p black s) a n b h v (x, cs, y, ck) (es, ek) r =
    plug-Balanced k (branch (branch a n red b) p black s) (suc h) ck ek
      (tt, tt, node-IsCalm v n, cs) (node-IsEven v n, es) refl
settle-Balanced (in_right k s p black) a n b h v (x, cs, y, ck) (es, ek) r =
    plug-Balanced k (branch s p black (branch a n red b)) (suc h) ck ek
      (tt, tt, cs, node-IsCalm v n) (es, node-IsEven v n) refl
settle-Balanced (in_left top p red s) a n b h v calm even r = absurd (black_ne_red r)
settle-Balanced (in_right top s p red) a n b h v calm even r = absurd (black_ne_red r)
settle-Balanced (in_left (in_left k g red u) p red s) a n b h v (x, cs, y, around) even r =
    absurd (black_ne_red y)
settle-Balanced (in_left (in_left k g black u) p red s) a n b h v (ts, cs, y, (z, cu, w, ck))
      (es, (eu, ek)) r =
    elim (Bool-cases (is_red (tone u))) [
      | inl t ↦ rw t (
          settle-Balanced k (branch (branch a n red b) p black s) g (blacken u) (suc h)
            (record {
              tones = (refl, tone-blacken u);
              calm = ((tt, tt, node-IsCalm v n, cs), blacken-IsCalm u cu);
              even = ((node-IsEven v n, es), red_blacken-IsEven u h t eu);
            })
            ck ek r)
      | inr t ↦
          let tu : tone u ≡ black = not_red u t in
          rw t (
            plug-Balanced k (branch (branch a n red b) p black (branch s g red u)) (suc h) ck ek
              (tt, tt, node-IsCalm v n, (ts, tu, cs, cu)) (node-IsEven v n, (es, eu)) refl)
    ]
settle-Balanced (in_right (in_left k g red u) s p red) a n b h v (x, cs, y, around) even r =
    absurd (black_ne_red y)
settle-Balanced (in_right (in_left k g black u) s p red) a n b h v (ts, cs, y, (z, cu, w, ck))
      (es, (eu, ek)) r =
    elim (Bool-cases (is_red (tone u))) [
      | inl t ↦ rw t (
          settle-Balanced k (branch s p black (branch a n red b)) g (blacken u) (suc h)
            (record {
              tones = (refl, tone-blacken u);
              calm = ((tt, tt, cs, node-IsCalm v n), blacken-IsCalm u cu);
              even = ((es, node-IsEven v n), red_blacken-IsEven u h t eu);
            })
            ck ek r)
      | inr t ↦
          let tu : tone u ≡ black = not_red u t in
          rw t (
            plug-Balanced k (branch (branch s p red a) n black (branch b g red u)) (suc h) ck ek
              (tt, tt, (ts, v.tones.0, cs, v.calm.0), (v.tones.1, tu, v.calm.1, cu))
              ((es, v.even.0), (v.even.1, eu)) refl)
    ]
settle-Balanced (in_left (in_right k u g red) p red s) a n b h v (x, cs, y, around) even r =
    absurd (black_ne_red y)
settle-Balanced (in_left (in_right k u g black) p red s) a n b h v (ts, cs, y, (z, cu, w, ck))
      (es, (eu, ek)) r =
    elim (Bool-cases (is_red (tone u))) [
      | inl t ↦ rw t (
          settle-Balanced k (blacken u) g (branch (branch a n red b) p black s) (suc h)
            (record {
              tones = (tone-blacken u, refl);
              calm = (blacken-IsCalm u cu, (tt, tt, node-IsCalm v n, cs));
              even = (red_blacken-IsEven u h t eu, (node-IsEven v n, es));
            })
            ck ek r)
      | inr t ↦
          let tu : tone u ≡ black = not_red u t in
          rw t (
            plug-Balanced k (branch (branch u g red a) n black (branch b p red s)) (suc h) ck ek
              (tt, tt, (tu, v.tones.0, cu, v.calm.0), (v.tones.1, ts, v.calm.1, cs))
              ((eu, v.even.0), (v.even.1, es)) refl)
    ]
settle-Balanced (in_right (in_right k u g red) s p red) a n b h v (x, cs, y, around) even r =
    absurd (black_ne_red y)
settle-Balanced (in_right (in_right k u g black) s p red) a n b h v (ts, cs, y, (z, cu, w, ck))
      (es, (eu, ek)) r =
    elim (Bool-cases (is_red (tone u))) [
      | inl t ↦ rw t (
          settle-Balanced k (blacken u) g (branch s p black (branch a n red b)) (suc h)
            (record {
              tones = (tone-blacken u, refl);
              calm = (blacken-IsCalm u cu, (tt, tt, cs, node-IsCalm v n));
              even = (red_blacken-IsEven u h t eu, (es, node-IsEven v n));
            })
            ck ek r)
      | inr t ↦
          let tu : tone u ≡ black = not_red u t in
          rw t (
            plug-Balanced k (branch (branch u g red s) p black (branch a n red b)) (suc h) ck ek
              (tt, tt, (tu, ts, cu, cs), node-IsCalm v n) ((eu, es), node-IsEven v n) refl)
    ]

-- with the root blackened, as the code does in the end
pub settle-IsRedBlack :
    (k : Context) (a : Shape) (n : ℕ) (b : Shape) (h : ℕ)
    → IsNode h a b
    → CalmIn k
    → EvenIn k h
    → IsRooted k
    → IsRedBlack (blacken (settle k a n b))
settle-IsRedBlack k a n b h v calm even r =
    let (settled, (g, all)) = settle-Balanced k a n b h v calm even r in
    record {
      root = tone-blacken (settle k a n b);
      calm = blacken-IsCalm (settle k a n b) settled;
      even = blacken-IsEven (settle k a n b) g all;
    }
