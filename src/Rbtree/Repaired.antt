-- ===== src/Rbtree/Repaired.antt =====
-- `repair` makes a red-black tree again.
use mathlib.Core.Path.{subst}
use fru1t_os.Prelude.{
  ℕ, suc, ◌≡◌, refl, sym, Bool, true, false, not, ◌&&◌, arith, inl, inr, Bool-cases,
}
use fru1t_os.Rbtree.{Color, red, black, is_red}
use fru1t_os.Rbtree.Shape.{Shape, leaf, branch, Context, top, in_left, in_right}
use fru1t_os.Rbtree.Settle.{tone, blacken}
use fru1t_os.Rbtree.Balance.{
  BlackIf, BlackIf-sym, IsCalm, IsEven, IsRedBlack, tone_above, CalmIn, EvenIn, IsRooted,
  black_ne_red, tone-blacken, red_blacken-IsEven, blacken-IsEven, not_red,
}
use fru1t_os.Rbtree.Loop.{IsRooted-below}
use fru1t_os.Rbtree.Repair.{
  plain, near_left, near_right, borrow_left, borrow_right, turn_up_left, turn_up_right, repair,
}
use fru1t_os.Rbtree.Lent.{
  raise, left-EvenIn, right-EvenIn, blacken_same, whole-IsRedBlack, blackened-IsRedBlack,
  borrow_left-Lent, borrow_right-Lent, branch-IsEven,
}

both_black :
    (l : Shape) (s : ℕ) (d : Color) (r : Shape)
    → plain (branch l s d r) ≡ true
    → (tone l ≡ black) × (tone r ≡ black)
both_black l s d r e = elim (Bool-cases (is_red (tone l))) [
  | inl t ↦ absurd (none_red (is_red (tone l)) (is_red (tone r)) t e)
  | inr t ↦ elim (Bool-cases (is_red (tone r))) [
    | inl u ↦ absurd (none_red_right (is_red (tone l)) (is_red (tone r)) u e)
    | inr u ↦ (not_red l t, not_red r u)
  ]
]
  where
    none_red : (a b : Bool) → a ≡ true → (not a && not b) ≡ true → ⊥
    none_red true b e f = cc
    none_red false b e f = cc

    none_red_right : (a b : Bool) → b ≡ true → (not a && not b) ≡ true → ⊥
    none_red_right true b e f = cc
    none_red_right false true e f = cc
    none_red_right false false e f = cc

pub raise-suc :
    (c : Color) (h : ℕ) (k : Context) → EvenIn k (raise c (suc h)) → EvenIn k (suc (raise c h))
raise-suc red h k e = e
raise-suc black h k e = e

tone-near_left :
    (x : Shape) (p : ℕ) (c : Color) (near : Shape) (s : ℕ) (far : Shape)
    → tone (near_left x p c near s far) ≡ c
tone-near_left x p c leaf s far = refl
tone-near_left x p c (branch l n d r) s far = refl

tone-borrow_left :
    (x : Shape) (p : ℕ) (c : Color) (l : Shape) (s : ℕ) (d : Color) (r : Shape)
    → tone (borrow_left x p c (branch l s d r)) ≡ c
tone-borrow_left x p c l s d r = elim (Bool-cases (is_red (tone r))) [
  | inl t ↦ rw t refl
  | inr t ↦ rw t (tone-near_left x p c l s r)
]

module _ (x : Shape) (p h : ℕ) (ex : IsEven h x) (cx : IsCalm x) (tx : tone x ≡ black) (k : Context)
    (ck : CalmIn k) (r' : IsRooted k) where
  -- the sibling is red
  turn_up_left-IsRedBlack :
      (a : Shape) (q : ℕ) (d : Color) (b : Shape)
      → EvenIn k (suc (suc h))
      → IsEven (suc h) a
      → IsEven (suc h) b
      → IsCalm a
      → IsCalm b
      → tone a ≡ black
      → IsRedBlack (turn_up_left k x p (branch a q d b))
  turn_up_left-IsRedBlack leaf q d b ek ea eb ca cb t = absurd (omega (arith, ea))
  turn_up_left-IsRedBlack (branch l s red r) q d b ek ea eb ca cb t = absurd (black_ne_red t)
  turn_up_left-IsRedBlack (branch l s black r) q d b ek (el, er) eb (tl, tr, cl, cr) cb t =
      elim (Bool-cases (plain (branch l s black r))) [
        | inl yes_plain ↦
            let (bl, br) = both_black l s black r yes_plain in
            rw yes_plain (
              whole-IsRedBlack (in_left k q black b) (branch x p black (branch l s red r)) (suc h)
                (tt, cb, tt, ck) (eb, ek) r' (tt, tt, cx, (bl, br, cl, cr)) (ex, (el, er)) refl)
        | inr not_plain ↦
            let (calm, even) =
              borrow_left-Lent x p red h ex cx tx l s black r not_plain
                (record { even = (el, er); calm = (cl, cr) }) in
            rw not_plain (
              blackened-IsRedBlack (in_left k q black b) (borrow_left x p red (branch l s black r))
                (suc h) (tt, cb, tt, ck) (eb, ek) tt calm even)
      ]

tone-near_right :
    (x : Shape) (p : ℕ) (c : Color) (near : Shape) (s : ℕ) (far : Shape)
    → tone (near_right x p c near s far) ≡ c
tone-near_right x p c leaf s far = refl
tone-near_right x p c (branch l n d r) s far = refl

tone-borrow_right :
    (x : Shape) (p : ℕ) (c : Color) (l : Shape) (s : ℕ) (d : Color) (r : Shape)
    → tone (borrow_right x p c (branch l s d r)) ≡ c
tone-borrow_right x p c l s d r = elim (Bool-cases (is_red (tone l))) [
  | inl t ↦ rw t refl
  | inr t ↦ rw t (tone-near_right x p c r s l)
]

module _ (x : Shape) (p h : ℕ) (ex : IsEven h x) (cx : IsCalm x) (tx : tone x ≡ black) (k : Context)
    (ck : CalmIn k) (r' : IsRooted k) where
  -- the sibling is red
  turn_up_right-IsRedBlack :
      (a : Shape) (q : ℕ) (d : Color) (b : Shape)
      → EvenIn k (suc (suc h))
      → IsEven (suc h) a
      → IsEven (suc h) b
      → IsCalm a
      → IsCalm b
      → tone b ≡ black
      → IsRedBlack (turn_up_right k x p (branch a q d b))
  turn_up_right-IsRedBlack a q d leaf ek ea eb ca cb t = absurd (omega (arith, eb))
  turn_up_right-IsRedBlack a q d (branch l s red r) ek ea eb ca cb t = absurd (black_ne_red t)
  turn_up_right-IsRedBlack a q d (branch l s black r) ek ea (el, er) ca (tl, tr, cl, cr) t =
      elim (Bool-cases (plain (branch l s black r))) [
        | inl yes_plain ↦
            let (bl, br) = both_black l s black r yes_plain in
            rw yes_plain (
              whole-IsRedBlack (in_right k a q black) (branch (branch l s red r) p black x) (suc h)
                (tt, ca, tt, ck) (ea, ek) r' (tt, tt, (bl, br, cl, cr), cx) ((el, er), ex) refl)
        | inr not_plain ↦
            let (calm, even) =
              borrow_right-Lent x p red h ex cx tx l s black r not_plain
                (record { even = (el, er); calm = (cl, cr) }) in
            rw not_plain (
              blackened-IsRedBlack (in_right k a q black)
                (borrow_right x p red (branch l s black r)) (suc h) (tt, ca, tt, ck) (ea, ek) tt
                calm even)
      ]

pub repair-IsRedBlack :
    (k : Context) (x : Shape) (h : ℕ)
    → IsEven h x
    → IsCalm (blacken x)
    → CalmIn k
    → EvenIn k (suc h)
    → IsRooted k
    → IsRedBlack (repair k x)
unfolding repair
repair-IsRedBlack top x h ex cx ck ek r = record {
  root = tone-blacken x;
  calm = cx;
  even = blacken-IsEven x h ex;
}
repair-IsRedBlack (in_left k p c leaf) x h ex cx ck ek r =
    absurd (omega (arith, (left-EvenIn c (suc h) k p leaf ek).0))
repair-IsRedBlack (in_left k p red (branch a q red b)) x h ex cx (y, cs, up, ck) ek r =
    absurd (black_ne_red y)
repair-IsRedBlack (in_left k p black (branch a q red b)) x h ex cx (y, (ta, tb, ca, cb), up, ck)
      ((ea, eb), ek) r =
    elim (Bool-cases (is_red (tone x))) [
      | inl t ↦ rw t (
          whole-IsRedBlack (in_left k p black (branch a q red b)) (blacken x) (suc h)
            (y, (ta, tb, ca, cb), up, ck) ((ea, eb), ek) r cx (red_blacken-IsEven x h t ex)
            (tone-blacken x))
      | inr t ↦ rw t (
          turn_up_left-IsRedBlack x p h ex (subst IsCalm (blacken_same x (not_red x t)) cx)
            (not_red x t) k ck r a q red b ek ea eb ca cb ta)
    ]
repair-IsRedBlack (in_left k p c (branch a q black b)) x h ex cx (y, (ta, tb, ca, cb), up, ck) even
      r =
    let ((ea, eb), ek) = left-EvenIn c (suc h) k p (branch a q black b) even in
    elim (Bool-cases (is_red (tone x))) [
      | inl t ↦ rw t (
          whole-IsRedBlack (in_left k p c (branch a q black b)) (blacken x) (suc h)
            (y, (ta, tb, ca, cb), up, ck) even r cx (red_blacken-IsEven x h t ex) (tone-blacken x))
      | inr t ↦
          let calm : IsCalm x = subst IsCalm (blacken_same x (not_red x t)) cx in
          elim (Bool-cases (plain (branch a q black b))) [
            | inl yes_plain ↦
                let (ba, bb) = both_black a q black b yes_plain in
                rw (t, yes_plain)
                  (repair-IsRedBlack k (branch x p c (branch a q red b)) (raise c h)
                    (branch-IsEven c h x p (branch a q red b) ex (ea, eb))
                    (tt, tt, calm, (ba, bb, ca, cb)) ck (raise-suc c h k ek) (IsRooted-below c k r))
            | inr not_plain ↦
                let (lent, even') =
                  borrow_left-Lent x p c h ex calm (not_red x t) a q black b not_plain
                    (record { even = (ea, eb); calm = (ca, cb) }) in
                rw (t, not_plain)
                  (blackened-IsRedBlack k (borrow_left x p c (branch a q black b)) (raise c (suc h))
                    ck ek
                    (subst (BlackIf (tone_above k)) (sym (tone-borrow_left x p c a q black b))
                      (BlackIf-sym c (tone_above k) up))
                    lent even')
          ]
    ]
repair-IsRedBlack (in_right k leaf p c) x h ex cx ck ek r =
    absurd (omega (arith, (right-EvenIn c (suc h) k p leaf ek).0))
repair-IsRedBlack (in_right k (branch a q red b) p red) x h ex cx (y, cs, up, ck) ek r =
    absurd (black_ne_red y)
repair-IsRedBlack (in_right k (branch a q red b) p black) x h ex cx (y, (ta, tb, ca, cb), up, ck)
      ((ea, eb), ek) r =
    elim (Bool-cases (is_red (tone x))) [
      | inl t ↦ rw t (
          whole-IsRedBlack (in_right k (branch a q red b) p black) (blacken x) (suc h)
            (y, (ta, tb, ca, cb), up, ck) ((ea, eb), ek) r cx (red_blacken-IsEven x h t ex)
            (tone-blacken x))
      | inr t ↦ rw t (
          turn_up_right-IsRedBlack x p h ex (subst IsCalm (blacken_same x (not_red x t)) cx)
            (not_red x t) k ck r a q red b ek ea eb ca cb tb)
    ]
repair-IsRedBlack (in_right k (branch a q black b) p c) x h ex cx (y, (ta, tb, ca, cb), up, ck) even
      r =
    let ((ea, eb), ek) = right-EvenIn c (suc h) k p (branch a q black b) even in
    elim (Bool-cases (is_red (tone x))) [
      | inl t ↦ rw t (
          whole-IsRedBlack (in_right k (branch a q black b) p c) (blacken x) (suc h)
            (y, (ta, tb, ca, cb), up, ck) even r cx (red_blacken-IsEven x h t ex) (tone-blacken x))
      | inr t ↦
          let calm : IsCalm x = subst IsCalm (blacken_same x (not_red x t)) cx in
          elim (Bool-cases (plain (branch a q black b))) [
            | inl yes_plain ↦
                let (ba, bb) = both_black a q black b yes_plain in
                rw (t, yes_plain)
                  (repair-IsRedBlack k (branch (branch a q red b) p c x) (raise c h)
                    (branch-IsEven c h (branch a q red b) p x (ea, eb) ex)
                    (tt, tt, (ba, bb, ca, cb), calm) ck (raise-suc c h k ek) (IsRooted-below c k r))
            | inr not_plain ↦
                let (lent, even') =
                  borrow_right-Lent x p c h ex calm (not_red x t) a q black b not_plain
                    (record { even = (ea, eb); calm = (ca, cb) }) in
                rw (t, not_plain)
                  (blackened-IsRedBlack k (borrow_right x p c (branch a q black b))
                    (raise c (suc h)) ck ek
                    (subst (BlackIf (tone_above k)) (sym (tone-borrow_right x p c a q black b))
                      (BlackIf-sym c (tone_above k) up))
                    lent even')
          ]
    ]
