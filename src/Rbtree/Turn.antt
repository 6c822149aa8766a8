-- ===== src/Rbtree/Turn.antt =====
-- `rb_rotate_left` of rbtree.c on a node anywhere in a tree.
use native.Mathlib.Decide.{ℕ_discrete}
use fru1t_os.Prelude.{
  append_assoc, ℕ, ◌+◌, ◌≤◌, ◌<◌, ◌≡◌, ◌≢◌, refl, sym, ap, ◌∙◌, false, ◌==◌, ◌∷◌, if◌then◌else◌,
  arith,
}
use fru1t_os.Rbtree.{Color, RbTree, rb_rotate_left}
use fru1t_os.Rbtree.Shape.{
  Shape, branch, in_order, count, IsDistinct, IsTree, Represents, Context, top, in_left, in_right,
  plug, above,
}
use fru1t_os.Rbtree.Rotate.{Turned, rb_rotate_left-Turned}
use fru1t_os.Rbtree.Place.{
  count_in, count-plug, in_order-plug, IsContext, take_out, put_back, count_root, kept-IsTree,
  adopted-IsTree, kept-IsContext, counts_itself, count_above, count_null, count_in_null,
}

-- the nodes around a place whose pointer changes from `x` to `y`
module _ (x y w : ℕ) (t t' : RbTree) (pos_x : 0 < x) where
  moved_context :
      (k : Context)
      → count_in x k ≡ 0
      → ((z : ℕ) → count_in z k ≤ 1)
      → ((z : ℕ) → 0 < count_in z k → above k ≢ z → t'.nodes z ≡ t.nodes z)
      → Turned x y w (above k) t t'
      → IsContext t k x
      → IsContext t' k y
  moved_context top fresh once same r is = r.root
  moved_context (in_left k p c s) fresh once same r (pos, par, col, left, right, around) =
      let n = r.at_left pos (sym left) in
      let ne : (z : ℕ) → 0 < count z s + count_in z k → p ≢ z =
        λ z h e. omega (arith, once z, counts_itself z, ap (λ a. count_in z (in_left k a c s)) e) in
      let null : (p == 0) ≡ false = ground arith in
      rw n (
        pos,
        par,
        col,
        refl,
        kept-IsTree s t t' p (t.nodes p).right (λ z h. same z (omega arith) (ne z (omega arith)))
            right,
        kept-IsContext k t t' p (λ z h. same z (omega arith) (ne z (omega arith)))
            (r.root ∙ ap (λ b. if b then y else t.rb_node) null) around,
      )
  moved_context (in_right k s p c) fresh once same r (pos, par, col, left, right, around) =
      let other : x ≢ (t.nodes p).left =
        λ e. omega (arith, fresh, count_root s t p x pos_x (rw e left)) in
      let n = r.at_right pos other in
      let ne : (z : ℕ) → 0 < count z s + count_in z k → p ≢ z = λ z h e.
        omega (arith, once z, counts_itself z, ap (λ a. count_in z (in_right k s a c)) e) in
      let null : (p == 0) ≡ false = ground arith in
      rw n (
        pos,
        par,
        col,
        kept-IsTree s t t' p (t.nodes p).left (λ z h. same z (omega arith) (ne z (omega arith)))
            left,
        refl,
        kept-IsContext k t t' p (λ z h. same z (omega arith) (ne z (omega arith)))
            (r.root ∙ ap (λ b. if b then y else t.rb_node) null) around,
      )

hits : (p z : ℕ) → p ≡ z → ◌≡◌ {A = ℕ} (if p == z then 1 else 0) 1
hits p z e = ground arith

module _ (k : Context) (a b e : Shape) (x y : ℕ) (c d : Color) (t : RbTree)
    (once : (z : ℕ) → count_in z k + count z (branch a x c (branch b y d e)) ≤ 1)
    (around : IsContext t k x) (pos_x : 0 < x) (par_x : (t.nodes x).parent ≡ above k)
    (at_y : (t.nodes x).right ≡ y) (pos_y : 0 < y) (left_x : IsTree t x (t.nodes x).left a)
    (left_y : IsTree t y (t.nodes y).left b) (right_y : IsTree t y (t.nodes y).right e) where
  abbrev w : ℕ
  w = (t.nodes y).left

  in_b : 0 < w → 0 < count w b
  in_b h = count_root b t y w h left_y

  xy : x ≢ y
  xy h = omega (arith, once y, hits x y h, counts_itself y)

  xw : x ≢ w
  xw h = omega (arith, once w, hits x w h, in_b (omega arith))

  yw : y ≢ w
  yw h = omega (arith, once w, hits y w h, in_b (omega arith))

  xq : x ≢ above k
  xq h = omega (arith, once (above k), hits x (above k) h, count_above k (omega arith))

  yq : y ≢ above k
  yq h = omega (arith, once (above k), hits y (above k) h, count_above k (omega arith))

  wq : 0 < w → w ≢ above k
  wq pos h = omega (arith, once w, in_b pos, count_above k (omega arith), ap (λ z. count_in z k) h)

  turned : Turned x y w (above k) t (rb_rotate_left x t)
  turned =
      rw (← at_y, ← par_x)
        (rb_rotate_left-Turned x t (rw at_y xy) (rw at_y xw) (rw at_y yw) (rw par_x xq)
          (rw (at_y, par_x) yq) (λ pos h. wq (rw (← at_y) pos) (rw (← at_y) h ∙ par_x)))

  w_ne : (z : ℕ) → 0 < count z a + count z e + count_in z k → w ≢ z
  w_ne z h same = elim (ℕ_discrete w 0) [
    | yes null ↦ omega (
      arith,
      h,
      count_null a t x (t.nodes x).left left_x,
      count_null e t y (t.nodes y).right right_y,
      count_in_null k t x around,
      ap (λ z. count z a + count z e + count_in z k) (sym same ∙ null),
    )
    | no ne ↦ omega (arith, once z, h, in_b (omega arith), ap (λ z. count z b) same)
  ]

  q_ne : (z : ℕ) → 0 < count z a + count z b + count z e → above k ≢ z
  q_ne z h same = elim (ℕ_discrete (above k) 0) [
    | yes null ↦ omega (
      arith,
      h,
      count_null a t x (t.nodes x).left left_x,
      count_null b t y (t.nodes y).left left_y,
      count_null e t y (t.nodes y).right right_y,
      ap (λ z. count z a + count z b + count z e) (sym same ∙ null),
    )
    | no ne ↦ omega (arith, once z, h, count_above k (omega arith), ap (λ z. count_in z k) same)
  ]

  x_ne : (z : ℕ) → 0 < count z a + count z b + count z e + count_in z k → x ≢ z
  x_ne z h same = omega (arith, once z, h, hits x z same)

  y_ne : (z : ℕ) → 0 < count z a + count z b + count z e + count_in z k → y ≢ z
  y_ne z h same = omega (arith, once z, h, hits y z same)

  abbrev t' : RbTree
  t' = rb_rotate_left x t

  same_nodes :
      (z : ℕ)
      → 0 < count z a + count z e + count_in z k
      → 0 < count z a + count z b + count z e
      → t'.nodes z ≡ t.nodes z
  same_nodes z h i =
      turned.elsewhere z (x_ne z (omega arith)) (y_ne z (omega arith)) (w_ne z h) (q_ne z i)

  turned_b : IsTree t' x w b
  turned_b =
      adopted-IsTree b t t' y x w (λ z. omega (arith, once z)) turned.at_w
        (λ z h ne.
          turned.elsewhere z (x_ne z (omega arith)) (y_ne z (omega arith)) ne
            (q_ne z (omega arith)))
        left_y

  turned_around : IsContext t' k y
  turned_around =
      moved_context x y w t t' pos_x k (omega (arith, once x, counts_itself x))
        (λ z. omega (arith, once z))
        (λ z h ne.
          turned.elsewhere z (x_ne z (omega arith)) (y_ne z (omega arith)) (w_ne z (omega arith))
            ne)
        turned around

  turned_below :
      (t.nodes x).color ≡ c
      → (t.nodes y).color ≡ d
      → IsTree t' (above k) y (branch (branch a x c b) y d e)
  turned_below col_x col_y = rw (turned.at_y) (
    refl,
    pos_y,
    refl,
    col_y,
    rw (turned.at_x) (
      refl,
      pos_x,
      refl,
      col_x,
      kept-IsTree a t t' x (t.nodes x).left (λ z h. same_nodes z (omega arith) (omega arith))
          left_x,
      turned_b,
    ),
    kept-IsTree e t t' y (t.nodes y).right (λ z h. same_nodes z (omega arith) (omega arith))
        right_y,
  )

-- the tree behind a left rotation of the node `x` with the right child `y`
pub rb_rotate_left_lem :
    (k : Context) (a b e : Shape) (x y : ℕ) (c d : Color) (t : RbTree)
    → Represents t (plug k (branch a x c (branch b y d e)))
    → IsDistinct (plug k (branch a x c (branch b y d e)))
    → Represents (rb_rotate_left x t) (plug k (branch (branch a x c b) y d e))
      × (in_order (plug k (branch (branch a x c b) y d e))
          ≡ in_order (plug k (branch a x c (branch b y d e))))
      × IsDistinct (plug k (branch (branch a x c b) y d e))
rb_rotate_left_lem k a b e x y c d t is distinct =
    let (
      h,
      around,
      (at_x, pos_x, par_x, col_x, left_x, (at_y, pos_y, par_y, col_y, left_y, right_y)),
    ) =
      take_out k (branch a x c (branch b y d e)) t is in
    let once : (z : ℕ) → count_in z k + count z (branch a x c (branch b y d e)) ≤ 1 =
      λ z. omega (arith, distinct z, count-plug k z (branch a x c (branch b y d e))) in
    let around_x : IsContext t k x = rw (← at_x) around in
    (
      put_back k (branch (branch a x c b) y d e) (rb_rotate_left x t) y
          (turned_around k a b e x y c d t once around_x pos_x par_x at_y pos_y left_x left_y
            right_y)
          (turned_below k a b e x y c d t once around_x pos_x par_x at_y pos_y left_x left_y right_y
            col_x col_y),
      in_order-plug k _ _ (append_assoc (in_order a) (x ∷ in_order b) (y ∷ in_order e)),
      λ z. omega (arith, once z, count-plug k z (branch (branch a x c b) y d e)),
    )
