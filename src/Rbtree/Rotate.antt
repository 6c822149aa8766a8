-- ===== src/Rbtree/Rotate.antt =====
-- What a rotation of rbtree.c leaves at each address.
use native.Mathlib.Decide.{ℕ_discrete}
use fru1t_os.Prelude.{
  ℕ, ◌<◌, ◌≡◌, ◌≢◌, inl, inr, refl, sym, ap, ◌∙◌, true, false, ◌==◌, if◌then◌else◌, arith,
  Bool-cases,
}
use fru1t_os.Rbtree.{
  RbNode, RbTree, set_node, set_left, set_right, rb_set_parent, replace_child, adopt,
  rb_rotate_left,
}

abbrev with_parent : ℕ → RbNode → RbNode
with_parent p n = record n { parent = p }

abbrev with_left : ℕ → RbNode → RbNode
with_left p n = record n { left = p }

abbrev with_right : ℕ → RbNode → RbNode
with_right p n = record n { right = p }

pub node_same : (p : ℕ) (n : RbNode) (t : RbTree) → (set_node p n t).nodes p ≡ n
unfolding set_node
node_same p n t = let e : (p == p) ≡ true = ground arith in rw e refl

pub node_other : (p q : ℕ) (n : RbNode) (t : RbTree) → p ≢ q → (set_node p n t).nodes q ≡ t.nodes q
unfolding set_node
node_other p q n t ne = let e : (q == p) ≡ false = ground arith in rw e refl

pub root_same : (p : ℕ) (n : RbNode) (t : RbTree) → (set_node p n t).rb_node ≡ t.rb_node
unfolding set_node
root_same p n t = refl

module _ (p parent : ℕ) (t : RbTree) where
  pub adopt_other : (q : ℕ) → p ≢ q → (adopt p parent t).nodes q ≡ t.nodes q
  unfolding adopt
  adopt_other q ne = elim (Bool-cases (p == 0)) [
    | inl e ↦ rw e refl
    | inr e ↦ rw e (node_other p q _ _ ne)
  ]

  adopt_null : (q : ℕ) → p ≡ 0 → (adopt p parent t).nodes q ≡ t.nodes q
  unfolding adopt
  adopt_null q z = let e : (p == 0) ≡ true = ground arith in rw e refl

  pub adopt_self : 0 < p → (adopt p parent t).nodes p ≡ record (t.nodes p) { parent = parent }
  unfolding adopt
  adopt_self h = let e : (p == 0) ≡ false = ground arith in rw e (node_same p _ _)

  pub adopt_root : (adopt p parent t).rb_node ≡ t.rb_node
  unfolding adopt
  adopt_root = elim (Bool-cases (p == 0)) [ inl e ↦ rw e refl | inr e ↦ rw e (root_same p _ _) ]

module _ (parent old new : ℕ) (t : RbTree) where
  replace_other : (q : ℕ) → parent ≢ q → (replace_child parent old new t).nodes q ≡ t.nodes q
  unfolding replace_child
  replace_other q ne = elim (Bool-cases (parent == 0)) [
    | inl e ↦ rw e refl
    | inr e ↦ elim (Bool-cases (old == (t.nodes parent).left)) [
      | inl l ↦ rw (e, l) (node_other parent q _ _ ne)
      | inr l ↦ rw (e, l) (node_other parent q _ _ ne)
    ]
  ]

  replace_left :
      0 < parent
      → old ≡ (t.nodes parent).left
      → (replace_child parent old new t).nodes parent ≡ record (t.nodes parent) { left = new }
  unfolding replace_child
  replace_left h same =
      let e : (parent == 0) ≡ false = ground arith in
      let l : (old == (t.nodes parent).left) ≡ true = ground arith in
      rw (e, l) (node_same parent _ _)

  replace_right :
      0 < parent
      → old ≢ (t.nodes parent).left
      → (replace_child parent old new t).nodes parent ≡ record (t.nodes parent) { right = new }
  unfolding replace_child
  replace_right h ne =
      let e : (parent == 0) ≡ false = ground arith in
      let l : (old == (t.nodes parent).left) ≡ false = ground arith in
      rw (e, l) (node_same parent _ _)

  replace_root : (replace_child parent old new t).rb_node ≡ (if parent == 0 then new else t.rb_node)
  unfolding replace_child
  replace_root = elim (Bool-cases (parent == 0)) [
    | inl e ↦ rw e refl
    | inr e ↦ elim (Bool-cases (old == (t.nodes parent).left)) [
      | inl l ↦ rw (e, l) (root_same parent _ _)
      | inr l ↦ rw (e, l) (root_same parent _ _)
    ]
  ]

-- The nodes that a left rotation of `x` touches: `y` is its right child, `w` the left child of that one
-- and `q` its parent.
pub record Turned (x y w q : ℕ) (t t' : RbTree) : Type 0 where
  pub at_x : t'.nodes x ≡ record (t.nodes x) { right = w; parent = y }
  pub at_y : t'.nodes y ≡ record (t.nodes y) { left = x; parent = q }
  pub at_w : 0 < w → t'.nodes w ≡ record (t.nodes w) { parent = x }
  pub at_left : 0 < q → x ≡ (t.nodes q).left → t'.nodes q ≡ record (t.nodes q) { left = y }
  pub at_right : 0 < q → x ≢ (t.nodes q).left → t'.nodes q ≡ record (t.nodes q) { right = y }
  pub elsewhere : (z : ℕ) → x ≢ z → y ≢ z → w ≢ z → q ≢ z → t'.nodes z ≡ t.nodes z
  pub root : t'.rb_node ≡ (if q == 0 then y else t.rb_node)

module _ (x : ℕ) (t : RbTree) (xy : x ≢ (t.nodes x).right)
    (xw : x ≢ (t.nodes (t.nodes x).right).left)
    (yw : (t.nodes x).right ≢ (t.nodes (t.nodes x).right).left) (xq : x ≢ (t.nodes x).parent)
    (yq : (t.nodes x).right ≢ (t.nodes x).parent) where
  abbrev y : ℕ
  y = (t.nodes x).right

  abbrev w : ℕ
  w = (t.nodes y).left

  abbrev q : ℕ
  q = (t.nodes x).parent

  abbrev linked : RbTree
  linked = set_right x w t

  abbrev adopted : RbTree
  adopted = adopt w x linked

  abbrev crowned : RbTree
  crowned = rb_set_parent y q (set_left y x adopted)

  abbrev placed : RbTree
  placed = replace_child q x y crowned

  rotated : rb_rotate_left x t ≡ rb_set_parent x y placed
  unfolding rb_rotate_left
  rotated =
      ap
        (λ n.
          rb_set_parent x y
            (replace_child q x y (rb_set_parent y q (set_left y x (adopt n.left x linked)))))
        (node_other x y _ _ xy)

  adopted_same : (z : ℕ) → x ≢ z → w ≢ z → adopted.nodes z ≡ t.nodes z
  adopted_same z xz wz = adopt_other w x linked z wz ∙ node_other x z _ _ xz

  crowned_same : (z : ℕ) → y ≢ z → crowned.nodes z ≡ adopted.nodes z
  crowned_same z yz = node_other y z _ _ yz ∙ node_other y z _ _ yz

  crowned_y : crowned.nodes y ≡ with_parent q (with_left x (t.nodes y))
  crowned_y =
      node_same y _ _
      ∙ ap (with_parent q) (node_same y _ _)
      ∙ ap (λ n. with_parent q (with_left x n)) (adopted_same y xy (λ e. yw (sym e)))

  placed_x : placed.nodes x ≡ with_right w (t.nodes x)
  placed_x =
      replace_other q x y crowned x (λ e. xq (sym e))
      ∙ crowned_same x (λ e. xy (sym e))
      ∙ adopt_other w x linked x (λ e. xw (sym e))
      ∙ node_same x _ _

  rotated_same : (z : ℕ) → x ≢ z → (rb_rotate_left x t).nodes z ≡ placed.nodes z
  rotated_same z xz = ap (λ s. s.nodes z) rotated ∙ node_other x z _ _ xz

  crowned_q : crowned.nodes q ≡ adopted.nodes q
  crowned_q = crowned_same q yq

  module _ (wq : 0 < w → w ≢ q) where
    adopted_q : adopted.nodes q ≡ t.nodes q
    adopted_q = elim (ℕ_discrete w 0) [
      | yes e ↦ adopt_null w x linked q e ∙ node_other x q _ _ xq
      | no ne ↦ adopted_same q xq (wq (omega arith))
    ]

    pub rb_rotate_left-Turned : Turned x y w q t (rb_rotate_left x t)
    rb_rotate_left-Turned = record {
      at_x = ap (λ s. s.nodes x) rotated ∙ node_same x _ _ ∙ ap (with_parent y) placed_x;
      at_y = rotated_same y xy ∙ replace_other q x y crowned y (λ e. yq (sym e)) ∙ crowned_y;
      at_w = λ h.
          rotated_same w xw
          ∙ replace_other q x y crowned w (λ e. wq h (sym e))
          ∙ crowned_same w yw
          ∙ adopt_self w x linked h
          ∙ ap (with_parent x) (node_other x w _ _ xw);
      at_left = λ h e.
          rotated_same q xq
          ∙ replace_left q x y crowned h
              (e ∙ ap (λ (n : RbNode). n.left) (sym (crowned_q ∙ adopted_q)))
          ∙ ap (with_left y) (crowned_q ∙ adopted_q);
      at_right = λ h ne.
          rotated_same q xq
          ∙ replace_right q x y crowned h
              (λ e. ne (e ∙ ap (λ (n : RbNode). n.left) (crowned_q ∙ adopted_q)))
          ∙ ap (with_right y) (crowned_q ∙ adopted_q);
      elsewhere = λ z xz yz wz qz.
          rotated_same z xz
          ∙ replace_other q x y crowned z qz
          ∙ crowned_same z yz
          ∙ adopted_same z xz wz;
      root =
          ap (λ (s : RbTree). s.rb_node) rotated
          ∙ root_same x _ _
          ∙ replace_root q x y crowned
          ∙ ap (λ r. if q == 0 then y else r)
              (root_same y _ _ ∙ root_same y _ _ ∙ adopt_root w x linked ∙ root_same x _ _);
    }
