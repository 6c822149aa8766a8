-- ===== src/Rbtree/Hang.antt =====
-- The insertion of a node into a red-black tree: `hang` and `rb_insert_color` of rbtree.c.
use fru1t_os.Prelude.{
  ℕ, ◌+◌, ◌≤◌, ◌<◌, ◌≡◌, ◌≢◌, refl, sym, ap, ◌∙◌, Bool, true, false, ◌==◌, if◌then◌else◌, arith,
}
use fru1t_os.Rbtree.{Color, red, RbNode, RbTree, set_node, set_left, set_right, hang}
use fru1t_os.Rbtree.Shape.{Shape, count, IsTree, Context, top, in_left, in_right, above}
use fru1t_os.Rbtree.Place.{count_in, IsContext, kept-IsTree, kept-IsContext, counts_itself}
use fru1t_os.Rbtree.Rotate.{node_same, node_other, root_same}

-- the flag says on which side the place is
abbrev pub IsSide : Context → Bool → Type 0
IsSide top b = Unit
IsSide (in_left k p c r) b = b ≡ true
IsSide (in_right k l p c) b = b ≡ false

abbrev new_node : ℕ → RbNode
new_node q = record { parent = q; left = 0; right = 0; color = red }

pub hang_left :
    (p q : ℕ) (t : RbTree) → 0 < q → hang p q true t ≡ set_left q p (set_node p (new_node q) t)
unfolding hang
hang_left p q t pos =
    let there : (q == 0) ≡ false = ground arith in
    ap
      (λ b.
        if b
        then record (set_node p (new_node q) t) { rb_node = p }
        else set_left q p (set_node p (new_node q) t))
      there

pub hang_right :
    (p q : ℕ) (t : RbTree) → 0 < q → hang p q false t ≡ set_right q p (set_node p (new_node q) t)
unfolding hang
hang_right p q t pos =
    let there : (q == 0) ≡ false = ground arith in
    ap
      (λ b.
        if b
        then record (set_node p (new_node q) t) { rb_node = p }
        else set_right q p (set_node p (new_node q) t))
      there

-- what `hang` leaves at each address
pub record Hung (p : ℕ) (k : Context) (t t' : RbTree) : Type 0 where
  pub fresh : t'.nodes p ≡ new_node (above k)
  pub elsewhere : (z : ℕ) → p ≢ z → above k ≢ z → t'.nodes z ≡ t.nodes z
  pub around : IsContext t k 0 → IsContext t' k p

module _ (p : ℕ) (t : RbTree) where
  pub hang_top : (b : Bool) → Hung p top t (hang p 0 b t)
  unfolding hang
  hang_top b = record {
    fresh = node_same p _ t;
    elsewhere = λ z pz qz. node_other p z _ t pz;
    around = λ h. refl;
  }

  module _ (k : Context) (q : ℕ) (c : Color) (s : Shape) (pos : 0 < q)
      (none_in : (if q == p then 1 else 0) + count p s + count_in p k ≡ 0)
      (once : (z : ℕ) → (if q == z then 1 else 0) + count z s + count_in z k ≤ 1) where
    abbrev added : RbTree
    added = set_node p (new_node q) t

    pq : p ≢ q
    pq e = omega (arith, none_in, counts_itself p, ap {B = ℕ} (λ x. if x == p then 1 else 0) e)

    below : (z : ℕ) → 0 < count z s + count_in z k → (p ≢ z) × (q ≢ z)
    below z more = (
      λ e. omega (arith, none_in, more, ap (λ x. count x s + count_in x k) e),
      λ e.
          omega (arith, once z, more, counts_itself z, ap {B = ℕ} (λ x. if x == z then 1 else 0) e),
    )

    -- the parent gets its child by a write of its node
    module _ (n : RbNode) where
      abbrev linked : RbTree
      linked = set_node q n added

      linked_fresh : linked.nodes p ≡ new_node q
      linked_fresh = node_other q p n added (λ e. pq (sym e)) ∙ node_same p _ t

      linked_elsewhere : (z : ℕ) → p ≢ z → q ≢ z → linked.nodes z ≡ t.nodes z
      linked_elsewhere z pz qz = node_other q z n added qz ∙ node_other p z _ t pz

      linked-IsTree : (v : ℕ) → IsTree t q v s → IsTree linked q v s
      linked-IsTree v is =
          kept-IsTree s t linked q v
            (λ z more. linked_elsewhere z (below z (omega arith)).0 (below z (omega arith)).1) is

      linked-IsContext : IsContext t k q → IsContext linked k q
      linked-IsContext is =
          kept-IsContext k t linked q
            (λ z more. linked_elsewhere z (below z (omega arith)).0 (below z (omega arith)).1)
            (root_same q n added ∙ root_same p _ t) is

    left_node : (added.nodes q) ≡ t.nodes q
    left_node = node_other p q _ t pq

    pub hang_below_left : Hung p (in_left k q c s) t (set_left q p added)
    hang_below_left = record {
      fresh = linked_fresh _;
      elsewhere = linked_elsewhere _;
      around = λ (ps, par, col, left, right, around).
          let n : (set_left q p added).nodes q ≡ record (t.nodes q) { left = p } =
            node_same q _ added ∙ ap (λ (m : RbNode). record m { left = p }) left_node in
          rw n (
            ps,
            par,
            col,
            refl,
            linked-IsTree _ (t.nodes q).right right,
            linked-IsContext _ around,
          );
    }

    pub hang_below_right : Hung p (in_right k s q c) t (set_right q p added)
    hang_below_right = record {
      fresh = linked_fresh _;
      elsewhere = linked_elsewhere _;
      around = λ (ps, par, col, left, right, around).
          let n : (set_right q p added).nodes q ≡ record (t.nodes q) { right = p } =
            node_same q _ added ∙ ap (λ (m : RbNode). record m { right = p }) left_node in
          rw n
            (ps, par, col, linked-IsTree _ (t.nodes q).left left, refl, linked-IsContext _ around);
    }
