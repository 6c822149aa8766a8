-- ===== src/Rbtree/Unlink.antt =====
-- `unlink`, the first half of `rb_erase` of rbtree.c: the child of a node takes its place.
use mathlib.Core.Path.{subst}
use fru1t_os.Prelude.{
  ℕ, zero, suc, ◌+◌, ◌≤◌, ◌<◌, ◌≡◌, ◌≢◌, refl, sym, ap, ◌∙◌, true, false, ◌==◌, if◌then◌else◌,
  arith, inl, inr, Bool-cases,
}
use fru1t_os.Rbtree.{RbTree, set_left, set_right, rb_parent, adopt}
use fru1t_os.Rbtree.Erase.{unlink}
use fru1t_os.Rbtree.Shape.{Shape, count, IsTree, Context, top, in_left, in_right, plug, above}
use fru1t_os.Rbtree.Place.{
  count_in, count-plug, IsContext, put_back, count_root, kept-IsTree, kept-IsContext,
  adopted-IsTree, counts_itself, count_in_null,
}
use fru1t_os.Rbtree.Rotate.{node_same, node_other, root_same, adopt_other, adopt_self, adopt_root}
use fru1t_os.Rbtree.Holds.{Holds, misses}

-- the child `old` of `q`, or the root, becomes `new`
abbrev pub swap_child : (q old new : ℕ) → RbTree → RbTree
swap_child q old new t =
    if q == 0
    then record t { rb_node = new }
    else if (t.nodes q).left == old
    then set_left q new t
    else set_right q new t

module _ (q old new : ℕ) (t : RbTree) (pos : 0 < q) where
  swap_left : (t.nodes q).left ≡ old → swap_child q old new t ≡ set_left q new t
  swap_left e =
      let there : (q == 0) ≡ false = ground arith in
      let hit : ((t.nodes q).left == old) ≡ true = ground arith in
      ap
        (λ b.
          if b
          then record t { rb_node = new }
          else if (t.nodes q).left == old
          then set_left q new t
          else set_right q new t)
        there
      ∙ ap (λ b. if b then set_left q new t else set_right q new t) hit

  swap_right : (t.nodes q).left ≢ old → swap_child q old new t ≡ set_right q new t
  swap_right ne =
      let there : (q == 0) ≡ false = ground arith in
      let miss : ((t.nodes q).left == old) ≡ false = ground arith in
      ap
        (λ b.
          if b
          then record t { rb_node = new }
          else if (t.nodes q).left == old
          then set_left q new t
          else set_right q new t)
        there
      ∙ ap (λ b. if b then set_left q new t else set_right q new t) miss

  swap_other : (z : ℕ) → q ≢ z → (swap_child q old new t).nodes z ≡ t.nodes z
  swap_other z ne =
      let there : (q == 0) ≡ false = ground arith in
      elim (Bool-cases ((t.nodes q).left == old)) [
        | inl e ↦ rw (there, e) (node_other q z _ t ne)
        | inr e ↦ rw (there, e) (node_other q z _ t ne)
      ]

in_place : (q z n : ℕ) → (if q == z then 1 else 0) + n ≡ 0 → q ≢ z
in_place q z n none e =
    omega (arith, none, counts_itself z, ap {B = ℕ} (λ x. if x == z then 1 else 0) e)

other_below : (q z n : ℕ) → (if q == z then 1 else 0) + n ≤ 1 → 0 < n → q ≢ z
other_below q z n most more e =
    omega (arith, most, more, counts_itself z, ap {B = ℕ} (λ x. if x == z then 1 else 0) e)

pub swap_elsewhere :
    (k : Context) (old new : ℕ) (t : RbTree) (z : ℕ)
    → IsContext t k old
    → count_in z k ≡ 0
    → (swap_child (above k) old new t).nodes z ≡ t.nodes z
swap_elsewhere top old new t z around none = refl
swap_elsewhere (in_left k q c s) old new t z around none =
    swap_other q old new t around.0 z
      (in_place q z (count z s + count_in z k) (omega (arith, none)))
swap_elsewhere (in_right k s q c) old new t z around none =
    swap_other q old new t around.0 z
      (in_place q z (count z s + count_in z k) (omega (arith, none)))

pub swap_around :
    (k : Context) (old new : ℕ) (t : RbTree)
    → 0 < old
    → count_in old k ≡ 0
    → ((z : ℕ) → count_in z k ≤ 1)
    → IsContext t k old
    → IsContext (swap_child (above k) old new t) k new
swap_around top old new t there none once around = refl
swap_around (in_left k q c s) old new t there none once (pos, par, col, left, right, around) =
    let t' = set_left q new t in
    let n = node_same q (record (t.nodes q) { left = new }) t in
    let other : (z : ℕ) → 0 < count z s + count_in z k → t'.nodes z ≡ t.nodes z = λ z more.
      node_other q z _ t
        (other_below q z (count z s + count_in z k) (omega (arith, once z)) more) in
    subst (λ u. IsContext u (in_left k q c s) new) (sym (swap_left q old new t pos left))
      (rw n (
        pos,
        par,
        col,
        refl,
        kept-IsTree s t t' q (t.nodes q).right (λ z more. other z (omega arith)) right,
        kept-IsContext k t t' q (λ z more. other z (omega arith)) (root_same q _ t) around,
      ))
swap_around (in_right k s q c) old new t there none once (pos, par, col, left, right, around) =
    let t' = set_right q new t in
    let n = node_same q (record (t.nodes q) { right = new }) t in
    let other : (z : ℕ) → 0 < count z s + count_in z k → t'.nodes z ≡ t.nodes z = λ z more.
      node_other q z _ t
        (other_below q z (count z s + count_in z k) (omega (arith, once z)) more) in
    subst (λ u. IsContext u (in_right k s q c) new)
      (sym (
        swap_right q old new t pos
          (misses s t q (t.nodes q).left old left there (omega (arith, none)))))
      (rw n (
        pos,
        par,
        col,
        kept-IsTree s t t' q (t.nodes q).left (λ z more. other z (omega arith)) left,
        refl,
        kept-IsContext k t t' q (λ z more. other z (omega arith)) (root_same q _ t) around,
      ))

-- a node `n` at the place `k` with the one child tree `x`, whose root is at `v`
pub record Unlinked (k : Context) (n : ℕ) (x : Shape) (t t' : RbTree) : Type 0 where
  pub holds : Holds t' (plug k x)
  pub kept : t'.nodes n ≡ t.nodes n

pub unlink-Unlinked :
    (k : Context) (n v : ℕ) (x : Shape) (t : RbTree)
    → 0 < n
    → (t.nodes n).parent ≡ above k
    → IsContext t k n
    → IsTree t n v x
    → ((z : ℕ) → (if n == z then 1 else 0) + count_in z k + count z x ≤ 1)
    → Unlinked k n x t (unlink n v t)
unfolding unlink
unlink-Unlinked k n v x t pos par around is once =
    let t1 = adopt v (above k) t in
    let t' = swap_child (above k) n v t1 in
    let same : swap_child (rb_parent n t) n v (adopt v (rb_parent n t) t) ≡ t' =
      ap (λ q. swap_child q n v (adopt v q t)) par in
    let no_n : count_in n k + count n x ≡ 0 = omega (arith, once n, counts_itself n) in
    let context_place : (z : ℕ) → 0 < count_in z k → v ≢ z =
      λ z more. misses x t n v z is (positive z more) (omega (arith, once z, more)) in
    let around1 : IsContext t1 k n =
      kept-IsContext k t t1 n (λ z more. adopt_other v (above k) t z (context_place z more))
        (adopt_root v (above k) t) around in
    let in_x : (z : ℕ) → 0 < count z x → t'.nodes z ≡ t1.nodes z =
      λ z more. swap_elsewhere k n v t1 z around1 (omega (arith, once z, more)) in
    let here : 0 < v → t'.nodes v ≡ record (t.nodes v) { parent = above k } =
      λ h. in_x v (count_root x t n v h is) ∙ adopt_self v (above k) t h in
    subst (Unlinked k n x t) (sym same) (record {
      holds = (
        put_back k x t' v
            (swap_around k n v t1 pos (omega (arith, no_n)) (λ z. omega (arith, once z)) around1)
            (adopted-IsTree x t t' n (above k) v (λ z. omega (arith, once z)) here
              (λ z more ne. in_x z more ∙ adopt_other v (above k) t z ne) is),
        λ z. omega (arith, once z, count-plug k z x),
      );
      kept =
          swap_elsewhere k n v t1 n around1 (omega (arith, no_n))
          ∙ adopt_other v (above k) t n (misses x t n v n is pos (omega (arith, no_n)));
    })
  where
    positive : (z : ℕ) → 0 < count_in z k → 0 < z
    positive zero more = absurd (omega (arith, more, count_in_null k t n around))
    positive (suc z) more = omega arith
