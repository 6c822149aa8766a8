-- ===== src/Rbtree/Settle.antt =====
-- What `rb_insert_color` of rbtree.c makes of a tree, as a function on the tree alone: the red node `n`,
-- with the trees `a` and `b` below it, at a place in the tree.
use fru1t_os.Prelude.{ℕ, ◌≡◌, refl, ◌∙◌, if◌then◌else◌, arith, append_assoc, inl, inr, Bool-cases}
use fru1t_os.Rbtree.{Color, red, black, is_red}
use fru1t_os.Rbtree.Shape.{
  Shape, leaf, branch, in_order, count, Context, top, in_left, in_right, plug,
}
use fru1t_os.Rbtree.Place.{count-plug, in_order-plug}

-- the colour of the root
abbrev pub tone : Shape → Color
tone leaf = black
tone (branch l p c r) = c

abbrev pub blacken : Shape → Shape
blacken leaf = leaf
blacken (branch l p c r) = branch l p black r

unfoldable pub settle : Context → (a : Shape) (n : ℕ) (b : Shape) → Shape
settle top a n b = branch a n red b
settle (in_left k p black s) a n b = plug k (branch (branch a n red b) p black s)
settle (in_right k s p black) a n b = plug k (branch s p black (branch a n red b))
settle (in_left top p red s) a n b = branch (branch a n red b) p red s
settle (in_right top s p red) a n b = branch s p red (branch a n red b)
settle (in_left (in_left k g c u) p red s) a n b =
    let rest = settle k (branch (branch a n red b) p black s) g (blacken u) in
    if is_red (tone u) then rest else plug k (branch (branch a n red b) p black (branch s g red u))
settle (in_right (in_left k g c u) s p red) a n b =
    let rest = settle k (branch s p black (branch a n red b)) g (blacken u) in
    if is_red (tone u) then rest else plug k (branch (branch s p red a) n black (branch b g red u))
settle (in_left (in_right k u g c) p red s) a n b =
    let rest = settle k (blacken u) g (branch (branch a n red b) p black s) in
    if is_red (tone u) then rest else plug k (branch (branch u g red a) n black (branch b p red s))
settle (in_right (in_right k u g c) s p red) a n b =
    let rest = settle k (blacken u) g (branch s p black (branch a n red b)) in
    if is_red (tone u) then rest else plug k (branch (branch u g red s) p black (branch a n red b))

pub in_order-blacken : (s : Shape) → in_order (blacken s) ≡ in_order s
in_order-blacken leaf = refl
in_order-blacken (branch l p c r) = refl

pub count-blacken : (s : Shape) (z : ℕ) → count z (blacken s) ≡ count z s
count-blacken leaf z = refl
count-blacken (branch l p c r) z = refl

count-plug_same :
    (k : Context) (z : ℕ) (s s' : Shape)
    → count z s ≡ count z s'
    → count z (plug k s) ≡ count z (plug k s')
count-plug_same k z s s' e = omega (arith, count-plug k z s, count-plug k z s')

-- the nodes stand in the same order
pub in_order-settle :
    (k : Context) (a : Shape) (n : ℕ) (b : Shape)
    → in_order (settle k a n b) ≡ in_order (plug k (branch a n red b))
unfolding settle
in_order-settle top a n b = refl
in_order-settle (in_left k p black s) a n b = refl
in_order-settle (in_right k s p black) a n b = refl
in_order-settle (in_left top p red s) a n b = refl
in_order-settle (in_right top s p red) a n b = refl
in_order-settle (in_left (in_left k g c u) p red s) a n b =
    let old = branch (branch (branch a n red b) p red s) g c u in
    let up = branch (branch (branch a n red b) p black s) g red (blacken u) in
    let turned = branch (branch a n red b) p black (branch s g red u) in
    let climbed : in_order up ≡ in_order old = simp (in_order-blacken u, append_assoc) in
    let same : in_order turned ≡ in_order old = simp append_assoc in
    elim (Bool-cases (is_red (tone u))) [
      | inl t ↦ rw t (
          in_order-settle k (branch (branch a n red b) p black s) g (blacken u)
          ∙ in_order-plug k up old climbed)
      | inr t ↦ rw t (in_order-plug k turned old same)
    ]
in_order-settle (in_right (in_left k g c u) s p red) a n b =
    let old = branch (branch s p red (branch a n red b)) g c u in
    let up = branch (branch s p black (branch a n red b)) g red (blacken u) in
    let turned = branch (branch s p red a) n black (branch b g red u) in
    let climbed : in_order up ≡ in_order old = simp (in_order-blacken u, append_assoc) in
    let same : in_order turned ≡ in_order old = simp append_assoc in
    elim (Bool-cases (is_red (tone u))) [
      | inl t ↦ rw t (
          in_order-settle k (branch s p black (branch a n red b)) g (blacken u)
          ∙ in_order-plug k up old climbed)
      | inr t ↦ rw t (in_order-plug k turned old same)
    ]
in_order-settle (in_left (in_right k u g c) p red s) a n b =
    let old = branch u g c (branch (branch a n red b) p red s) in
    let up = branch (blacken u) g red (branch (branch a n red b) p black s) in
    let turned = branch (branch u g red a) n black (branch b p red s) in
    let climbed : in_order up ≡ in_order old = simp (in_order-blacken u, append_assoc) in
    let same : in_order turned ≡ in_order old = simp append_assoc in
    elim (Bool-cases (is_red (tone u))) [
      | inl t ↦ rw t (
          in_order-settle k (blacken u) g (branch (branch a n red b) p black s)
          ∙ in_order-plug k up old climbed)
      | inr t ↦ rw t (in_order-plug k turned old same)
    ]
in_order-settle (in_right (in_right k u g c) s p red) a n b =
    let old = branch u g c (branch s p red (branch a n red b)) in
    let up = branch (blacken u) g red (branch s p black (branch a n red b)) in
    let turned = branch (branch u g red s) p black (branch a n red b) in
    let climbed : in_order up ≡ in_order old = simp (in_order-blacken u) in
    let same : in_order turned ≡ in_order old = simp append_assoc in
    elim (Bool-cases (is_red (tone u))) [
      | inl t ↦ rw t (
          in_order-settle k (blacken u) g (branch s p black (branch a n red b))
          ∙ in_order-plug k up old climbed)
      | inr t ↦ rw t (in_order-plug k turned old same)
    ]

-- and none is lost or new
pub count-settle :
    (k : Context) (a : Shape) (n : ℕ) (b : Shape) (z : ℕ)
    → count z (settle k a n b) ≡ count z (plug k (branch a n red b))
unfolding settle
count-settle top a n b z = refl
count-settle (in_left k p black s) a n b z = refl
count-settle (in_right k s p black) a n b z = refl
count-settle (in_left top p red s) a n b z = refl
count-settle (in_right top s p red) a n b z = refl
count-settle (in_left (in_left k g c u) p red s) a n b z =
    let old = branch (branch (branch a n red b) p red s) g c u in
    let up = branch (branch (branch a n red b) p black s) g red (blacken u) in
    let turned = branch (branch a n red b) p black (branch s g red u) in
    elim (Bool-cases (is_red (tone u))) [
      | inl t ↦ rw t (
          count-settle k (branch (branch a n red b) p black s) g (blacken u) z
          ∙ count-plug_same k z up old (omega (arith, count-blacken u z)))
      | inr t ↦ rw t (count-plug_same k z turned old (omega arith))
    ]
count-settle (in_right (in_left k g c u) s p red) a n b z =
    let old = branch (branch s p red (branch a n red b)) g c u in
    let up = branch (branch s p black (branch a n red b)) g red (blacken u) in
    let turned = branch (branch s p red a) n black (branch b g red u) in
    elim (Bool-cases (is_red (tone u))) [
      | inl t ↦ rw t (
          count-settle k (branch s p black (branch a n red b)) g (blacken u) z
          ∙ count-plug_same k z up old (omega (arith, count-blacken u z)))
      | inr t ↦ rw t (count-plug_same k z turned old (omega arith))
    ]
count-settle (in_left (in_right k u g c) p red s) a n b z =
    let old = branch u g c (branch (branch a n red b) p red s) in
    let up = branch (blacken u) g red (branch (branch a n red b) p black s) in
    let turned = branch (branch u g red a) n black (branch b p red s) in
    elim (Bool-cases (is_red (tone u))) [
      | inl t ↦ rw t (
          count-settle k (blacken u) g (branch (branch a n red b) p black s) z
          ∙ count-plug_same k z up old (omega (arith, count-blacken u z)))
      | inr t ↦ rw t (count-plug_same k z turned old (omega arith))
    ]
count-settle (in_right (in_right k u g c) s p red) a n b z =
    let old = branch u g c (branch s p red (branch a n red b)) in
    let up = branch (blacken u) g red (branch s p black (branch a n red b)) in
    let turned = branch (branch u g red s) p black (branch a n red b) in
    elim (Bool-cases (is_red (tone u))) [
      | inl t ↦ rw t (
          count-settle k (blacken u) g (branch s p black (branch a n red b)) z
          ∙ count-plug_same k z up old (omega (arith, count-blacken u z)))
      | inr t ↦ rw t (count-plug_same k z turned old (omega arith))
    ]
