-- ===== src/Rbtree/Place.antt =====
-- A place in a tree of nodes: what stands there can be taken out and put back.
use fru1t_os.Prelude.{
  ℕ, ◌+◌, ◌<◌, ◌≡◌, ◌≢◌, refl, ap, ◌∙◌, false, ◌==◌, ◌∷◌, ◌++◌, if◌then◌else◌, arith,
}
use fru1t_os.Rbtree.{RbTree}
use fru1t_os.Rbtree.Shape.{
  Shape, leaf, branch, in_order, count, IsDistinct, IsTree, Represents, Context, top, in_left,
  in_right, plug, above,
}

-- how often the node `z` stands around a place
abbrev pub count_in : ℕ → Context → ℕ
count_in z top = 0
count_in z (in_left k p c r) = (if p == z then 1 else 0) + count z r + count_in z k
count_in z (in_right k l p c) = (if p == z then 1 else 0) + count z l + count_in z k

pub counts_itself : (p : ℕ) → ◌≡◌ {A = ℕ} (if p == p then 1 else 0) 1
counts_itself p = ground arith

pub count-plug : (k : Context) (z : ℕ) (s : Shape) → count z (plug k s) ≡ count_in z k + count z s
count-plug top z s = omega arith
count-plug (in_left k p c r) z s = omega (arith, count-plug k z (branch s p c r))
count-plug (in_right k l p c) z s = omega (arith, count-plug k z (branch l p c s))

pub in_order-plug :
    (k : Context) (s s' : Shape)
    → in_order s ≡ in_order s'
    → in_order (plug k s) ≡ in_order (plug k s')
in_order-plug top s s' e = e
in_order-plug (in_left k p c r) s s' e =
    in_order-plug k (branch s p c r) (branch s' p c r) (ap (λ ps. ps ++ p ∷ in_order r) e)
in_order-plug (in_right k l p c) s s' e =
    in_order-plug k (branch l p c s) (branch l p c s') (ap (λ ps. in_order l ++ p ∷ ps) e)

-- the nodes around a place that holds the pointer `h`
abbrev pub IsContext : RbTree → Context → (h : ℕ) → Type 0
IsContext t top h = t.rb_node ≡ h
IsContext t (in_left k p c r) h =
    (0 < p)
    × ((t.nodes p).parent ≡ above k)
    × ((t.nodes p).color ≡ c)
    × ((t.nodes p).left ≡ h)
    × IsTree t p (t.nodes p).right r
    × IsContext t k p
IsContext t (in_right k l p c) h =
    (0 < p)
    × ((t.nodes p).parent ≡ above k)
    × ((t.nodes p).color ≡ c)
    × IsTree t p (t.nodes p).left l
    × ((t.nodes p).right ≡ h)
    × IsContext t k p

pub take_out :
    (k : Context) (s : Shape) (t : RbTree)
    → Represents t (plug k s)
    → (h : ℕ) × IsContext t k h × IsTree t (above k) h s
take_out top s t r = (t.rb_node, refl, r)
take_out (in_left k p c r) s t is =
    let (h, around, (same, pos, par, col, l, right)) = take_out k (branch s p c r) t is in
    ((t.nodes p).left, (pos, par, col, refl, right, rw (← same) around), l)
take_out (in_right k l p c) s t is =
    let (h, around, (same, pos, par, col, left, r)) = take_out k (branch l p c s) t is in
    ((t.nodes p).right, (pos, par, col, left, refl, rw (← same) around), r)

pub put_back :
    (k : Context) (s : Shape) (t : RbTree) (h : ℕ)
    → IsContext t k h
    → IsTree t (above k) h s
    → Represents t (plug k s)
put_back top s t h around is = rw around is
put_back (in_left k p c r) s t h (pos, par, col, left, right, around) is =
    put_back k (branch s p c r) t p around (refl, pos, par, col, rw left is, right)
put_back (in_right k l p c) s t h (pos, par, col, left, right, around) is =
    put_back k (branch l p c s) t p around (refl, pos, par, col, left, rw right is)

-- the root of a tree stands in it
pub count_root : (s : Shape) (t : RbTree) (q p : ℕ) → 0 < p → IsTree t q p s → 0 < count p s
count_root leaf t q p h is = absurd (omega (arith, is))
count_root (branch l a c r) t q p h (same, pos, par, col, left, right) =
    omega (arith, counts_itself a, ap (λ z. count z (branch l a c r)) same)

-- a tree whose nodes are untouched
pub kept-IsTree :
    (s : Shape) (t t' : RbTree) (q p : ℕ)
    → ((z : ℕ) → 0 < count z s → t'.nodes z ≡ t.nodes z)
    → IsTree t q p s
    → IsTree t' q p s
kept-IsTree leaf t t' q p same is = is
kept-IsTree (branch l a c r) t t' q p same (at, pos, par, col, left, right) =
    let e : t'.nodes a ≡ t.nodes a = same a (omega (arith, counts_itself a)) in
    rw e (
      at,
      pos,
      par,
      col,
      kept-IsTree l t t' a (t.nodes a).left (λ z h. same z (omega arith)) left,
      kept-IsTree r t t' a (t.nodes a).right (λ z h. same z (omega arith)) right,
    )

-- a tree that gets another parent
pub adopted-IsTree :
    (s : Shape) (t t' : RbTree) (q q' p : ℕ)
    → IsDistinct s
    → (0 < p → t'.nodes p ≡ record (t.nodes p) { parent = q' })
    → ((z : ℕ) → 0 < count z s → p ≢ z → t'.nodes z ≡ t.nodes z)
    → IsTree t q p s
    → IsTree t' q' p s
adopted-IsTree leaf t t' q q' p once at same is = is
adopted-IsTree (branch l a c r) t t' q q' p once at same (e, pos, par, col, left, right) =
    let n : t'.nodes a ≡ record (t.nodes a) { parent = q' } = rw (← e) (at (rw e pos)) in
    let below : (z : ℕ) → 0 < count z l + count z r → a ≢ z = λ z h ne. ground (arith, once a) in
    rw n (
      e,
      pos,
      refl,
      col,
      kept-IsTree l t t' a (t.nodes a).left
          (λ z h. same z (omega arith) (rw e (below z (omega arith)))) left,
      kept-IsTree r t t' a (t.nodes a).right
          (λ z h. same z (omega arith) (rw e (below z (omega arith)))) right,
    )

-- the nodes around a place that are untouched
pub kept-IsContext :
    (k : Context) (t t' : RbTree) (h : ℕ)
    → ((z : ℕ) → 0 < count_in z k → t'.nodes z ≡ t.nodes z)
    → t'.rb_node ≡ t.rb_node
    → IsContext t k h
    → IsContext t' k h
kept-IsContext top t t' h same root is = root ∙ is
kept-IsContext (in_left k p c r) t t' h same root (pos, par, col, left, right, around) =
    let e : t'.nodes p ≡ t.nodes p = same p (omega (arith, counts_itself p)) in
    rw e (
      pos,
      par,
      col,
      left,
      kept-IsTree r t t' p (t.nodes p).right (λ z lt. same z (omega arith)) right,
      kept-IsContext k t t' p (λ z lt. same z (omega arith)) root around,
    )
kept-IsContext (in_right k l p c) t t' h same root (pos, par, col, left, right, around) =
    let e : t'.nodes p ≡ t.nodes p = same p (omega (arith, counts_itself p)) in
    rw e (
      pos,
      par,
      col,
      kept-IsTree l t t' p (t.nodes p).left (λ z lt. same z (omega arith)) left,
      right,
      kept-IsContext k t t' p (λ z lt. same z (omega arith)) root around,
    )

-- NULL stands nowhere
pub count_null : (s : Shape) (t : RbTree) (q p : ℕ) → IsTree t q p s → count 0 s ≡ 0
count_null leaf t q p is = refl
count_null (branch l a c r) t q p (e, pos, par, col, left, right) =
    let miss : (a == 0) ≡ false = ground arith in
    let miss' : ◌≡◌ {A = ℕ} (if a == 0 then 1 else 0) 0 = rw miss refl in
    omega (
      arith,
      miss',
      count_null l t a (t.nodes a).left left,
      count_null r t a (t.nodes a).right right,
    )

pub count_in_null : (k : Context) (t : RbTree) (h : ℕ) → IsContext t k h → count_in 0 k ≡ 0
count_in_null top t h is = refl
count_in_null (in_left k p c r) t h (pos, par, col, left, right, around) =
    let miss : ◌≡◌ {A = ℕ} (if p == 0 then 1 else 0) 0 = ground arith in
    omega (arith, miss, count_null r t p (t.nodes p).right right, count_in_null k t p around)
count_in_null (in_right k l p c) t h (pos, par, col, left, right, around) =
    let miss : ◌≡◌ {A = ℕ} (if p == 0 then 1 else 0) 0 = ground arith in
    omega (arith, miss, count_null l t p (t.nodes p).left left, count_in_null k t p around)

-- the node above a place stands around it
pub count_above : (k : Context) → 0 < above k → 0 < count_in (above k) k
count_above top h = absurd (omega (arith, h))
count_above (in_left k p c r) h = omega (arith, counts_itself p)
count_above (in_right k l p c) h = omega (arith, counts_itself p)
