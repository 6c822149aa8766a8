-- ===== src/Rbtree/Size.antt =====
-- How many nodes a tree has, by the addresses that may stand in it.
use native.Mathlib.Decide.{ℕ_discrete}
use fru1t_os.Rbtree.{Color}
use fru1t_os.Rbtree.Place.{counts_itself}
use fru1t_os.Prelude.{
  ℕ, zero, suc, ◌+◌, ◌≤◌, ◌<◌, ◌≡◌, refl, ◌==◌, List, [], ◌∷◌, ◌++◌, if◌then◌else◌, arith,
}
use fru1t_os.Rbtree.Shape.{Shape, leaf, branch, in_order, count, IsDistinct}
use fru1t_os.Rbtree.Order.{size}

-- how often `z` stands in a list
abbrev pub occurs : ℕ → List ℕ → ℕ
occurs z [] = 0
occurs z (p ∷ ps) = (if p == z then 1 else 0) + occurs z ps

pub occurs-append : (z : ℕ) (ps qs : List ℕ) → occurs z (ps ++ qs) ≡ occurs z ps + occurs z qs
occurs-append z [] qs = omega arith
occurs-append z (p ∷ ps) qs = omega (arith, occurs-append z ps qs)

pub occurs-in_order : (z : ℕ) (s : Shape) → occurs z (in_order s) ≡ count z s
occurs-in_order z leaf = refl
occurs-in_order z (branch l p c r) =
    omega (
      arith,
      occurs-append z (in_order l) (p ∷ in_order r),
      occurs-in_order z l,
      occurs-in_order z r,
    )

-- the nodes with an address of 1 to `n`
abbrev total : ℕ → Shape → ℕ
total zero s = 0
total (suc n) s = count (suc n) s + total n s

abbrev one_of : ℕ → ℕ → ℕ
one_of zero p = 0
one_of (suc n) p = (if p == suc n then 1 else 0) + one_of n p

total_le : (n : ℕ) (s : Shape) → IsDistinct s → total n s ≤ n
total_le zero s once = omega arith
total_le (suc n) s once = omega (arith, once (suc n), total_le n s once)

total-branch :
    (n : ℕ) (l : Shape) (p : ℕ) (c : Color) (r : Shape)
    → total n (branch l p c r) ≡ one_of n p + total n l + total n r
total-branch zero l p c r = refl
total-branch (suc n) l p c r = omega (arith, total-branch n l p c r)

one_of_hit : (n p : ℕ) → 0 < p → p ≤ n → 1 ≤ one_of n p
one_of_hit zero p h k = omega arith
one_of_hit (suc n) p h k = elim (ℕ_discrete p (suc n)) [
  | yes e ↦
      let hit : ◌≡◌ {A = ℕ} (if p == suc n then 1 else 0) 1 = ground arith in omega (arith, hit)
  | no ne ↦ omega (arith, one_of_hit n p h (omega arith))
]

size_le_total :
    (n : ℕ) (s : Shape) → ((z : ℕ) → 0 < count z s → (0 < z) × (z ≤ n)) → size s ≤ total n s
size_le_total n leaf inside = omega arith
size_le_total n (branch l p c r) inside =
    let at : (0 < p) × (p ≤ n) = inside p (omega (arith, counts_itself p)) in
    omega (
      arith,
      total-branch n l p c r,
      one_of_hit n p at.0 at.1,
      size_le_total n l (λ z h. inside z (omega arith)),
      size_le_total n r (λ z h. inside z (omega arith)),
    )

-- a tree of different nodes with addresses of 1 to `n` has at most `n` of them
pub size_le :
    (n : ℕ) (s : Shape) → IsDistinct s → ((z : ℕ) → 0 < count z s → (0 < z) × (z ≤ n)) → size s ≤ n
size_le n s once inside = omega (arith, size_le_total n s inside, total_le n s once)
