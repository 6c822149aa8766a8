-- ===== src/Rbtree/Order.antt =====
-- The order of a tree's nodes by a key, around a place where a node may be hung.
use fru1t_os.Prelude.{
  ℕ, suc, ◌+◌, ◌≤◌, ◌≡◌, refl, sym, ap, ◌∙◌, Bool, true, false, List, [], ◌∷◌, ◌++◌, if◌then◌else◌,
  append_assoc,
}
use fru1t_os.Rbtree.Shape.{Shape, leaf, branch, in_order, Context, top, in_left, in_right, plug}
use fru1t_os.Rbtree.First.{first_or_null}

-- the nodes to the left and to the right of a place
abbrev pub before : Context → List ℕ
before top = []
before (in_left k p c r) = before k
before (in_right k l p c) = before k ++ (in_order l ++ p ∷ [])

abbrev pub after : Context → List ℕ
after top = []
after (in_left k p c r) = p ∷ (in_order r ++ after k)
after (in_right k l p c) = after k

pub append_nil : (ps : List ℕ) → ps ++ [] ≡ ps
append_nil [] = refl
append_nil (p ∷ ps) = ap (λ t. p ∷ t) (append_nil ps)

pub in_order-around :
    (k : Context) (s : Shape) → in_order (plug k s) ≡ before k ++ (in_order s ++ after k)
in_order-around top s = sym (append_nil (in_order s))
in_order-around (in_left k p c r) s =
    in_order-around k (branch s p c r)
    ∙ ap (λ ps. before k ++ ps) (append_assoc (in_order s) (p ∷ in_order r) (after k))
in_order-around (in_right k l p c) s =
    in_order-around k (branch l p c s)
    ∙ ap (λ ps. before k ++ ps) (append_assoc (in_order l) (p ∷ in_order s) (after k))
    ∙ sym (regroup (before k) (in_order l) (in_order s ++ after k))
  where
    regroup : (b l r : List ℕ) → (b ++ (l ++ p ∷ [])) ++ r ≡ b ++ (l ++ (p ∷ r))
    regroup b l r = append_assoc b (l ++ p ∷ []) r ∙ ap (λ ps. b ++ ps) (append_assoc l (p ∷ []) r)

abbrev pub All : (ℕ → Type 0) → List ℕ → Type 0
All P [] = Unit
All P (p ∷ ps) = P p × All P ps

pub All-append : (P : ℕ → Type 0) (ps qs : List ℕ) → All P ps → All P qs → All P (ps ++ qs)
All-append P [] qs a b = b
All-append P (p ∷ ps) qs a b = (a.0, All-append P ps qs a.1 b)

pub All-imp : (P Q : ℕ → Type 0) (ps : List ℕ) → ((p : ℕ) → P p → Q p) → All P ps → All Q ps
All-imp P Q [] f a = tt
All-imp P Q (p ∷ ps) f a = (f p a.0, All-imp P Q ps f a.1)

pub All-front : (P : ℕ → Type 0) (ps qs : List ℕ) → All P (ps ++ qs) → All P ps
All-front P [] qs a = tt
All-front P (p ∷ ps) qs a = (a.0, All-front P ps qs a.1)

pub All-tail : (P : ℕ → Type 0) (ps qs : List ℕ) → All P (ps ++ qs) → All P qs
All-tail P [] qs a = a
All-tail P (p ∷ ps) qs a = All-tail P ps qs a.1

pub All-between :
    (P : ℕ → Type 0) (ps qs : List ℕ) (p : ℕ) → All P (ps ++ qs) → P p → All P (ps ++ p ∷ qs)
All-between P [] qs p a x = (x, a)
All-between P (r ∷ ps) qs p a x = (a.0, All-between P ps qs p a.1 x)

module _ (key : ℕ → ℕ) where
  -- the keys do not fall
  abbrev pub IsSorted : List ℕ → Type 0
  IsSorted [] = Unit
  IsSorted (p ∷ ps) = All (λ q. key p ≤ key q) ps × IsSorted ps

  pub tail-IsSorted : (ps qs : List ℕ) → IsSorted (ps ++ qs) → IsSorted qs
  tail-IsSorted [] qs s = s
  tail-IsSorted (p ∷ ps) qs s = tail-IsSorted ps qs s.1

  pub front-IsSorted : (ps qs : List ℕ) → IsSorted (ps ++ qs) → IsSorted ps
  front-IsSorted [] qs s = tt
  front-IsSorted (p ∷ ps) qs s =
      (All-front (λ q. key p ≤ key q) ps qs s.0, front-IsSorted ps qs s.1)

  -- what stands before a node is not above it
  pub below-IsSorted :
      (ps qs : List ℕ) (p : ℕ) → IsSorted (ps ++ p ∷ qs) → All (λ q. key q ≤ key p) ps
  below-IsSorted [] qs p s = tt
  below-IsSorted (q ∷ ps) qs p s =
      ((All-tail (λ r. key q ≤ key r) ps (p ∷ qs) s.0).0, below-IsSorted ps qs p s.1)

  pub insert-IsSorted :
      (ps qs : List ℕ) (p : ℕ)
      → IsSorted (ps ++ qs)
      → All (λ q. key q ≤ key p) ps
      → All (λ q. key p ≤ key q) qs
      → IsSorted (ps ++ p ∷ qs)
  insert-IsSorted [] qs p s low high = (high, s)
  insert-IsSorted (q ∷ ps) qs p s low high =
      (All-between (λ r. key q ≤ key r) ps qs p s.0 low.0, insert-IsSorted ps qs p s.1 low.1 high)

-- the flag says whether there is no node before
abbrev pub IsFlag : Bool → List ℕ → Type 0
IsFlag true ps = ps ≡ []
IsFlag false ps = (p : ℕ) × (qs : List ℕ) × (ps ≡ p ∷ qs)

pub first-insert :
    (m : Bool) (ps qs : List ℕ) (p : ℕ)
    → IsFlag m ps
    → first_or_null (ps ++ p ∷ qs) ≡ (if m then p else first_or_null (ps ++ qs))
first-insert true ps qs p e = rw e refl
first-insert false ps qs p (q, rs, e) = rw e refl

-- a list with a last node is not empty
pub last-IsFlag : (ps qs : List ℕ) (p : ℕ) → IsFlag false (ps ++ (qs ++ p ∷ []))
last-IsFlag [] [] p = (p, [], refl)
last-IsFlag [] (q ∷ qs) p = (q, qs ++ p ∷ [], refl)
last-IsFlag (r ∷ ps) qs p = (r, ps ++ (qs ++ p ∷ []), refl)

-- the nodes of a tree, and the longest way down
abbrev pub size : Shape → ℕ
size leaf = 0
size (branch l p c r) = suc (size l + size r)
