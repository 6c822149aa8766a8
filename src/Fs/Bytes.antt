-- ===== src/Fs/Bytes.antt =====
-- Bytes that are stored in memory and loaded from it.
use fru1t_os.Prelude.{
  ℕ, zero, suc, ◌+◌, ◌≤◌, ◌<◌, ◌≡◌, ◌⊎◌, inl, inr, refl, ◌∙◌, List, [], ◌∷◌, arith, ◌==◌,
  if◌then◌else◌, length,
}
use fru1t_os.Fs.{store, load}

pub store_outside :
    (p : ℕ) (cs : List ℕ) (m : ℕ → ℕ) (a : ℕ) → (a < p) ⊎ (p + length cs ≤ a) → store p cs m a ≡ m a
unfolding store
store_outside p [] m a h = refl
store_outside p (c ∷ cs) m a h = ground (arith, store_outside (p + 1) cs m a)

pub load_ext :
    (p n : ℕ) (m m' : ℕ → ℕ) → ((a : ℕ) → p ≤ a → a < p + n → m a ≡ m' a) → load p n m ≡ load p n m'
unfolding load
load_ext p zero m m' h = refl
load_ext p (suc n) m m' h =
    let first : m p ≡ m' p = h p (omega arith) (omega arith) in
    let rest = load_ext (p + 1) n m m' (λ a l r. h a (omega arith) (omega arith)) in
    rw (first, rest) refl

-- what was stored is loaded
pub load-store : (p : ℕ) (cs : List ℕ) (m : ℕ → ℕ) → load p (length cs) (store p cs m) ≡ cs
unfolding load store
load-store p [] m = refl
load-store p (c ∷ cs) m =
    let here : (if p == p then c else store (p + 1) cs m p) ≡ c = ground arith in
    let rest : load (p + 1) (length cs) (store p (c ∷ cs) m) ≡ cs =
      load_ext (p + 1) (length cs) (store p (c ∷ cs) m) (store (p + 1) cs m) (λ a l r. ground arith)
      ∙ load-store (p + 1) cs m in
    rw (here, rest) refl

-- a load that does not meet the stored bytes
pub load-store_apart :
    (p n q : ℕ) (cs : List ℕ) (m : ℕ → ℕ)
    → (q + length cs ≤ p) ⊎ (p + n ≤ q)
    → load p n (store q cs m) ≡ load p n m
load-store_apart p n q cs m h = load_ext p n (store q cs m) m (λ a l r.
    store_outside q cs m a (elim h [ inl b ↦ inr (omega arith) | inr b ↦ inl (omega arith) ]))
