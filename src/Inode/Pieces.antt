-- ===== src/Inode/Pieces.antt =====
-- Lists of bytes cut in two, stored and loaded.
use fru1t_os.Prelude.{
  ℕ, zero, suc, ◌+◌, ◌-◌, ◌≤◌, ◌<◌, ◌≡◌, refl, ap, sym, ◌∙◌, false, List, [], ◌∷◌, ◌++◌, ◌==◌,
  arith, length, take, get_or,
}
use fru1t_os.Fs.{store, load}
use fru1t_os.Inode.Files.{drop}

pub get_or-take : (k j : ℕ) (cs : List ℕ) → j < k → get_or (take k cs) j 0 ≡ get_or cs j 0
get_or-take zero j cs h = elim h [ ]
get_or-take (suc k) j [] h = refl
get_or-take (suc k) zero (c ∷ cs) h = refl
get_or-take (suc k) (suc j) (c ∷ cs) h = get_or-take k j cs (omega arith)

pub get_or-drop : (k j : ℕ) (cs : List ℕ) → get_or (drop k cs) j 0 ≡ get_or cs (k + j) 0
get_or-drop zero j cs = ap (λ n. get_or cs n 0) (omega arith)
get_or-drop (suc k) j [] = refl
get_or-drop (suc k) j (c ∷ cs) =
    let e : suc k + j ≡ suc (k + j) = omega arith in
    get_or-drop k j cs ∙ ap (λ n. get_or (c ∷ cs) n 0) (sym e)

pub length-drop : (k : ℕ) (cs : List ℕ) → length (drop k cs) ≡ length cs - k
length-drop zero cs = omega arith
length-drop (suc k) [] = omega arith
length-drop (suc k) (c ∷ cs) = omega (arith, length-drop k cs)

pub length-take : (k : ℕ) (cs : List ℕ) → k ≤ length cs → length (take k cs) ≡ k
length-take zero cs h = refl
length-take (suc k) [] h = absurd (omega arith)
length-take (suc k) (c ∷ cs) h = ap suc (length-take k cs (omega arith))

take_nil : (n : ℕ) → take {A = ℕ} n [] ≡ []
take_nil zero = refl
take_nil (suc n) = refl

pub take-drop : (k n : ℕ) (cs : List ℕ) → take k cs ++ take n (drop k cs) ≡ take (k + n) cs
take-drop zero n cs = ap (λ m. take m cs) (omega arith)
take-drop (suc k) n [] = take_nil n ∙ sym (take_nil (suc k + n))
take-drop (suc k) n (c ∷ cs) =
    let e : suc k + n ≡ suc (k + n) = omega arith in
    ap (λ t. c ∷ t) (take-drop k n cs) ∙ ap (λ m. take m (c ∷ cs)) (sym e)

-- the stored bytes, one by one
pub store_inside :
    (p j : ℕ) (cs : List ℕ) (m : ℕ → ℕ) → j < length cs → store p cs m (p + j) ≡ get_or cs j 0
unfolding store
store_inside p j [] m h = elim h [ ]
store_inside p zero (c ∷ cs) m h = ground arith
store_inside p (suc j) (c ∷ cs) m h =
    let ne : (p + suc j == p) ≡ false = ground arith in
    let e : p + suc j ≡ p + 1 + j = omega arith in
    rw ne (ap (store (p + 1) cs m) e ∙ store_inside (p + 1) j cs m (omega arith))

-- a load of bytes that are known one by one
pub load-take :
    (p k : ℕ) (cs : List ℕ) (m : ℕ → ℕ)
    → k ≤ length cs
    → ((j : ℕ) → j < k → m (p + j) ≡ get_or cs j 0)
    → load p k m ≡ take k cs
unfolding load
load-take p zero cs m h r = refl
load-take p (suc k) [] m h r = absurd (omega arith)
load-take p (suc k) (c ∷ cs) m h r =
    let e : p ≡ p + 0 = omega arith in
    let first : m p ≡ c = ap m e ∙ r 0 (omega arith) in
    let rest : load (p + 1) k m ≡ take k cs =
      load-take (p + 1) k cs m (omega arith) (λ j l. step j ∙ r (suc j) (omega arith)) in
    rw (first, rest) refl
  where
    step : (j : ℕ) → m (p + 1 + j) ≡ m (p + suc j)
    step j = let e : p + 1 + j ≡ p + suc j = omega arith in ap m e
