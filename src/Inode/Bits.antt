-- ===== src/Inode/Bits.antt =====
-- Single bits of a word under `bit_and` and `bit_or`, by the recursion on binary digits that the native
-- operations stand for.
use Prim.Native.Nat.{min, max, digits, bit_and, bit_or, bit_and-bitwise, bit_or-bitwise}
use native.Mathlib.Nat.{pow-suc, one-le-pow}
use fru1t_os.Prelude.{
  ℕ, zero, suc, ◌+◌, ◌-◌, ◌*◌, ◌/◌, ◌%◌, ◌^◌, ◌≤◌, ◌<◌, ◌≡◌, refl, ap, ◌∙◌, ◌==◌, if◌then◌else◌,
  arith,
}

-- fuel from the first operand on does not matter
digits_enough :
    (z : ℕ → ℕ) (f : ℕ → ℕ → ℕ) (n m a b : ℕ) → a ≤ n → a ≤ m → digits z f n a b ≡ digits z f m a b
digits_enough z f zero zero a b h k = refl
digits_enough z f zero (suc m) zero b h k = refl
digits_enough z f (suc n) zero zero b h k = refl
digits_enough z f (suc n) (suc m) zero b h k = refl
digits_enough z f zero (suc m) (suc a) b h k = absurd (omega arith)
digits_enough z f (suc n) zero (suc a) b h k = absurd (omega arith)
digits_enough z f (suc n) (suc m) (suc a) b h k =
    let below = digits_enough z f n m (suc a / 2) (b / 2) (omega arith) (omega arith) in
    ap (λ (t : ℕ). t * 2 + f (suc a % 2) (b % 2)) below

bit_and_halves : (a b : ℕ) → bit_and a b ≡ bit_and (a / 2) (b / 2) * 2 + min (a % 2) (b % 2)
bit_and_halves zero b = simp bit_and-bitwise (omega arith)
bit_and_halves (suc a) b = simp bit_and-bitwise (
    ap (λ (t : ℕ). t * 2 + min (suc a % 2) (b % 2))
      (digits_enough (λ y. 0) min a (suc a / 2) (suc a / 2) (b / 2) (omega arith) (omega arith)))

bit_or_halves : (a b : ℕ) → bit_or a b ≡ bit_or (a / 2) (b / 2) * 2 + max (a % 2) (b % 2)
bit_or_halves zero b = simp bit_or-bitwise (omega arith)
bit_or_halves (suc a) b = simp bit_or-bitwise (
    ap (λ (t : ℕ). t * 2 + max (suc a % 2) (b % 2))
      (digits_enough (λ y. y) max a (suc a / 2) (suc a / 2) (b / 2) (omega arith) (omega arith)))

-- bit `k` of a word
unfoldable pub bit : ℕ → ℕ → ℕ
bit zero w = w % 2
bit (suc k) w = bit k (w / 2)

pub two_pow_pos : (k : ℕ) → 0 < 2 ^ k
two_pow_pos k = omega (arith, one-le-pow k 2)

and_zero : (k w : ℕ) → w ≤ k → bit_and w 0 ≡ 0
and_zero zero zero h = refl
and_zero zero (suc w) h = absurd (omega arith)
and_zero (suc k) zero h = refl
and_zero (suc k) (suc w) h =
    omega (arith, bit_and_halves (suc w) 0, and_zero k (suc w / 2) (omega arith))

or_zero : (k w : ℕ) → w ≤ k → bit_or w 0 ≡ w
or_zero zero zero h = refl
or_zero zero (suc w) h = absurd (omega arith)
or_zero (suc k) zero h = refl
or_zero (suc k) (suc w) h =
    omega (arith, bit_or_halves (suc w) 0, or_zero k (suc w / 2) (omega arith))

-- a mask of one bit picks that bit
pub bit_and_mask : (k w : ℕ) → bit_and w (2 ^ k) ≡ bit k w * 2 ^ k
unfolding bit
bit_and_mask zero w = omega (arith, bit_and_halves w 1, and_zero (w / 2) (w / 2) (omega arith))
bit_and_mask (suc k) w =
    let half : 2 ^ suc k / 2 ≡ 2 ^ k = omega (arith, pow-suc 2 k) in
    let even : 2 ^ suc k % 2 ≡ 0 = omega (arith, pow-suc 2 k) in
    let below : bit_and w (2 ^ suc k) ≡ bit_and (w / 2) (2 ^ k) * 2 + min (w % 2) 0 =
      bit_and_halves w (2 ^ suc k)
      ∙ ap (λ (t : ℕ). bit_and (w / 2) t * 2 + min (w % 2) (2 ^ suc k % 2)) half
      ∙ ap (λ (t : ℕ). bit_and (w / 2) (2 ^ k) * 2 + min (w % 2) t) even in
    below ∙ grind (arith, bit_and_mask k (w / 2), pow-suc 2 k)

module _ (k w : ℕ) where
  or_mask_half : bit_or w (2 ^ suc k) / 2 ≡ bit_or (w / 2) (2 ^ k)
  or_mask_half =
      let half : 2 ^ suc k / 2 ≡ 2 ^ k = omega (arith, pow-suc 2 k) in
      omega (arith, bit_or_halves w (2 ^ suc k), ap (λ (t : ℕ). bit_or (w / 2) t) half, pow-suc 2 k)

  or_mask_low : bit_or w (2 ^ suc k) % 2 ≡ w % 2
  or_mask_low = omega (arith, bit_or_halves w (2 ^ suc k), pow-suc 2 k)

or_one_half : (w : ℕ) → bit_or w 1 / 2 ≡ w / 2
or_one_half w = omega (arith, bit_or_halves w 1, or_zero (w / 2) (w / 2) (omega arith))

or_one_low : (w : ℕ) → bit_or w 1 % 2 ≡ 1
or_one_low w = omega (arith, bit_or_halves w 1)

-- or with a mask of one bit sets that bit
pub bit-bit_or : (k j w : ℕ) → bit j (bit_or w (2 ^ k)) ≡ (if k == j then 1 else bit j w)
unfolding bit
bit-bit_or zero zero w = or_one_low w
bit-bit_or zero (suc j) w = ap (bit j) (or_one_half w) ∙ ground arith
bit-bit_or (suc k) zero w = or_mask_low k w ∙ ground arith
bit-bit_or (suc k) (suc j) w = ap (bit j) (or_mask_half k w) ∙ bit-bit_or k j (w / 2) ∙ ground arith

-- and with all ones keeps the bits below
ones_keep : (n j w : ℕ) → j < n → bit j (bit_and w (2 ^ n - 1)) ≡ bit j w
unfolding bit
ones_keep zero j w h = elim h [ ]
ones_keep (suc n) zero w h =
    omega (arith, bit_and_halves w (2 ^ suc n - 1), pow-suc 2 n, two_pow_pos n)
ones_keep (suc n) (suc j) w h =
    let half : (2 ^ suc n - 1) / 2 ≡ 2 ^ n - 1 = omega (arith, pow-suc 2 n, two_pow_pos n) in
    let below : bit_and w (2 ^ suc n - 1) / 2 ≡ bit_and (w / 2) (2 ^ n - 1) =
      omega (arith, bit_and_halves w (2 ^ suc n - 1), ap (λ (t : ℕ). bit_and (w / 2) t) half) in
    ap (bit j) below ∙ ones_keep n j (w / 2) (omega arith)

two_pow-lt : (k n : ℕ) → k < n → 2 ^ k + 1 ≤ 2 ^ n
two_pow-lt k zero h = elim h [ ]
two_pow-lt zero (suc n) h = omega (arith, pow-suc 2 n, two_pow_pos n)
two_pow-lt (suc k) (suc n) h = omega (arith, pow-suc 2 n, pow-suc 2 k, two_pow-lt k n)

-- and with the complement of a mask of one bit clears that bit
pub bit-bit_and :
    (n k j w : ℕ)
    → k < n
    → j < n
    → bit j (bit_and w (2 ^ n - 1 - 2 ^ k)) ≡ (if k == j then 0 else bit j w)
unfolding bit
bit-bit_and zero k j w h l = elim h [ ]
bit-bit_and (suc n) zero zero w h l =
    omega (arith, bit_and_halves w (2 ^ suc n - 1 - 1), pow-suc 2 n, two_pow_pos n)
bit-bit_and (suc n) zero (suc j) w h l =
    let half : (2 ^ suc n - 1 - 1) / 2 ≡ 2 ^ n - 1 = omega (arith, pow-suc 2 n, two_pow_pos n) in
    let below : bit_and w (2 ^ suc n - 1 - 1) / 2 ≡ bit_and (w / 2) (2 ^ n - 1) =
      omega (arith, bit_and_halves w (2 ^ suc n - 1 - 1), ap (λ (t : ℕ). bit_and (w / 2) t) half) in
    ap (bit j) below ∙ ones_keep n j (w / 2) (omega arith) ∙ ground arith
bit-bit_and (suc n) (suc k) zero w h l =
    let low : bit_and w (2 ^ suc n - 1 - 2 ^ suc k) % 2 ≡ w % 2 = omega (
      arith,
      bit_and_halves w (2 ^ suc n - 1 - 2 ^ suc k),
      pow-suc 2 n,
      pow-suc 2 k,
      two_pow_pos n,
      two_pow-lt k n,
    ) in
    low ∙ ground arith
bit-bit_and (suc n) (suc k) (suc j) w h l =
    let half : (2 ^ suc n - 1 - 2 ^ suc k) / 2 ≡ 2 ^ n - 1 - 2 ^ k =
      omega (arith, pow-suc 2 n, pow-suc 2 k, two_pow_pos n, two_pow-lt k n) in
    let below : bit_and w (2 ^ suc n - 1 - 2 ^ suc k) / 2 ≡ bit_and (w / 2) (2 ^ n - 1 - 2 ^ k) =
      omega (
        arith,
        bit_and_halves w (2 ^ suc n - 1 - 2 ^ suc k),
        ap (λ (t : ℕ). bit_and (w / 2) t) half,
      ) in
    ap (bit j) below ∙ bit-bit_and n k j (w / 2) (omega arith) (omega arith) ∙ ground arith

pub bit_low : (k w : ℕ) → bit k w ≤ 1
unfolding bit
bit_low zero w = omega arith
bit_low (suc k) w = bit_low k (w / 2)
