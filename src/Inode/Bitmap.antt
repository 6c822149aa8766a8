-- ===== src/Inode/Bitmap.antt =====
-- The bitmaps of inode.c: arrays of 32-bit words.
use Prim.Native.Nat.{bit_and, bit_or}
use native.Mathlib.Decide.{ℕ_discrete}
use fru1t_os.Prelude.{
  ℕ, zero, suc, ◌+◌, ◌-◌, ◌*◌, ◌/◌, ◌%◌, ◌^◌, ◌≤◌, ◌<◌, ◌≡◌, ◌⊎◌, inl, inr, refl, ap, ◌∙◌, Bool,
  true, false, not, Option, none, some, List, [], ◌∷◌, ◌==◌, if◌then◌else◌, arith, length, get_or,
  set, Bool-cases, Option-cases, get_or-set_self, get_or-set_ne, length-set,
}
use fru1t_os.Inode.Bits.{bit, bit_and_mask, bit-bit_or, bit-bit_and, bit_low, two_pow_pos}

-- the words of the array are set to 0
abbrev pub bitmap_init : List ℕ → List ℕ
bitmap_init [] = []
bitmap_init (w ∷ ws) = 0 ∷ bitmap_init ws

-- 1 << (bit % 32)
abbrev pub mask : ℕ → ℕ
mask b = 2 ^ (b % 32)

unfoldable pub bitmap_set : List ℕ → ℕ → List ℕ
bitmap_set m b = set m (b / 32) (bit_or (get_or m (b / 32) 0) (mask b))

unfoldable pub bitmap_clear : List ℕ → ℕ → List ℕ
bitmap_clear m b = set m (b / 32) (bit_and (get_or m (b / 32) 0) (2 ^ 32 - 1 - mask b))

unfoldable pub bitmap_test : List ℕ → ℕ → Bool
bitmap_test m b = not (bit_and (get_or m (b / 32) 0) (mask b) == 0)

-- the loop from bit `i` on, with `n` bits left
unfoldable pub find_free_from : (n i : ℕ) → List ℕ → Option ℕ
find_free_from zero i m = none
find_free_from (suc n) i m =
    let rest = find_free_from n (i + 1) m in if not (bitmap_test m i) then some i else rest

unfoldable pub bitmap_find_free : List ℕ → ℕ → Option ℕ
bitmap_find_free m max_bits = find_free_from max_bits 0 m

-- the bit that a test reads
bit_at : List ℕ → ℕ → ℕ
bit_at m b = bit (b % 32) (get_or m (b / 32) 0)

test_of_bit : (m : List ℕ) (b : ℕ) → bitmap_test m b ≡ not (bit_at m b == 0)
unfolding bitmap_test bit_at
test_of_bit m b =
    let w : ℕ = get_or m (b / 32) 0 in
    let p : 0 < mask b = two_pow_pos (b % 32) in
    rw (bit_and_mask (b % 32) w) (by_bit (bit (b % 32) w) (mask b) (bit_low (b % 32) w) p)
  where
    by_bit : (v p : ℕ) → v ≤ 1 → 0 < p → not (v * p == 0) ≡ not (v == 0)
    by_bit zero p h l = ground arith
    by_bit (suc zero) p h l = ground arith
    by_bit (suc (suc v)) p h l = absurd (omega arith)

module _ (m : List ℕ) (b c : ℕ) (h : b / 32 < length m) where
  bit_at-set : bit_at (bitmap_set m b) c ≡ (if b == c then 1 else bit_at m c)
  unfolding bit_at bitmap_set
  bit_at-set = elim (ℕ_discrete (b / 32) (c / 32)) [
    | yes e ↦
        let w : ℕ = get_or m (b / 32) 0 in
        let at : get_or (set m (b / 32) (bit_or w (mask b))) (c / 32) 0 ≡ bit_or w (mask b) =
          rw (← e) (get_or-set_self m (b / 32) (bit_or w (mask b)) 0 h) in
        let same : get_or m (c / 32) 0 ≡ w = rw e refl in
        ap (bit (c % 32)) at ∙ bit-bit_or (b % 32) (c % 32) w ∙ ground (arith, same)
    | no ne ↦
        let at = get_or-set_ne m (b / 32) (c / 32) (bit_or (get_or m (b / 32) 0) (mask b)) 0 ne in
        ap (bit (c % 32)) at ∙ ground arith
  ]

  bit_at-clear : bit_at (bitmap_clear m b) c ≡ (if b == c then 0 else bit_at m c)
  unfolding bit_at bitmap_clear
  bit_at-clear = elim (ℕ_discrete (b / 32) (c / 32)) [
    | yes e ↦
        let w : ℕ = get_or m (b / 32) 0 in
        let v : ℕ = bit_and w (2 ^ 32 - 1 - mask b) in
        let at : get_or (set m (b / 32) v) (c / 32) 0 ≡ v =
          rw (← e) (get_or-set_self m (b / 32) v 0 h) in
        let same : get_or m (c / 32) 0 ≡ w = rw e refl in
        ap (bit (c % 32)) at
        ∙ bit-bit_and 32 (b % 32) (c % 32) w (omega arith) (omega arith)
        ∙ ground (arith, same)
    | no ne ↦
        let at =
          get_or-set_ne m (b / 32) (c / 32) (bit_and (get_or m (b / 32) 0) (2 ^ 32 - 1 - mask b)) 0
            ne in
        ap (bit (c % 32)) at ∙ ground arith
  ]

  pub bitmap_test-bitmap_set :
      bitmap_test (bitmap_set m b) c ≡ (if b == c then true else bitmap_test m c)
  bitmap_test-bitmap_set =
      test_of_bit (bitmap_set m b) c
      ∙ ap (λ (v : ℕ). not (v == 0)) bit_at-set
      ∙ ground (arith, test_of_bit m c)

  pub bitmap_test-bitmap_clear :
      bitmap_test (bitmap_clear m b) c ≡ (if b == c then false else bitmap_test m c)
  bitmap_test-bitmap_clear =
      test_of_bit (bitmap_clear m b) c
      ∙ ap (λ (v : ℕ). not (v == 0)) bit_at-clear
      ∙ ground (arith, test_of_bit m c)

pub length-bitmap_set : (m : List ℕ) (b : ℕ) → length (bitmap_set m b) ≡ length m
unfolding bitmap_set
length-bitmap_set m b = length-set m (b / 32) _

pub length-bitmap_clear : (m : List ℕ) (b : ℕ) → length (bitmap_clear m b) ≡ length m
unfolding bitmap_clear
length-bitmap_clear m b = length-set m (b / 32) _

-- what the search says of the bits from `i` on
abbrev pub FirstFree : List ℕ → (n i : ℕ) → Option ℕ → Type 0
FirstFree m n i none = (j : ℕ) → i ≤ j → j < i + n → bitmap_test m j ≡ true
FirstFree m n i (some k) =
    (i ≤ k)
    × (k < i + n)
    × (bitmap_test m k ≡ false)
    × ((j : ℕ) → i ≤ j → j < k → bitmap_test m j ≡ true)

find_free_zero : (i : ℕ) (m : List ℕ) → find_free_from 0 i m ≡ none
unfolding find_free_from
find_free_zero i m = refl

find_free_hit :
    (n i : ℕ) (m : List ℕ) → bitmap_test m i ≡ false → find_free_from (suc n) i m ≡ some i
unfolding find_free_from
find_free_hit n i m t = rw t

find_free_miss :
    (n i : ℕ) (m : List ℕ)
    → bitmap_test m i ≡ true
    → find_free_from (suc n) i m ≡ find_free_from n (i + 1) m
unfolding find_free_from
find_free_miss n i m t = rw t

used_first :
    (m : List ℕ) (n i : ℕ) (o : Option ℕ)
    → bitmap_test m i ≡ true
    → FirstFree m n (i + 1) o
    → FirstFree m (suc n) i o
used_first m n i none t r =
    λ j l k. elim (ℕ_discrete i j) [ yes e ↦ rw (← e) t | no ne ↦ r j (omega arith) (omega arith) ]
used_first m n i (some k) t (l, u, f, r) = (
  omega arith,
  omega arith,
  f,
  λ j a b. elim (ℕ_discrete i j) [ yes e ↦ rw (← e) t | no ne ↦ r j (omega arith) b ],
)

find_free_from-FirstFree : (n i : ℕ) (m : List ℕ) → FirstFree m n i (find_free_from n i m)
find_free_from-FirstFree zero i m = rw (find_free_zero i m) (λ j l k. absurd (omega arith))
find_free_from-FirstFree (suc n) i m = elim (Bool-cases (bitmap_test m i)) [
  | inl t ↦
      rw (find_free_miss n i m t)
        (used_first m n i (find_free_from n (i + 1) m) t (find_free_from-FirstFree n (i + 1) m))
  | inr t ↦ rw (find_free_hit n i m t) (omega arith, omega arith, t, λ j l k. absurd (omega arith))
]

pub find_free-cases :
    (n i : ℕ) (m : List ℕ)
    → (find_free_from n i m ≡ none) × FirstFree m n i none
      ⊎ ((k : ℕ) × (find_free_from n i m ≡ some k) × FirstFree m n i (some k))
find_free-cases n i m =
    let r = find_free_from-FirstFree n i m in
    elim (Option-cases (find_free_from n i m)) [
      | inl e ↦ inl (e, rw e at r)
      | inr (k, e) ↦ inr (k, e, rw e at r)
    ]
