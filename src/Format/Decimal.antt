-- ===== src/Format/Decimal.antt =====
-- What the digit loops print is the decimal notation of the number.
use fru1t_os.Prelude.{
  ℕ, zero, suc, ◌+◌, ◌-◌, ◌*◌, ◌/◌, ◌%◌, ◌^◌, ◌≤◌, ◌<◌, ◌≡◌, ◌⊎◌, inl, inr, refl, ◌∙◌, true, false,
  some, List, [], ◌∷◌, ltb, arith, length, Bool-cases, lt→ltb, ltb→lt,
}
use native.Mathlib.Nat.{
  div-add-mod, mod-lt, mod-eq_of_lt, mul_comm, le-div_iff_mul-le, div-lt_iff_lt-mul,
}
use fru1t_os.Format.{find_divisor, put_digits, put_unsigned}

-- the number that a list of decimal digits stands for, behind those that gave `acc`
abbrev pub read_digits : ℕ → List ℕ → ℕ
read_digits acc [] = acc
read_digits acc (c ∷ cs) = read_digits (acc * 10 + (c - b'0')) cs

abbrev pub AllDigits : List ℕ → Type 0
AllDigits [] = Unit
AllDigits (c ∷ cs) = (b'0' ≤ c) × (c ≤ b'9') × AllDigits cs

-- 10 ^ k
unfoldable pub pow10 : ℕ → ℕ
pow10 zero = 1
pow10 (suc k) = 10 * pow10 k

pow10_pos : (k : ℕ) → 0 < pow10 k
unfolding pow10
pow10_pos zero = omega arith
pow10_pos (suc k) = omega (arith, pow10_pos k)

-- the digits `ds` are those of `value`, filled with zeros to `k` places
record Digits (k value : ℕ) (ds : List ℕ) : Type 0 where
  digits : AllDigits ds
  places : length ds ≡ k
  reads : (acc : ℕ) → read_digits acc ds ≡ acc * pow10 k + value

put_digits_zero : (fuel value : ℕ) → put_digits (suc fuel) value 0 ≡ some []
unfolding put_digits
put_digits_zero fuel value = refl

put_digits_pos :
    (fuel value divisor : ℕ) (ds : List ℕ)
    → 0 < divisor
    → put_digits fuel (value % divisor) (divisor / 10) ≡ some ds
    → put_digits (suc fuel) value divisor ≡ some ((b'0' + value / divisor) ∷ ds)
unfolding put_digits
put_digits_pos fuel value divisor ds h e = rw (lt→ltb 0 divisor h, e)

-- the first digit of a number below ten times `d`, and the rest
leading_digit :
    (value d : ℕ) → 0 < d → value < 10 * d → (value / d ≤ 9) × (value / d * d + value % d ≡ value)
leading_digit value d pos h = grind (arith, div-add-mod)

Digits-cons :
    (k q r value : ℕ) (ds : List ℕ)
    → q ≤ 9
    → q * pow10 k + r ≡ value
    → Digits k r ds
    → Digits (suc k) value ((b'0' + q) ∷ ds)
unfolding pow10
Digits-cons k q r value ds small e d = record {
  digits = (omega arith, omega arith, d.digits);
  places = omega (arith, d.places);
  reads = λ acc. d.reads (acc * 10 + (b'0' + q - b'0')) ∙ grind arith;
}

Digits-nil : Digits 0 0 []
unfolding pow10
Digits-nil = record { digits = tt; places = refl; reads = λ acc. omega arith }

put_digits-Digits :
    (k n value : ℕ)
    → k < n
    → value < pow10 (suc k)
    → (ds : List ℕ) × (put_digits (suc n) value (pow10 k) ≡ some ds) × Digits (suc k) value ds
unfolding pow10
put_digits-Digits k zero value l h = elim l [ ]
put_digits-Digits zero (suc n) value l h = (
  (b'0' + value / 1) ∷ [],
  put_digits_pos (suc n) value 1 [] (omega arith) (put_digits_zero n (value % 1)),
  Digits-cons 0 (value / 1) 0 value [] (omega arith) (omega arith) Digits-nil,
)
put_digits-Digits (suc k) (suc n) value l h =
    let p : 0 < pow10 k = pow10_pos k in
    let d : ℕ = 10 * pow10 k in
    let (small, split) = leading_digit value d (omega arith) h in
    let (ds, e, dig) =
      put_digits-Digits k n (value % d) (omega arith) (mod-lt value (omega arith)) in
    let tenth : d / 10 ≡ pow10 k = omega arith in
    (
      (b'0' + value / d) ∷ ds,
      put_digits_pos (suc n) value d ds (omega arith) (rw tenth e),
      Digits-cons (suc k) (value / d) (value % d) value ds small split dig,
    )

-- the divisor that the first loop finds
record Divisor (k value j : ℕ) : Type 0 where
  reaches : value < pow10 (suc j)
  no_zero : (j ≡ k) ⊎ (pow10 j ≤ value)

module _ (m n value d : ℕ) where
  find_divisor_stop : ltb 9 (value / d) ≡ false → find_divisor m (suc n) value d ≡ some d
  unfolding find_divisor
  find_divisor_stop t = rw t

  find_divisor_next :
      ltb 9 (value / d) ≡ true
      → d * 10 < m
      → find_divisor m (suc n) value d ≡ find_divisor m n value (10 * d)
  unfolding find_divisor
  find_divisor_next t h =
      let same : d * 10 % m ≡ 10 * d = mod-eq_of_lt h ∙ mul_comm d 10 in rw (t, same)

  ten_reached : 0 < d → ltb 9 (value / d) ≡ true → 10 * d ≤ value
  ten_reached pos t = (le-div_iff_mul-le pos).0 (ltb→lt 9 (value / d) t)

  ten_not_reached : 0 < d → ltb 9 (value / d) ≡ false → value < 10 * d
  ten_not_reached pos t = (div-lt_iff_lt-mul pos).0 (ground arith)

find_divisor-Divisor :
    (m n k e value : ℕ)
    → value < m
    → e ≡ k + suc n
    → value < pow10 e
    → (j : ℕ) × (find_divisor m (suc n) value (pow10 k) ≡ some (pow10 j))
      × (j < e)
      × Divisor k value j
unfolding pow10
find_divisor-Divisor m zero k e value small ek h =
    let ek' : e ≡ suc k = omega arith in
    elim (Bool-cases (ltb 9 (value / pow10 k))) [
      | inl go ↦
          let more = ten_reached m zero value (pow10 k) (pow10_pos k) go in
          let below : value < 10 * pow10 k = rw ek' at h in absurd (omega arith)
      | inr stop ↦ (
        k,
        find_divisor_stop m zero value (pow10 k) stop,
        omega arith,
        record {
          reaches = ten_not_reached m zero value (pow10 k) (pow10_pos k) stop;
          no_zero = inl refl;
        },
      )
    ]
find_divisor-Divisor m (suc n) k e value small ek h = elim (Bool-cases (ltb 9 (value / pow10 k))) [
  | inl go ↦
      let more = ten_reached m (suc n) value (pow10 k) (pow10_pos k) go in
      let (j, found, l, d) = find_divisor-Divisor m n (suc k) e value small (omega arith) h in
      (
        j,
        find_divisor_next m (suc n) value (pow10 k) go (omega arith) ∙ found,
        l,
        record { reaches = d.reaches; no_zero = inr (leading j more d.no_zero) },
      )
  | inr stop ↦ (
    k,
    find_divisor_stop m (suc n) value (pow10 k) stop,
    omega arith,
    record {
      reaches = ten_not_reached m (suc n) value (pow10 k) (pow10_pos k) stop;
      no_zero = inl refl;
    },
  )
]
  where
    leading : (j : ℕ) → 10 * pow10 k ≤ value → (j ≡ suc k) ⊎ (pow10 j ≤ value) → pow10 j ≤ value
    leading j more (inl same) = rw same more
    leading j more (inr large) = large

-- what is printed for a number: its decimal digits, no more places than it has
pub record IsDecimal (value : ℕ) (ds : List ℕ) : Type 0 where
  pub digits : AllDigits ds
  pub reads : read_digits 0 ds ≡ value
  pub shortest : (length ds ≡ 1) ⊎ ((k : ℕ) × (length ds ≡ suc k) × (pow10 k ≤ value))

put_unsigned_by :
    (value d : ℕ) (ds : List ℕ)
    → find_divisor (2 ^ 32) 10 value 1 ≡ some d
    → put_digits 11 value d ≡ some ds
    → put_unsigned value ≡ some ds
unfolding put_unsigned
put_unsigned_by value d ds e h = rw (e, put_unsigned) h

below_ten_digits : (value : ℕ) → value < 2 ^ 32 → value < pow10 10
unfolding pow10
below_ten_digits value h = omega arith

pow10-zero : pow10 0 ≡ 1
unfolding pow10
pow10-zero = refl

-- `%u` and `%lu` of a 32-bit number print, with no loop running out of fuel and no divisor
-- overflowing, the decimal digits of the number, without zeros in front.
pub put_unsigned-IsDecimal :
    (value : ℕ)
    → value < 2 ^ 32
    → (ds : List ℕ) × (put_unsigned value ≡ some ds) × IsDecimal value ds
put_unsigned-IsDecimal value h =
    let (j, found, l, d) =
      find_divisor-Divisor (2 ^ 32) 9 0 10 value h refl (below_ten_digits value h) in
    let (ds, e, dig) = put_digits-Digits j 10 value l d.reaches in
    (
      ds,
      put_unsigned_by value (pow10 j) ds (rw pow10-zero at found) e,
      record {
        digits = dig.digits;
        reads = dig.reads 0 ∙ omega arith;
        shortest = shortest j d.no_zero dig.places;
      },
    )
  where
    shortest :
        {n : ℕ} (j : ℕ)
        → (j ≡ 0) ⊎ (pow10 j ≤ value)
        → n ≡ suc j
        → (n ≡ 1) ⊎ ((k : ℕ) × (n ≡ suc k) × (pow10 k ≤ value))
    shortest j (inl z) e = inl (omega arith)
    shortest j (inr p) e = inr (j, e, p)
