-- ===== src/Format.antt =====
-- `printf` of common.c. A C string is the list of its bytes in front of the NUL; what `putchar`
-- gets is the list of the bytes that are printed. Each loop over digits runs on fuel.
pub mod Decimal
mod Tests
use fru1t_os.Prelude.{
  ℕ, zero, suc, ◌+◌, ◌-◌, ◌*◌, ◌/◌, ◌%◌, ◌^◌, Bool, Option, none, some, List, [], ◌∷◌, ◌++◌, ltb,
  leb, ◌==◌, if◌then◌else◌,
}

-- `while (value / divisor > 9) divisor *= 10;` over w-bit words, where `m` is 2^w
unfoldable pub find_divisor : (m fuel value divisor : ℕ) → Option ℕ
find_divisor m zero value divisor = none
find_divisor m (suc n) value divisor =
    let next = find_divisor m n value (divisor * 10 % m) in
    if ltb 9 (value / divisor) then next else some divisor

-- `while (divisor > 0) { putchar('0' + value / divisor); value %= divisor; divisor /= 10; }`
unfoldable pub put_digits : (fuel value divisor : ℕ) → Option (List ℕ)
put_digits zero value divisor = none
put_digits (suc n) value divisor =
    let rest = put_digits n (value % divisor) (divisor / 10) in
    if ltb 0 divisor
    then (elim rest [ none ↦ none | some ds ↦ some ((b'0' + value / divisor) ∷ ds) ])
    else some []

-- an `unsigned` or `unsigned long`, which is 32 bits wide: at most ten digits
unfoldable pub put_unsigned : ℕ → Option (List ℕ)
put_unsigned value = elim (find_divisor (2 ^ 32) 10 value 1) [
  | none ↦ none
  | some divisor ↦ put_digits 11 value divisor
]

-- an `int` or `long`, given by its 32 bits
unfoldable pub put_signed : ℕ → Option (List ℕ)
put_signed value =
    if ltb value (2 ^ 31)
    then put_unsigned value
    else (elim (put_unsigned ((2 ^ 32 - value) % 2 ^ 32)) [
      | none ↦ none
      | some ds ↦ some (b'-' ∷ ds)
    ])

-- "0123456789abcdef"[nibble]
abbrev pub hex_digit : ℕ → ℕ
hex_digit n = if ltb n 10 then b'0' + n else b'a' + (n - 10)

-- the loop over `i` from 7 down: `n` nibbles are left
unfoldable pub put_hex : (n value : ℕ) → List ℕ
put_hex zero value = []
put_hex (suc n) value = hex_digit (value / 16 ^ n % 16) ∷ put_hex n value

-- the digits of a `long long`, the lowest first, put in front of those that follow: the loop fills
-- `buf` and the next one prints it backwards. `n` places of `buf` are left.
unfoldable pub put_reversed : (n value : ℕ) → List ℕ → List ℕ
put_reversed zero value ds = ds
put_reversed (suc n) value ds =
    if ltb 0 value then put_reversed n (value / 10) ((b'0' + value % 10) ∷ ds) else ds

unfoldable pub put_unsigned64 : ℕ → List ℕ
put_unsigned64 value = if value == 0 then b'0' ∷ [] else put_reversed 31 value []

-- a `long long`, given by its 64 bits
unfoldable pub put_signed64 : ℕ → List ℕ
put_signed64 value =
    if ltb value (2 ^ 63)
    then put_unsigned64 value
    else b'-' ∷ put_unsigned64 ((2 ^ 64 - value) % 2 ^ 64)

-- what a caller passes: the bytes of a string, or the bits of a 32-bit or 64-bit argument
pub data Arg : Type 0 where
  str : List ℕ → Arg
  word : ℕ → Arg
  dword : ℕ → Arg

-- where the loop stands in the format: in text, behind `%`, behind `%l`, behind `%ll`
pub data Mode : Type 0 where
  text percent long long_long : Mode

abbrev pub Step : Type 0
Step = Option (List ℕ × Mode × List Arg)

-- `va_arg` for a string, a word and a double word; another argument than the format says is an error
-- of the caller
unfoldable pub take_str : List Arg → Step
take_str (str s ∷ args) = some (s, text, args)
take_str _ = none

unfoldable pub take_word : (ℕ → Option (List ℕ)) → List Arg → Step
take_word put (word w ∷ args) = elim (put w) [ none ↦ none | some ds ↦ some (ds, text, args) ]
take_word put _ = none

unfoldable pub take_dword : (ℕ → List ℕ) → List Arg → Step
take_dword put (dword w ∷ args) = some (put w, text, args)
take_dword put _ = none

-- one character of the format; a letter that the switch does not know prints nothing
unfoldable pub step : Mode → ℕ → List Arg → Step
step text c args = if c == b'%' then some ([], percent, args) else some (c ∷ [], text, args)
step percent c args =
    if c == b'%'
    then some (b'%' ∷ [], text, args)
    else if c == b's'
    then take_str args
    else if c == b'd'
    then take_word put_signed args
    else if c == b'x'
    then take_word (λ w. some (put_hex 8 w)) args
    else if c == b'u'
    then take_word put_unsigned args
    else if c == b'l'
    then some ([], long, args)
    else if c == b'p'
    then take_word (λ w. some (b'0' ∷ b'x' ∷ put_hex 8 w)) args
    else some ([], text, args)
step long c args =
    if c == b'l'
    then some ([], long_long, args)
    else if c == b'u'
    then take_word put_unsigned args
    else if c == b'd'
    then take_word put_signed args
    else some ([], text, args)
step long_long c args =
    if c == b'u'
    then take_dword put_unsigned64 args
    else if c == b'd'
    then take_dword put_signed64 args
    else some ([], text, args)

-- the output in front of that of the rest of the format
abbrev pub emit : List ℕ → Option (List ℕ) → Option (List ℕ)
emit out none = none
emit out (some rest) = some (out ++ rest)

-- `none` is an error of the caller: a wrong argument, or a format that ends in `%l` or `%ll`, whose
-- NUL the loop would run past
unfoldable pub printf : Mode → List ℕ → List Arg → Option (List ℕ)
printf text [] args = some []
printf percent [] args = some (b'%' ∷ [])
printf long [] args = none
printf long_long [] args = none
printf m (c ∷ fmt) args = elim (step m c args) [
  | none ↦ none
  | some (out, m', args') ↦ emit out (printf m' fmt args')
]
