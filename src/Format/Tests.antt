-- ===== src/Format/Tests.antt =====
-- Runs of `printf`, and the theorem at a number.
use fru1t_os.Prelude.{ℕ, ◌≡◌, refl, some, List, [], ◌∷◌, arith}
use fru1t_os.Format.{
  put_unsigned, put_signed, put_hex, put_unsigned64, put_signed64, put_reversed, find_divisor,
  put_digits, printf, Mode, Arg, step, take_word,
}
use fru1t_os.Format.Decimal.{IsDecimal, put_unsigned-IsDecimal}

abbrev year : ℕ
year = 2026

unsigned_runs : put_unsigned 120 ≡ some (49 ∷ 50 ∷ 48 ∷ [])
unfolding put_unsigned find_divisor put_digits
unsigned_runs = refl

-- -7 as an `int`
signed_runs : put_signed 4294967289 ≡ some (45 ∷ 55 ∷ [])
unfolding put_signed put_unsigned find_divisor put_digits
signed_runs = refl

signed64_runs : put_signed64 18446744073709551605 ≡ 45 ∷ 49 ∷ 49 ∷ []
unfolding put_signed64 put_unsigned64 put_reversed
signed64_runs = refl

-- printf("a%x%%", 171)
printf_runs :
    printf Mode.text (97 ∷ 37 ∷ 120 ∷ 37 ∷ 37 ∷ []) (Arg.word 171 ∷ [])
    ≡ some (97 ∷ 48 ∷ 48 ∷ 48 ∷ 48 ∷ 48 ∷ 48 ∷ 97 ∷ 98 ∷ 37 ∷ [])
unfolding printf step take_word put_hex
printf_runs = refl

put_unsigned-IsDecimal_example : (ds : List ℕ) × (put_unsigned year ≡ some ds) × IsDecimal year ds
put_unsigned-IsDecimal_example = put_unsigned-IsDecimal year (omega arith)
