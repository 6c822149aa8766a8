-- ===== src/CString.antt =====
-- The string functions of kernel.c. A C string is the list of its bytes in front of the NUL, and a
-- pointer into it is an index. An array of characters is the list of all its bytes.
pub mod Laws
mod Tests
use fru1t_os.Prelude.{
  ℕ, zero, suc, ◌+◌, ◌-◌, ◌*◌, ◌^◌, Bool, true, false, ◌&&◌, Option, none, some, List, [], ◌∷◌, ltb,
  leb, ◌==◌, if◌then◌else◌, length,
}
use fru1t_os.Prelude.Int.{ℤ, pos, sub_ℕ}

-- the loop goes on while both strings hold the same byte; the NUL that ends a string counts as 0
unfoldable pub strcmp : List ℕ → List ℕ → ℤ
strcmp [] [] = pos 0
strcmp [] (d ∷ ds) = sub_ℕ 0 d
strcmp (c ∷ cs) [] = sub_ℕ c 0
strcmp (c ∷ cs) (d ∷ ds) = let rest = strcmp cs ds in if c == d then rest else sub_ℕ c d

abbrev pub strlen : List ℕ → ℕ
strlen [] = 0
strlen (c ∷ cs) = strlen cs + 1

-- `none` is NULL; a search for the NUL ends behind the last byte
unfoldable pub strchr : List ℕ → ℕ → Option ℕ
strchr [] c = if c == 0 then some 0 else none
strchr (d ∷ ds) c =
    let rest = strchr ds c in
    if d == c then some 0 else (elim rest [ none ↦ none | some i ↦ some (suc i) ])

-- the inner loop of `strstr` came to the end of the needle
abbrev pub starts_with : List ℕ → List ℕ → Bool
starts_with hs [] = true
starts_with [] (n ∷ ns) = false
starts_with (h ∷ hs) (n ∷ ns) = (h == n) && starts_with hs ns

unfoldable pub find_from : List ℕ → List ℕ → Option ℕ
find_from [] needle = none
find_from (h ∷ hs) needle =
    let rest = find_from hs needle in
    if starts_with (h ∷ hs) needle
    then some 0
    else (elim rest [ none ↦ none | some i ↦ some (suc i) ])

unfoldable pub strstr : List ℕ → List ℕ → Option ℕ
strstr haystack [] = some 0
strstr haystack (n ∷ ns) = find_from haystack (n ∷ ns)

-- into an array; `none` is a write behind its end
unfoldable pub strcpy : (dest src : List ℕ) → Option (List ℕ)
strcpy [] src = none
strcpy (d ∷ ds) [] = some (0 ∷ ds)
strcpy (d ∷ ds) (c ∷ cs) = elim (strcpy ds cs) [ none ↦ none | some ds' ↦ some (c ∷ ds') ]

-- the string that an array holds
unfoldable pub c_str : List ℕ → List ℕ
c_str [] = []
c_str (zero ∷ cs) = []
c_str (suc c ∷ cs) = suc c ∷ c_str cs

-- `memset` of the first `n` bytes of an array; `none` is a write behind its end
unfoldable pub memset : (s : List ℕ) (c n : ℕ) → Option (List ℕ)
memset s c zero = some s
memset [] c (suc n) = none
memset (b ∷ s) c (suc n) = elim (memset s c n) [ none ↦ none | some s' ↦ some (c ∷ s') ]

abbrev pub is_digit : ℕ → Bool
is_digit c = leb b'0' c && leb c b'9'

-- from the value of the digits so far; `none` is an overflow of `int`, which C leaves undefined
unfoldable pub str_to_int : ℕ → List ℕ → Option ℕ
str_to_int result [] = some result
str_to_int result (c ∷ cs) =
    let next : ℕ = result * 10 + (c - b'0') in
    let rest = str_to_int next cs in
    if is_digit c then (if ltb next (2 ^ 31) then rest else none) else some result
