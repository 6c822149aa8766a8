-- ===== src/CString/Tests.antt =====
-- Runs of the string functions, and the theorems at concrete strings.
use fru1t_os.Prelude.{ℕ, ◌≡◌, refl, none, some, List, [], ◌∷◌, replicate}
use fru1t_os.Prelude.Int.{pos, negsuc}
use fru1t_os.CString.{strcmp, strchr, strstr, find_from, strcpy, memset, str_to_int}
use fru1t_os.CString.Laws.{strstr_lem, FirstOccurrence}

-- "ls", "lsx" and "12a"
abbrev ls : List ℕ
ls = 108 ∷ 115 ∷ []

abbrev lsx : List ℕ
lsx = 108 ∷ 115 ∷ 120 ∷ []

abbrev twelve : List ℕ
twelve = 49 ∷ 50 ∷ 97 ∷ []

strcmp_runs : (strcmp ls lsx ≡ negsuc 119) × (strcmp lsx ls ≡ pos 120) × (strcmp ls ls ≡ pos 0)
unfolding strcmp
strcmp_runs = (refl, refl, refl)

strchr_runs : (strchr lsx 120 ≡ some 2) × (strchr lsx 0 ≡ some 3) × (strchr lsx 97 ≡ none)
unfolding strchr
strchr_runs = (refl, refl, refl)

strstr_runs : (strstr lsx (115 ∷ 120 ∷ []) ≡ some 1) × (strstr ls lsx ≡ none)
unfolding strstr find_from
strstr_runs = (refl, refl)

strcpy_runs : strcpy (replicate 4 7) ls ≡ some (108 ∷ 115 ∷ 0 ∷ 7 ∷ [])
unfolding strcpy
strcpy_runs = refl

memset_runs : memset (replicate 3 7) 1 2 ≡ some (1 ∷ 1 ∷ 7 ∷ [])
unfolding memset
memset_runs = refl

str_to_int_runs : str_to_int 0 twelve ≡ some 12
unfolding str_to_int
str_to_int_runs = refl

-- the needle occurs at the end
strstr_lem_example : FirstOccurrence lsx (120 ∷ []) (strstr lsx (120 ∷ []))
strstr_lem_example = strstr_lem lsx (120 ∷ [])
