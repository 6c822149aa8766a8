-- ===== src/CString/Laws.antt =====
-- What the string functions compute.
use fru1t_os.Prelude.{
  ℕ, zero, suc, ◌≤◌, ◌<◌, ◌≡◌, ◌↔◌, ◌⊎◌, inl, inr, refl, ap, ◌∙◌, sym, true, false, Option, none,
  some, List, [], ◌∷◌, ◌++◌, arith, ltb, length, Bool-cases,
}
use fru1t_os.Prelude.Int.{pos}
use fru1t_os.CString.{strcmp, starts_with, find_from, strstr, strcpy, c_str}

-- no NUL among the bytes
abbrev pub IsString : List ℕ → Type 0
IsString [] = Unit
IsString (c ∷ cs) = (0 < c) × IsString cs

pub c_str-IsString : (cs : List ℕ) → IsString (c_str cs)
unfolding c_str
c_str-IsString [] = tt
c_str-IsString (zero ∷ cs) = tt
c_str-IsString (suc c ∷ cs) = (omega arith, c_str-IsString cs)

strcmp_eq : (s t : List ℕ) → IsString s → IsString t → strcmp s t ≡ pos 0 → s ≡ t
unfolding strcmp
strcmp_eq [] [] hs ht e = refl
strcmp_eq [] (d ∷ ds) hs ht e = ground arith
strcmp_eq (c ∷ cs) [] hs ht e = ground arith
strcmp_eq (c ∷ cs) (d ∷ ds) hs ht e = ground (arith, strcmp_eq cs ds)

strcmp_self : (s : List ℕ) → strcmp s s ≡ pos 0
unfolding strcmp
strcmp_self [] = refl
strcmp_self (c ∷ cs) = ground (arith, strcmp_self cs)

-- `strcmp` of two C strings is 0 exactly when they hold the same bytes.
pub strcmp_iff : (s t : List ℕ) → IsString s → IsString t → (strcmp s t ≡ pos 0) ↔ (s ≡ t)
strcmp_iff s t hs ht = (strcmp_eq s t hs ht, λ e. rw (← e) (strcmp_self s))

pub length-strcpy :
    (dest src : List ℕ)
    → IsString src
    → length src < length dest
    → (d : List ℕ) × (strcpy dest src ≡ some d) × (length d ≡ length dest) × (c_str d ≡ src)
unfolding strcpy c_str
length-strcpy [] src hs h = elim h [ ]
length-strcpy (d ∷ ds) [] hs h = (0 ∷ ds, refl, refl, refl)
length-strcpy (d ∷ ds) (zero ∷ cs) hs h = absurd (omega (arith, hs.0))
length-strcpy (d ∷ ds) (suc c ∷ cs) hs h =
    let (ds', e, l, r) = length-strcpy ds cs hs.1 (omega arith) in
    (suc c ∷ ds', rw e, ap suc l, ap (λ t. suc c ∷ t) r)

pub strcpy_overrun : (dest src : List ℕ) → length dest ≤ length src → strcpy dest src ≡ none
unfolding strcpy
strcpy_overrun [] src h = refl
strcpy_overrun (d ∷ ds) [] h = absurd (omega arith)
strcpy_overrun (d ∷ ds) (c ∷ cs) h = rw (strcpy_overrun ds cs (omega arith))

-- `strcpy` of a C string into an array that is longer leaves an array of the same length that holds
-- the string; into any other array it writes behind the end.
strcpy_lem :
    (dest src : List ℕ)
    → IsString src
    → (length src < length dest)
        × ((d : List ℕ) × (strcpy dest src ≡ some d) × (length d ≡ length dest) × (c_str d ≡ src))
      ⊎ (length dest ≤ length src) × (strcpy dest src ≡ none)
strcpy_lem dest src hs = elim (Bool-cases (ltb (length src) (length dest))) [
  | inl t ↦ let h : length src < length dest = ground arith in inl (h, length-strcpy dest src hs h)
  | inr t ↦ let h : length dest ≤ length src = ground arith in inr (h, strcpy_overrun dest src h)
]

starts_with_eq : (hs ns : List ℕ) → starts_with hs ns ≡ true → (post : List ℕ) × (hs ≡ ns ++ post)
starts_with_eq hs [] e = (hs, refl)
starts_with_eq [] (n ∷ ns) e = absurd cc
starts_with_eq (h ∷ hs) (n ∷ ns) e =
    let same : h ≡ n = ground arith in
    let (post, r) = starts_with_eq hs ns (ground arith) in (post, rw same (ap (λ t. n ∷ t) r))

starts_with-append : (ns post : List ℕ) → starts_with (ns ++ post) ns ≡ true
starts_with-append [] post = refl
starts_with-append (n ∷ ns) post = ground (arith, starts_with-append ns post)

-- the needle stands in the haystack behind `i` bytes
abbrev pub OccursAt : List ℕ → List ℕ → ℕ → Type 0
OccursAt hs ns i = (pre : List ℕ) × (post : List ℕ) × (hs ≡ pre ++ (ns ++ post)) × (length pre ≡ i)

not_shorter : (h : ℕ) (hs ns : List ℕ) (j : ℕ) → OccursAt (h ∷ hs) ns (suc j) → OccursAt hs ns j
not_shorter h hs ns j ([], post, e, l) = absurd (omega arith)
not_shorter h hs ns j (c ∷ pre, post, e, l) = (pre, post, cc, omega arith)

true_ne : true ≡ false → ⊥
true_ne e = cc

module _ (h : ℕ) (hs : List ℕ) (n : ℕ) (ns : List ℕ) where
  find_from_hit : starts_with (h ∷ hs) (n ∷ ns) ≡ true → find_from (h ∷ hs) (n ∷ ns) ≡ some 0
  unfolding find_from
  find_from_hit t = rw t

  find_from_miss :
      (o : Option ℕ)
      → starts_with (h ∷ hs) (n ∷ ns) ≡ false
      → find_from hs (n ∷ ns) ≡ o
      → find_from (h ∷ hs) (n ∷ ns) ≡ (elim o [ none ↦ none | some i ↦ some (suc i) ])
  unfolding find_from
  find_from_miss o t e = rw (t, e)

  not_at_start : starts_with (h ∷ hs) (n ∷ ns) ≡ false → ¬ OccursAt (h ∷ hs) (n ∷ ns) 0
  not_at_start t ([], post, e, l) =
      absurd
        (true_ne (sym (ap (λ t. starts_with t (n ∷ ns)) e ∙ starts_with-append (n ∷ ns) post) ∙ t))
  not_at_start t (c ∷ pre, post, e, l) = absurd (omega arith)

-- where the search ends: at the first occurrence, or nowhere
abbrev pub FirstOccurrence : List ℕ → List ℕ → Option ℕ → Type 0
FirstOccurrence hs ns none = (j : ℕ) → ¬ OccursAt hs ns j
FirstOccurrence hs ns (some i) = OccursAt hs ns i × ((j : ℕ) → j < i → ¬ OccursAt hs ns j)

not_before :
    (h : ℕ) (hs ns : List ℕ) (i : ℕ)
    → ¬ OccursAt (h ∷ hs) ns 0
    → ((j : ℕ) → j < i → ¬ OccursAt hs ns j)
    → (j : ℕ) → j < suc i
    → ¬ OccursAt (h ∷ hs) ns j
not_before h hs ns i here f zero b o = here o
not_before h hs ns i here f (suc j) b o = f j (omega arith) (not_shorter h hs ns j o)

later :
    (h : ℕ) (hs ns : List ℕ) (o : Option ℕ)
    → ¬ OccursAt (h ∷ hs) ns 0
    → FirstOccurrence hs ns o
    → FirstOccurrence (h ∷ hs) ns (elim o [ none ↦ none | some i ↦ some (suc i) ])
later h hs ns none here f = λ j. elim j as (λ k. ¬ OccursAt (h ∷ hs) ns k) [
  | zero ↦ here
  | suc k ↦ λ o. f k (not_shorter h hs ns k o)
]
later h hs ns (some i) here ((pre, post, e, l), f) =
    ((h ∷ pre, post, ap (λ t. h ∷ t) e, ap suc l), not_before h hs ns i here f)

find_from_nil : (n : ℕ) (ns : List ℕ) → find_from [] (n ∷ ns) ≡ none
unfolding find_from
find_from_nil n ns = refl

find_from_first :
    (hs : List ℕ) (n : ℕ) (ns : List ℕ) → FirstOccurrence hs (n ∷ ns) (find_from hs (n ∷ ns))
find_from_first [] n ns = rw (find_from_nil n ns) nowhere
  where
    nowhere : (j : ℕ) → ¬ OccursAt [] (n ∷ ns) j
    nowhere j ([], post, e, l) = cc
    nowhere j (c ∷ pre, post, e, l) = cc
find_from_first (h ∷ hs) n ns = elim (Bool-cases (starts_with (h ∷ hs) (n ∷ ns))) [
  | inl t ↦
      let (post, e) = starts_with_eq (h ∷ hs) (n ∷ ns) t in
      rw (find_from_hit h hs n ns t) (([], post, e, refl), λ j l. elim l [ ])
  | inr t ↦ rw (find_from_miss h hs n ns _ t refl) (
      later h hs (n ∷ ns) (find_from hs (n ∷ ns)) (not_at_start h hs n ns t)
        (find_from_first hs n ns))
]

-- `strstr` returns the place of the first occurrence of the needle in the haystack, and NULL exactly
-- when there is none.
pub strstr_lem : (hs ns : List ℕ) → FirstOccurrence hs ns (strstr hs ns)
unfolding strstr
strstr_lem hs [] = (([], hs, refl, refl), λ j l. elim l [ ])
strstr_lem hs (n ∷ ns) = find_from_first hs n ns
