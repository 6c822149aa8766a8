-- ===== src/Fs/Invariant.antt =====
-- When the file system's table and the heap fit together.
use native.Mathlib.Decide.{ℕ_discrete}
use fru1t_os.Prelude.{
  length-set, get_or-set_self, get_or-set_ne, ℕ, zero, suc, ◌≤◌, ◌<◌, ◌≡◌, ◌≢◌, ◌⊎◌, inl, inr, refl,
  ap, sym, ◌∙◌, true, false, Option, none, some, List, [], ◌∷◌, arith, get_or, set, length,
  Bool-cases, Option-cases,
}
use fru1t_os.Prelude.Int.{ℤ, pos, negsuc}
use fru1t_os.Memory.{MemBlock}
use fru1t_os.Memory.Tiling.{IsHeap}
use fru1t_os.Memory.Live.{capacity}
use fru1t_os.CString.{strcmp, c_str}
use fru1t_os.CString.Laws.{IsString, strcmp_iff, c_str-IsString}
use fru1t_os.Fs.{
  File, Filesystem, no_file, max_files, max_filename, is_zero, matches, lookup, free_slot,
}

-- slot `i` of the table
abbrev pub slot : List File → ℕ → File
slot fs i = get_or fs i no_file

-- slot `i` holds a file of this name
abbrev pub IsNamed : List ℕ → List File → ℕ → Type 0
IsNamed filename fs i = ((slot fs i).is_used ≡ true) × (c_str (slot fs i).name ≡ filename)

is_zero_eq : (z : ℤ) → is_zero z ≡ true → z ≡ pos 0
is_zero_eq (pos n) e = ground arith
is_zero_eq (negsuc n) e = absurd cc

matches_eq :
    (filename : List ℕ) (f : File)
    → IsString filename
    → matches filename f ≡ true
    → (f.is_used ≡ true) × (c_str f.name ≡ filename)
matches_eq filename f hs e = elim (Bool-cases f.is_used) [
  | inl u ↦
      let zeros : is_zero (strcmp (c_str f.name) filename) ≡ true = rw u at e in
      (u, (strcmp_iff (c_str f.name) filename (c_str-IsString f.name) hs).0 (is_zero_eq _ zeros))
  | inr u ↦ absurd (false_ne (rw u at e))
]
  where
    false_ne : false ≡ true → ⊥
    false_ne e = cc

matches_named :
    (filename : List ℕ) (f : File)
    → IsString filename
    → f.is_used ≡ true
    → c_str f.name ≡ filename
    → matches filename f ≡ true
matches_named filename f hs u e =
    let zeros : strcmp (c_str f.name) filename ≡ pos 0 =
      (strcmp_iff (c_str f.name) filename (c_str-IsString f.name) hs).1 e in
    rw (u, zeros) refl

module _ (filename : List ℕ) (f : File) (fs : List File) where
  lookup_hit : matches filename f ≡ true → lookup filename (f ∷ fs) ≡ some 0
  unfolding lookup
  lookup_hit t = rw t

  lookup_miss :
      (o : Option ℕ)
      → matches filename f ≡ false
      → lookup filename fs ≡ o
      → lookup filename (f ∷ fs) ≡ (elim o [ none ↦ none | some i ↦ some (suc i) ])
  unfolding lookup
  lookup_miss o t e = rw (t, e)

lookup_nil : (filename : List ℕ) → lookup filename [] ≡ none
unfolding lookup
lookup_nil filename = refl

-- what a search of the table says
abbrev pub Found : List ℕ → List File → Option ℕ → Type 0
Found filename fs none = (j : ℕ) → ¬ IsNamed filename fs j
Found filename fs (some i) = (i < length fs) × IsNamed filename fs i

behind_first :
    (filename : List ℕ) (f : File) (fs : List File) (o : Option ℕ)
    → IsString filename
    → matches filename f ≡ false
    → Found filename fs o
    → Found filename (f ∷ fs) (elim o [ none ↦ none | some i ↦ some (suc i) ])
behind_first filename f fs none hs t r = λ j. elim j as (λ k. ¬ IsNamed filename (f ∷ fs) k) [
  | zero ↦ λ (u, e). true_ne (sym (matches_named filename f hs u e) ∙ t)
  | suc k ↦ r k
]
  where
    true_ne : true ≡ false → ⊥
    true_ne e = cc
behind_first filename f fs (some i) hs t (l, r) = (omega arith, r)

lookup-Found :
    (filename : List ℕ) (fs : List File)
    → IsString filename
    → Found filename fs (lookup filename fs)
lookup-Found filename [] hs = rw (lookup_nil filename) nowhere
  where
    nowhere : (j : ℕ) → ¬ IsNamed filename [] j
    nowhere j (u, e) = cc
lookup-Found filename (f ∷ fs) hs = elim (Bool-cases (matches filename f)) [
  | inl t ↦ rw (lookup_hit filename f fs t) (omega arith, matches_eq filename f hs t)
  | inr t ↦
      rw (lookup_miss filename f fs _ t refl)
        (behind_first filename f fs (lookup filename fs) hs t (lookup-Found filename fs hs))
]

pub lookup-cases :
    (filename : List ℕ) (fs : List File)
    → IsString filename
    → (lookup filename fs ≡ none) × Found filename fs none
      ⊎ ((i : ℕ) × (lookup filename fs ≡ some i) × Found filename fs (some i))
lookup-cases filename fs hs =
    let r = lookup-Found filename fs hs in
    elim (Option-cases (lookup filename fs)) [
      | inl e ↦ inl (e, rw e at r)
      | inr (i, e) ↦ inr (i, e, rw e at r)
    ]

module _ (f : File) (fs : List File) where
  free_slot_hit : f.is_used ≡ false → free_slot (f ∷ fs) ≡ some 0
  unfolding free_slot
  free_slot_hit t = rw t

  free_slot_miss :
      (o : Option ℕ)
      → f.is_used ≡ true
      → free_slot fs ≡ o
      → free_slot (f ∷ fs) ≡ (elim o [ none ↦ none | some i ↦ some (suc i) ])
  unfolding free_slot
  free_slot_miss o t e = rw (t, e)

free_slot_nil : free_slot [] ≡ none
unfolding free_slot
free_slot_nil = refl

-- what the search for an unused slot says
abbrev pub FreeSlot : List File → Option ℕ → Type 0
FreeSlot fs none = (j : ℕ) → j < length fs → (slot fs j).is_used ≡ true
FreeSlot fs (some i) = (i < length fs) × ((slot fs i).is_used ≡ false)

free_later :
    (f : File) (fs : List File) (o : Option ℕ)
    → f.is_used ≡ true
    → FreeSlot fs o
    → FreeSlot (f ∷ fs) (elim o [ none ↦ none | some i ↦ some (suc i) ])
free_later f fs none t r = λ j.
    elim j as (λ k. k < suc (length fs) → (slot (f ∷ fs) k).is_used ≡ true) [
      | zero ↦ λ l. t
      | suc k ↦ λ l. r k (omega arith)
    ]
free_later f fs (some i) t (l, r) = (omega arith, r)

free_slot-FreeSlot : (fs : List File) → FreeSlot fs (free_slot fs)
free_slot-FreeSlot [] = rw free_slot_nil (λ j l. elim l [ ])
free_slot-FreeSlot (f ∷ fs) = elim (Bool-cases f.is_used) [
  | inl t ↦
      rw (free_slot_miss f fs _ t refl) (free_later f fs (free_slot fs) t (free_slot-FreeSlot fs))
  | inr t ↦ rw (free_slot_hit f fs t) (omega arith, t)
]

pub free_slot-cases :
    (fs : List File)
    → (free_slot fs ≡ none) × FreeSlot fs none
      ⊎ ((i : ℕ) × (free_slot fs ≡ some i) × FreeSlot fs (some i))
free_slot-cases fs =
    let r = free_slot-FreeSlot fs in
    elim (Option-cases (free_slot fs)) [
      | inl e ↦ inl (e, rw e at r)
      | inr (i, e) ↦ inr (i, e, rw e at r)
    ]

-- the memory that a used slot owns: allocated, and large enough for the file
abbrev pub Owns : File → List MemBlock → Type 0
Owns f heap = (p : ℕ) × (n : ℕ) × (f.contents ≡ some p) × (capacity p heap ≡ some n) × (f.size ≤ n)

-- Two used slots have neither the name nor the memory in common.
pub record Apart (f g : File) : Type 0 where
  pub names : c_str f.name ≢ c_str g.name
  pub contents : f.contents ≢ g.contents

-- The heap starts at address `start`, the table has its 32 slots with a name of 64 characters each,
-- used slots own their memory, and no two of them share a name or memory.
pub record IsValid (start : ℕ) (s : Filesystem) : Type 0 where
  pub heap : IsHeap start s.heap
  pub slots : length s.files ≡ max_files
  pub name_sizes : (i : ℕ) → i < max_files → length (slot s.files i).name ≡ max_filename
  pub owned : (i : ℕ) → (slot s.files i).is_used ≡ true → Owns (slot s.files i) s.heap
  pub apart :
      (i j : ℕ)
      → i ≢ j
      → (slot s.files i).is_used ≡ true
      → (slot s.files j).is_used ≡ true
      → Apart (slot s.files i) (slot s.files j)

pub used_lt :
    {start : ℕ} {s : Filesystem} (i : ℕ)
    → IsValid start s
    → (slot s.files i).is_used ≡ true
    → i < max_files
used_lt {s = s} i v u = rw (← v.slots) (inside s.files i u)
  where
    inside : (fs : List File) (i : ℕ) → (slot fs i).is_used ≡ true → i < length fs
    inside [] i u = cc
    inside (f ∷ fs) zero u = omega arith
    inside (f ∷ fs) (suc i) u = omega (arith, inside fs i u)

-- a name stands in one slot only, where the search finds it
pub lookup_named :
    {start : ℕ} {s : Filesystem} (filename : List ℕ) (i : ℕ)
    → IsValid start s
    → IsString filename
    → IsNamed filename s.files i
    → lookup filename s.files ≡ some i
lookup_named {s = s} filename i v hs (u, e) = elim (lookup-cases filename s.files hs) [
  | inl (o, r) ↦ absurd (r i (u, e))
  | inr (k, o, (l, (uk, ek))) ↦ elim (ℕ_discrete k i) [
    | yes same ↦ o ∙ ap some same
    | no ne ↦ absurd ((v.apart k i ne uk u).names (ek ∙ sym e))
  ]
]

-- slot `j` behind a write of slot `i`
pub slot-set :
    (fs : List File) (i j : ℕ) (g : File)
    → i < length fs
    → (i ≡ j) × (slot (set fs i g) j ≡ g) ⊎ (i ≢ j) × (slot (set fs i g) j ≡ slot fs j)
slot-set fs i j g h = elim (ℕ_discrete i j) [
  | yes e ↦ inl (e, rw (← e) (get_or-set_self fs i g no_file h))
  | no ne ↦ inr (ne, get_or-set_ne fs i j g no_file ne)
]

module _ {start : ℕ} {s : Filesystem} (s' : Filesystem) (i : ℕ) (g : File) where
  -- what has to be shown for the slot `i` that is written, and the memory of the others
  pub set-IsValid :
      IsValid start s
      → i < max_files
      → s'.files ≡ set s.files i g
      → length g.name ≡ max_filename
      → IsHeap start s'.heap
      → (g.is_used ≡ true → Owns g s'.heap)
      → ((j : ℕ) → i ≢ j → (slot s.files j).is_used ≡ true → Owns (slot s.files j) s'.heap)
      → ((j : ℕ)
          → i ≢ j
          → g.is_used ≡ true
          → (slot s.files j).is_used ≡ true
          → Apart g (slot s.files j))
      → IsValid start s'
  set-IsValid v h e name_size is_heap own owns far = record {
    heap = is_heap;
    slots = rw e (length-set s.files i g ∙ v.slots);
    name_sizes = λ j l. rw e (elim (slot-set s.files i j g inside) [
      | inl (same, r) ↦ rw r name_size
      | inr (ne, r) ↦ rw r (v.name_sizes j l)
    ]);
    owned = λ j. rw e (elim (slot-set s.files i j g inside) [
      | inl (same, r) ↦ rw r own
      | inr (ne, r) ↦ rw r (owns j ne)
    ]);
    apart = λ j k ne. rw e (elim (slot-set s.files i j g inside) [
      | inl (same, r) ↦ elim (slot-set s.files i k g inside) [
        | inl (same', r') ↦ absurd (ne (sym same ∙ same'))
        | inr (ne', r') ↦ rw (r, r') (far k ne')
      ]
      | inr (ne', r) ↦ elim (slot-set s.files i k g inside) [
        | inl (same', r') ↦ rw (r, r') (λ uj ug. swapped (far j ne' ug uj))
        | inr (ne'', r') ↦ rw (r, r') (v.apart j k ne)
      ]
    ]);
  }
    where
      inside : i < length s.files
      inside = rw v.slots h

      swapped : {a b : File} → Apart a b → Apart b a
      swapped d = record { names = λ e. d.names (sym e); contents = λ e. d.contents (sym e) }
