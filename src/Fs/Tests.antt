-- ===== src/Fs/Tests.antt =====
-- Runs of the file system, and the theorems at one that holds two files.
use fru1t_os.Prelude.{
  ℕ, zero, suc, ◌-◌, ◌≤◌, ◌<◌, ◌≡◌, ◌≢◌, ◌⊎◌, refl, ap, true, false, none, some, List, [], ◌∷◌,
  ◌++◌, arith, length, replicate, get_or, set, sym, ◌∙◌, inl, inr,
}
use fru1t_os.Prelude.Int.{pos}
use fru1t_os.Memory.{MemBlock, heap_size}
use fru1t_os.Memory.Tiling.{IsHeap}
use fru1t_os.CString.{strcmp, c_str}
use fru1t_os.Fs.{
  File, Filesystem, max_filename, lookup, fs_init, fs_create, fs_write, fs_read, fs_delete, address,
}
use fru1t_os.CString.Laws.{IsString}
use fru1t_os.Fs.Invariant.{slot, slot-set, IsNamed, IsValid, set-IsValid}
use fru1t_os.Fs.Init.{fs_init-IsValid}
use fru1t_os.Fs.Transfer.{fs_read-fs_write, fs_read-fs_write_other}
use fru1t_os.Fs.Calls.{Deleted, fs_delete_lem}
use fru1t_os.Fs.Create.{fs_create_lem}
use fru1t_os.Fs.Create.Outcome.{Refused, Created}

-- "a", "b" and "c"
abbrev a : List ℕ
a = 97 ∷ []

abbrev b : List ℕ
b = 98 ∷ []

abbrev c : List ℕ
c = 99 ∷ []

abbrev start : ℕ
start = 4096

-- the heap with 16 bytes allocated for the first file and 8 for the second
abbrev blocks : List MemBlock
blocks =
    record { addr = 4096; is_free = false; size = 16 }
    ∷ record { addr = 4124; is_free = false; size = 8 }
    ∷ record { addr = 4144; is_free = true; size = heap_size - 60 }
    ∷ []

abbrev named : List ℕ → List ℕ
named s = s ++ replicate 63 0

abbrev blank : File
blank = record { name = replicate 64 0; contents = none; size = 0; is_used = false }

abbrev file_a : File
file_a = record { name = named a; contents = some 4108; size = 16; is_used = true }

abbrev file_b : File
file_b = record { name = named b; contents = some 4136; size = 8; is_used = true }

abbrev unset : Filesystem
unset = record { files = replicate 32 blank; file_count = pos 0; heap = blocks; memory = λ p. 0 }

abbrev one_file : Filesystem
one_file = record (fs_init unset) { files = set (fs_init unset).files 0 file_a; file_count = pos 1 }

abbrev two_files : Filesystem
two_files = record one_file { files = set one_file.files 1 file_b; file_count = pos 2 }

blocks-IsHeap : IsHeap start blocks
blocks-IsHeap = record {
  ne_zero = omega arith;
  fits = omega arith;
  tiles = (refl, (refl, (refl, refl)));
}

blank_names : (n i : ℕ) → i < n → length (slot (replicate n blank) i).name ≡ 64
blank_names zero i l = elim l [ ]
blank_names (suc n) zero l = refl
blank_names (suc n) (suc i) l = blank_names n i (omega arith)

unset_facts :
    IsValid start (fs_init unset) × ((i : ℕ) → (slot (fs_init unset).files i).is_used ≡ false)
unset_facts = fs_init-IsValid unset blocks-IsHeap refl (blank_names 32)

true_ne : true ≡ false → ⊥
true_ne e = cc

one_file-IsValid : IsValid start one_file
unfolding fs_init
one_file-IsValid =
    let (v, unused) = unset_facts in
    set-IsValid one_file 0 file_a v (omega arith) refl refl blocks-IsHeap
      (λ u. (4108, 16, refl, refl, omega arith)) (λ j ne uj. absurd (true_ne (sym uj ∙ unused j)))
      (λ j ne u uj. absurd (true_ne (sym uj ∙ unused j)))

-- the one slot in use
only_first : (j : ℕ) → (slot one_file.files j).is_used ≡ true → slot one_file.files j ≡ file_a
unfolding fs_init
only_first j u = elim (slot-set (fs_init unset).files 0 j file_a (omega arith)) [
  | inl (same, r) ↦ r
  | inr (ne, r) ↦ absurd (true_ne (sym u ∙ ap (λ (f : File). f.is_used) r ∙ unset_facts.1 j))
]

two_files-IsValid : IsValid start two_files
unfolding c_str fs_init
two_files-IsValid =
    set-IsValid two_files 1 file_b one_file-IsValid (omega arith) refl refl blocks-IsHeap
      (λ u. (4136, 8, refl, refl, omega arith))
      (λ j ne uj. rw (only_first j uj) (4108, 16, refl, refl, omega arith))
      (λ j ne u uj. rw (only_first j uj) (record {
        names = λ e. absurd (omega (arith, ap (λ l. get_or l 0 0) e));
        contents = λ e. absurd (omega (arith, ap address e));
      }))

a-IsString : IsString a
a-IsString = (omega arith, tt)

b-IsString : IsString b
b-IsString = (omega arith, tt)

a_ne_b : a ≢ b
a_ne_b e = absurd (omega (arith, ap (λ l. get_or l 0 0) e))

abbrev happy : List ℕ
happy = 104 ∷ 105 ∷ []

fs_runs : (fs_write a happy two_files).0 ≡ true
unfolding fs_write lookup strcmp c_str fs_init
fs_runs = refl

fs_read-fs_write_example : fs_read a 2 (fs_write a happy two_files).1 ≡ some happy
fs_read-fs_write_example = fs_read-fs_write a happy two_files fs_runs

fs_read-fs_write_other_example : fs_read b 8 (fs_write a happy two_files).1 ≡ fs_read b 8 two_files
fs_read-fs_write_other_example =
    fs_read-fs_write_other a b happy 8 two_files-IsValid a-IsString b-IsString a_ne_b

fs_delete_lem_example :
    (fs_delete a two_files ≡ some (false, two_files)) × ((j : ℕ) → ¬ IsNamed a two_files.files j)
    ⊎ ((i : ℕ) × (s' : Filesystem) × (fs_delete a two_files ≡ some (true, s'))
        × Deleted start a two_files i s')
fs_delete_lem_example = fs_delete_lem a two_files-IsValid a-IsString

fs_create_lem_example :
    (max_filename ≤ 1) × (fs_create c 100 two_files ≡ none)
    ⊎ ((s' : Filesystem) × (fs_create c 100 two_files ≡ some (none, s'))
        × Refused start c 100 two_files s')
    ⊎ ((i : ℕ) × (s' : Filesystem) × (fs_create c 100 two_files ≡ some (some i, s'))
        × Created start c 100 two_files i s')
fs_create_lem_example = fs_create_lem c 100 two_files-IsValid (omega arith, tt)
