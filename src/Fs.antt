-- ===== src/Fs.antt =====
-- The file system of kernel.c over the heap allocator. The state is the table of files, the chain of
-- the heap's blocks and the bytes of memory that are written through the file system; the headers of
-- the heap are kept in the chain. What `printf` prints is left out.
pub mod Invariant
pub mod Bytes
pub mod Transfer
pub mod Calls
pub mod Init
pub mod Create
mod Tests
use fru1t_os.Prelude.{
  ℕ, zero, suc, ◌+◌, ◌-◌, ◌^◌, Bool, true, false, ◌&&◌, Option, none, some, List, [], ◌∷◌, ltb,
  ◌==◌, if◌then◌else◌, get_or, set, replicate, length,
}
use fru1t_os.Prelude.Int.{ℤ, pos, negsuc, ◌-ℤ◌}
use fru1t_os.Memory.{MemBlock, kmalloc, kfree}
use fru1t_os.CString.{strcmp, strcpy, c_str}

abbrev pub max_files : ℕ
max_files = 32

abbrev pub max_filename : ℕ
max_filename = 64

abbrev pub max_filesize : ℕ
max_filesize = 1024

-- `struct file`: the name is an array of 64 characters; `none` is a NULL pointer
pub record File : Type 0 where
  pub name : List ℕ
  pub contents : Option ℕ
  pub size : ℕ
  pub is_used : Bool

-- `struct filesystem`, the heap, and the bytes at each address
pub record Filesystem : Type 0 where
  pub files : List File
  pub file_count : ℤ
  pub heap : List MemBlock
  pub memory : ℕ → ℕ

abbrev pub no_file : File
no_file = record { name = []; contents = none; size = 0; is_used = false }

-- what `fs_init` and `fs_delete` leave of a slot
abbrev pub emptied : File → File
emptied f = record { name = f.name; contents = none; size = 0; is_used = false }

abbrev pub emptied_all : List File → List File
emptied_all [] = []
emptied_all (f ∷ fs) = emptied f ∷ emptied_all fs

unfoldable pub fs_init : Filesystem → Filesystem
fs_init s = record s { files = emptied_all s.files; file_count = pos 0 }

abbrev pub is_zero : ℤ → Bool
is_zero (pos n) = n == 0
is_zero (negsuc n) = false

abbrev pub matches : List ℕ → File → Bool
matches filename f = f.is_used && is_zero (strcmp (c_str f.name) filename)

-- the loop over the table that looks for a used slot of this name
unfoldable pub lookup : List ℕ → List File → Option ℕ
lookup filename [] = none
lookup filename (f ∷ fs) =
    let rest = lookup filename fs in
    if matches filename f then some 0 else (elim rest [ none ↦ none | some i ↦ some (suc i) ])

unfoldable pub fs_exists : List ℕ → Filesystem → Bool
fs_exists filename s = elim (lookup filename s.files) [ none ↦ false | some i ↦ true ]

-- the first slot that is not used
unfoldable pub free_slot : List File → Option ℕ
free_slot [] = none
free_slot (f ∷ fs) =
    let rest = free_slot fs in
    if f.is_used then (elim rest [ none ↦ none | some i ↦ some (suc i) ]) else some 0

-- the body of the loop of `fs_create` at the free slot `i`: the name is copied first, and stays when
-- the heap has no room
unfoldable pub create_at : ℕ → List ℕ → ℕ → Filesystem → Option (Option ℕ × Filesystem)
create_at i filename size s =
    let f = get_or s.files i no_file in
    elim (strcpy f.name filename) [
      | none ↦ none
      | some name ↦
          let (contents, heap) = kmalloc size s.heap in
          elim contents [
            | none ↦ some (
              none,
              record s {
                files = set s.files i (record f { name = name; contents = none });
                heap = heap;
              },
            )
            | some p ↦ some (
              some i,
              record {
                files =
                    set s.files i
                      (record { name = name; contents = some p; size = size; is_used = true });
                file_count = s.file_count -ℤ negsuc 0;
                heap = heap;
                memory = s.memory;
              },
            )
          ]
    ]

-- the outer `none` is a write behind the array of the name; the inner one is the result -1
unfoldable pub fs_create : List ℕ → ℕ → Filesystem → Option (Option ℕ × Filesystem)
fs_create filename size s =
    if ltb max_filesize size
    then some (none, s)
    else if fs_exists filename s
    then some (none, s)
    else (elim (free_slot s.files) [ none ↦ some (none, s) | some i ↦ create_at i filename size s ])

-- the first `n` bytes of `data` are written from address `p` on
unfoldable pub store : ℕ → List ℕ → (ℕ → ℕ) → ℕ → ℕ
store p [] memory = memory
store p (c ∷ cs) memory = λ a. if a == p then c else store (p + 1) cs memory a

-- the `n` bytes from address `p` on
unfoldable pub load : ℕ → ℕ → (ℕ → ℕ) → List ℕ
load p zero memory = []
load p (suc n) memory = memory p ∷ load (p + 1) n memory

-- the address that a data pointer holds
abbrev pub address : Option ℕ → ℕ
address none = 0
address (some p) = p

-- `data` is all that is to be written; the flag is false for -1
unfoldable pub fs_write : List ℕ → List ℕ → Filesystem → Bool × Filesystem
fs_write filename contents s = elim (lookup filename s.files) [
  | none ↦ (false, s)
  | some i ↦
      let f = get_or s.files i no_file in
      if ltb f.size (length contents)
      then (false, s)
      else (true, record s { memory = store (address f.contents) contents s.memory })
]

-- the bytes that are written to the buffer; `none` is -1
unfoldable pub fs_read : List ℕ → ℕ → Filesystem → Option (List ℕ)
fs_read filename size s = elim (lookup filename s.files) [
  | none ↦ none
  | some i ↦
      let f = get_or s.files i no_file in
      some (load (address f.contents) (if ltb size f.size then size else f.size) s.memory)
]

-- the flag is false for -1; `none` is a fault of `kfree`
unfoldable pub fs_delete : List ℕ → Filesystem → Option (Bool × Filesystem)
fs_delete filename s = elim (lookup filename s.files) [
  | none ↦ some (false, s)
  | some i ↦
      let f = get_or s.files i no_file in
      elim (kfree f.contents s.heap) [
        | none ↦ none
        | some heap ↦ some (
          true,
          record {
            files = set s.files i (emptied f);
            file_count = s.file_count -ℤ pos 1;
            heap = heap;
            memory = s.memory;
          },
        )
      ]
]
