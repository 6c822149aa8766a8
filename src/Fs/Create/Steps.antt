-- ===== src/Fs/Create/Steps.antt =====
-- The equations of `fs_create`, one for each of its ends.
use fru1t_os.Prelude.{ℕ, ◌≤◌, ◌<◌, ◌≡◌, refl, ap, true, false, none, some, List, arith, ltb, set}
use fru1t_os.Prelude.Int.{negsuc, ◌-ℤ◌}
use fru1t_os.Memory.{kmalloc}
use fru1t_os.CString.{strcpy}
use fru1t_os.Fs.{Filesystem, max_filesize, lookup, free_slot, fs_exists, create_at, fs_create}
use fru1t_os.Fs.Invariant.{slot}

module _ (filename : List ℕ) (size : ℕ) (s : Filesystem) where
  pub create_large : max_filesize < size → fs_create filename size s ≡ some (none, s)
  unfolding fs_create
  create_large h = let t : ltb max_filesize size ≡ true = ground arith in rw t

  pub create_again :
      size ≤ max_filesize → fs_exists filename s ≡ true → fs_create filename size s ≡ some (none, s)
  unfolding fs_create
  create_again h e = let t : ltb max_filesize size ≡ false = ground arith in rw (t, e, fs_create)

  pub create_full :
      size ≤ max_filesize
      → fs_exists filename s ≡ false
      → free_slot s.files ≡ none
      → fs_create filename size s ≡ some (none, s)
  unfolding fs_create
  create_full h e f =
      let t : ltb max_filesize size ≡ false = ground arith in rw (t, e, f, fs_create)

  pub create_free :
      (i : ℕ)
      → size ≤ max_filesize
      → fs_exists filename s ≡ false
      → free_slot s.files ≡ some i
      → fs_create filename size s ≡ create_at i filename size s
  unfolding fs_create
  create_free i h e f =
      let t : ltb max_filesize size ≡ false = ground arith in rw (t, e, f, fs_create)

  pub create_overrun :
      (i : ℕ) → strcpy (slot s.files i).name filename ≡ none → create_at i filename size s ≡ none
  unfolding create_at
  create_overrun i e = rw (e, create_at)

  pub create_null :
      (i : ℕ) (name : List ℕ)
      → strcpy (slot s.files i).name filename ≡ some name
      → kmalloc size s.heap ≡ (none, s.heap)
      → create_at i filename size s
        ≡ some (
          none,
          record s {
            files = set s.files i (record (slot s.files i) { name = name; contents = none });
          },
        )
  unfolding create_at
  create_null i name e k =
      let null : (kmalloc size s.heap).0 ≡ none = ap (λ r. r.0) k in
      let same : (kmalloc size s.heap).1 ≡ s.heap = ap (λ r. r.1) k in
      rw (e, null, create_at) (rw same refl)

  pub create_room :
      (i p : ℕ) (name : List ℕ)
      → strcpy (slot s.files i).name filename ≡ some name
      → (kmalloc size s.heap).0 ≡ some p
      → create_at i filename size s
        ≡ some (
          some i,
          record {
            files =
                set s.files i
                  (record { name = name; contents = some p; size = size; is_used = true });
            file_count = s.file_count -ℤ negsuc 0;
            heap = (kmalloc size s.heap).1;
            memory = s.memory;
          },
        )
  unfolding create_at
  create_room i p name e k = rw (e, k, create_at)

pub fs_exists_hit :
    (filename : List ℕ) (s : Filesystem) (i : ℕ)
    → lookup filename s.files ≡ some i
    → fs_exists filename s ≡ true
unfolding fs_exists
fs_exists_hit filename s i e = rw (e, fs_exists)
