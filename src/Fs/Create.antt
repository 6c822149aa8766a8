-- ===== src/Fs/Create.antt =====
-- What `fs_create` does.
mod Steps
pub mod Outcome
use native.Mathlib.Decide.{ℕ_discrete}
use fru1t_os.Prelude.{
  ℕ, zero, suc, ◌+◌, ◌^◌, ◌≤◌, ◌<◌, ◌≡◌, ◌≢◌, ◌⊎◌, inl, inr, refl, ap, sym, ◌∙◌, Bool, true, false,
  Option, none, some, List, [], ◌∷◌, arith, ltb, ◌==◌, if◌then◌else◌, set, length, Bool-cases,
  Option-cases, get_or-set_self, get_or-set_ne,
}
use fru1t_os.Prelude.Int.{ℤ, pos, negsuc, ◌-ℤ◌}
use fru1t_os.Memory.{MemBlock, kmalloc, kfree}
use fru1t_os.Memory.Tiling.{IsHeap, kmalloc-IsHeap}
use fru1t_os.Memory.Live.{capacity}
use fru1t_os.Memory.Grant.{Granted, kmalloc-Granted, kmalloc_total}
use fru1t_os.CString.{strcpy, c_str}
use fru1t_os.CString.Laws.{IsString, length-strcpy, strcpy_overrun}
use fru1t_os.Fs.{
  File, Filesystem, no_file, max_files, max_filename, max_filesize, lookup, free_slot, fs_exists,
  create_at, fs_create,
}
use fru1t_os.Fs.Create.Steps.{
  create_large, create_again, create_full, create_free, create_overrun, create_null, create_room,
  fs_exists_hit,
}
use fru1t_os.Fs.Create.Outcome.{Refused, Created, unchanged, without_room, with_room}
use fru1t_os.Fs.Calls.{fs_exists_miss}
use fru1t_os.Fs.Invariant.{
  slot, slot-set, IsNamed, Owns, Apart, IsValid, set-IsValid, used_lt, lookup_named, lookup-cases,
  free_slot-cases,
}

module _ {start : ℕ} {s : Filesystem} (filename : List ℕ) (size : ℕ) (v : IsValid start s) where
  create_at_lem :
      (i : ℕ)
      → IsString filename
      → size ≤ max_filesize
      → i < max_files
      → (slot s.files i).is_used ≡ false
      → ((j : ℕ) → ¬ IsNamed filename s.files j)
      → (max_filename ≤ length filename) × (create_at i filename size s ≡ none)
        ⊎ ((s' : Filesystem) × (create_at i filename size s ≡ some (none, s'))
            × Refused start filename size s s')
        ⊎ ((s' : Filesystem) × (create_at i filename size s ≡ some (some i, s'))
            × Created start filename size s i s')
  create_at_lem i hf small l free new =
      let room = v.name_sizes i l in
      elim (Bool-cases (ltb (length filename) max_filename)) [
        | inr t ↦
            let long' : max_filename ≤ length filename = ground arith in
            inl (
              long',
              create_overrun filename size s i
                  (strcpy_overrun (slot s.files i).name filename (rw room long')),
            )
        | inl t ↦
            let short : length filename < length (slot s.files i).name = rw room (ground arith) in
            let (name, e, ln, r) = length-strcpy (slot s.files i).name filename hf short in
            elim (kmalloc_total size s.heap) [
              | inl (k, why) ↦ inr (
                  inl (
                    _,
                    create_null filename size s i name e k,
                    without_room filename size v i name free l (ln ∙ room) k,
                  ))
              | inr (p, k, ne, has) ↦ inr (
                  inr (
                    _,
                    create_room filename size s i p name e k,
                    with_room filename size v i name free l p hf small (ln ∙ room) r new k _ refl _,
                  ))
            ]
      ]

  -- On a valid file system `fs_create` of a C string either writes behind the array of the name, for a
  -- name of 64 characters or more; or returns -1, since the size is above 1024, the name is taken, no
  -- slot is unused or `kmalloc` of the size gives NULL (for a size of 0, or without room), and leaves
  -- every file, the heap and the memory as they were; or, for a size of at most 1024, it creates the
  -- file in an unused slot, where the search then finds it, with newly granted
  -- memory of at least its size, and every other slot is as it was. The file system stays valid.
  pub fs_create_lem :
      IsString filename
      → (max_filename ≤ length filename) × (fs_create filename size s ≡ none)
        ⊎ ((s' : Filesystem) × (fs_create filename size s ≡ some (none, s'))
            × Refused start filename size s s')
        ⊎ ((i : ℕ) × (s' : Filesystem) × (fs_create filename size s ≡ some (some i, s'))
            × Created start filename size s i s')
  fs_create_lem hf = elim (Bool-cases (ltb max_filesize size)) [
    | inl t ↦
        let large : max_filesize < size = ground arith in
        inr (inl (s, create_large filename size s large, unchanged filename size v (inl large)))
    | inr t ↦
        let small : size ≤ max_filesize = ground arith in
        elim (lookup-cases filename s.files hf) [
          | inr (k, o, r) ↦
              let there = fs_exists_hit filename s k o in
              inr (
                inl (
                  s,
                  create_again filename size s small there,
                  unchanged filename size v (inr (inl there)),
                ))
          | inl (o, new) ↦
              let absent = fs_exists_miss filename s o in
              elim (free_slot-cases s.files) [
                | inl (f, r) ↦ inr (
                    inl (
                      s,
                      create_full filename size s small absent f,
                      unchanged filename size v (inr (inr (inl (λ j l. r j (rw v.slots l))))),
                    ))
                | inr (i, f, (l, free)) ↦
                    rw (create_free filename size s i small absent f)
                      (elim (create_at_lem i hf small (rw v.slots at l) free new) [
                        | inl b ↦ inl b
                        | inr (inl b) ↦ inr (inl b)
                        | inr (inr (s', e, c)) ↦ inr (inr (i, s', e, c))
                      ])
              ]
        ]
  ]
