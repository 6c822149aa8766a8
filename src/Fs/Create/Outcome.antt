-- ===== src/Fs/Create/Outcome.antt =====
-- How the file system stands behind a call of `fs_create`.
use fru1t_os.Prelude.{
  ℕ, ◌≤◌, ◌<◌, ◌≡◌, ◌≢◌, ◌⊎◌, inl, inr, refl, ap, sym, ◌∙◌, true, false, none, some, List, arith,
  set, length, get_or-set_self, get_or-set_ne,
}
use fru1t_os.Prelude.Int.{ℤ}
use fru1t_os.Memory.{kmalloc}
use fru1t_os.Memory.Tiling.{kmalloc-IsHeap}
use fru1t_os.Memory.Live.{capacity}
use fru1t_os.Memory.Grant.{Granted, kmalloc-Granted}
use fru1t_os.CString.{c_str}
use fru1t_os.CString.Laws.{IsString}
use fru1t_os.Fs.{
  File, Filesystem, no_file, max_files, max_filename, max_filesize, lookup, fs_exists,
}
use fru1t_os.Fs.Invariant.{slot, slot-set, IsNamed, IsValid, set-IsValid, lookup_named}

true_ne : true ≡ false → ⊥
true_ne e = cc

-- what `fs_create` has done when it returns -1
pub record Refused (start : ℕ) (filename : List ℕ) (size : ℕ) (s : Filesystem) (s' : Filesystem)
    : Type 0 where
  pub why :
      (max_filesize < size)
      ⊎ (fs_exists filename s ≡ true)
      ⊎ ((j : ℕ) → j < max_files → (slot s.files j).is_used ≡ true)
      ⊎ (kmalloc size s.heap ≡ (none, s.heap))
  pub slots :
      (j : ℕ)
      → (slot s'.files j ≡ slot s.files j)
        ⊎ ((slot s'.files j).is_used ≡ false) × ((slot s.files j).is_used ≡ false)
  pub heap : s'.heap ≡ s.heap
  pub memory : s'.memory ≡ s.memory
  pub valid : IsValid start s'

-- what `fs_create` has done when it returns the slot `i`
pub record Created (start : ℕ) (filename : List ℕ) (size : ℕ) (s : Filesystem) (i : ℕ)
    (s' : Filesystem) : Type 0 where
  pub address : ℕ
  pub was_free : (slot s.files i).is_used ≡ false
  pub fits : size ≤ max_filesize
  pub contents : (slot s'.files i).contents ≡ some address
  pub file_size : (slot s'.files i).size ≡ size
  pub granted : Granted size s.heap address s'.heap
  pub found : lookup filename s'.files ≡ some i
  pub others : (j : ℕ) → i ≢ j → slot s'.files j ≡ slot s.files j
  pub memory : s'.memory ≡ s.memory
  pub valid : IsValid start s'

module _ {start : ℕ} {s : Filesystem} (filename : List ℕ) (size : ℕ) (v : IsValid start s) where
  pub unchanged :
      (max_filesize < size)
        ⊎ (fs_exists filename s ≡ true)
        ⊎ ((j : ℕ) → j < max_files → (slot s.files j).is_used ≡ true)
        ⊎ (kmalloc size s.heap ≡ (none, s.heap))
      → Refused start filename size s s
  unchanged h = record { why = h; slots = λ j. inl refl; heap = refl; memory = refl; valid = v }

  module _ (i : ℕ) (name : List ℕ) (free : (slot s.files i).is_used ≡ false)
      (l : i < max_files) where
    pub without_room :
        length name ≡ max_filename
        → kmalloc size s.heap ≡ (none, s.heap)
        → Refused start filename size s (record s {
          files = set s.files i (record (slot s.files i) { name = name; contents = none });
        })
    without_room e k =
        let g : File = record (slot s.files i) { name = name; contents = none } in
        let inside : i < length s.files = rw v.slots l in
        record {
          why = inr (inr (inr k));
          slots = λ j. elim (slot-set s.files i j g inside) [
            | inl (same, r) ↦ inr (
              ap (λ (f : File). f.is_used) r ∙ free,
              ap (λ n. (slot s.files n).is_used) (sym same) ∙ free,
            )
            | inr (ne, r) ↦ inl r
          ];
          heap = refl;
          memory = refl;
          valid =
              set-IsValid _ i g v l refl e v.heap (λ u. absurd (true_ne (sym u ∙ free)))
                (λ j ne uj. v.owned j uj) (λ j ne u uj. absurd (true_ne (sym u ∙ free)));
        }

    pub with_room :
        (p : ℕ)
        → IsString filename
        → size ≤ max_filesize
        → length name ≡ max_filename
        → c_str name ≡ filename
        → ((j : ℕ) → ¬ IsNamed filename s.files j)
        → (kmalloc size s.heap).0 ≡ some p
        → (files : List File)
        → files
          ≡ set s.files i (record { name = name; contents = some p; size = size; is_used = true })
        → (count : ℤ)
        → Created start filename size s i (record {
          files = files;
          file_count = count;
          heap = (kmalloc size s.heap).1;
          memory = s.memory;
        })
    with_room p hf small e r new k files ef count =
        let g : File = record { name = name; contents = some p; size = size; is_used = true } in
        let s' : Filesystem = record {
          files = files;
          file_count = count;
          heap = (kmalloc size s.heap).1;
          memory = s.memory;
        } in
        let inside : i < length s.files = rw v.slots l in
        let at : slot files i ≡ g =
          ap (λ fs. slot fs i) ef ∙ get_or-set_self s.files i g no_file inside in
        let granted = kmalloc-Granted size p v.heap (omega arith) k in
        let valid : IsValid start s' =
          set-IsValid s' i g v l ef e (kmalloc-IsHeap size v.heap)
            (λ u. (p, granted.granted, refl, granted.now_owned, granted.enough))
            (λ j ne uj.
              let (q, n, eq, cq, lq) = v.owned j uj in
              (
                q,
                n,
                eq,
                granted.others q (λ same. not_granted p q n granted.was_free cq same) ∙ cq,
                lq,
              ))
            (λ j ne u uj.
              let (q, n, eq, cq, lq) = v.owned j uj in
              record {
                names = λ same. new j (uj, sym same ∙ r);
                contents = λ same. not_granted p q n granted.was_free cq (cc);
              }) in
        record {
          address = p;
          was_free = free;
          fits = small;
          contents = ap (λ (f : File). f.contents) at;
          file_size = ap (λ (f : File). f.size) at;
          granted = granted;
          found =
              lookup_named filename i valid hf
                (ap (λ (f : File). f.is_used) at, ap (λ (f : File). c_str f.name) at ∙ r);
          others = λ j ne. ap (λ fs. slot fs j) ef ∙ get_or-set_ne s.files i j g no_file ne;
          memory = refl;
          valid = valid;
        }
      where
        not_granted :
            (p q n : ℕ) → capacity p s.heap ≡ none → capacity q s.heap ≡ some n → q ≡ p → ⊥
        not_granted p q n e e' same = cc
