-- ===== src/Fs/Init.antt =====
-- What `fs_init` leaves.
use fru1t_os.Prelude.{
  ℕ, zero, suc, ◌<◌, ◌≡◌, refl, ap, sym, ◌∙◌, true, false, List, [], ◌∷◌, length,
}
use fru1t_os.Memory.Tiling.{IsHeap}
use fru1t_os.Fs.{File, Filesystem, max_files, max_filename, emptied_all, fs_init}
use fru1t_os.Fs.Invariant.{slot, IsValid}

length-emptied_all : (fs : List File) → length (emptied_all fs) ≡ length fs
length-emptied_all [] = refl
length-emptied_all (f ∷ fs) = ap suc (length-emptied_all fs)

slot-emptied_all :
    (fs : List File) (i : ℕ)
    → ((slot (emptied_all fs) i).is_used ≡ false)
      × ((slot (emptied_all fs) i).name ≡ (slot fs i).name)
slot-emptied_all [] i = (refl, refl)
slot-emptied_all (f ∷ fs) zero = (refl, refl)
slot-emptied_all (f ∷ fs) (suc i) = slot-emptied_all fs i

true_ne : true ≡ false → ⊥
true_ne e = cc

-- `fs_init` of a table of 32 slots, over a heap that is set up, leaves a valid file system without
-- files.
pub fs_init-IsValid :
    {start : ℕ} (s : Filesystem)
    → IsHeap start s.heap
    → length s.files ≡ max_files
    → ((i : ℕ) → i < max_files → length (slot s.files i).name ≡ max_filename)
    → IsValid start (fs_init s) × ((i : ℕ) → (slot (fs_init s).files i).is_used ≡ false)
unfolding fs_init
fs_init-IsValid s h l n = (
  record {
    heap = h;
    slots = length-emptied_all s.files ∙ l;
    name_sizes = λ i b. ap length (slot-emptied_all s.files i).1 ∙ n i b;
    owned = λ i u. absurd (true_ne (sym u ∙ (slot-emptied_all s.files i).0));
    apart = λ i j ne u uj. absurd (true_ne (sym u ∙ (slot-emptied_all s.files i).0));
  },
  λ i. (slot-emptied_all s.files i).0,
)
