-- ===== src/Fs/Calls.antt =====
-- What the calls of the file system do.
use fru1t_os.Prelude.{
  ℕ, ◌<◌, ◌≡◌, ◌≢◌, ◌⊎◌, inl, inr, refl, ap, sym, ◌∙◌, true, false, none, some, List, set, length,
  get_or-set_ne,
}
use fru1t_os.Prelude.Int.{pos, ◌-ℤ◌}
use fru1t_os.Memory.{MemBlock, kfree}
use fru1t_os.Memory.Live.{capacity}
use fru1t_os.Memory.Release.{capacity-kfree}
use fru1t_os.CString.{c_str}
use fru1t_os.CString.Laws.{IsString}
use fru1t_os.Fs.{File, Filesystem, no_file, max_files, lookup, emptied, fs_exists, fs_delete}
use fru1t_os.Fs.Invariant.{slot, slot-set, IsNamed, Owns, IsValid, set-IsValid, lookup-cases}

module _ (filename : List ℕ) (s : Filesystem) where
  fs_delete_miss : lookup filename s.files ≡ none → fs_delete filename s ≡ some (false, s)
  unfolding fs_delete
  fs_delete_miss e = rw (e, fs_delete)

  -- the state behind the removal of the file in slot `i`
  abbrev removed : (i : ℕ) → List MemBlock → Filesystem
  removed i heap = record {
    files = set s.files i (emptied (slot s.files i));
    file_count = s.file_count -ℤ pos 1;
    heap = heap;
    memory = s.memory;
  }

  fs_delete_hit :
      (i : ℕ) (heap : List MemBlock)
      → lookup filename s.files ≡ some i
      → kfree (slot s.files i).contents s.heap ≡ some heap
      → fs_delete filename s ≡ some (true, removed i heap)
  unfolding fs_delete
  fs_delete_hit i heap e k = rw (e, fs_delete, k) refl

false_ne : false ≡ true → ⊥
false_ne e = cc

pub fs_exists_miss :
    (filename : List ℕ) (s : Filesystem)
    → lookup filename s.files ≡ none
    → fs_exists filename s ≡ false
unfolding fs_exists
fs_exists_miss filename s e = rw (e, fs_exists)

-- what `fs_delete` has done with the file of slot `i`
pub record Deleted (start : ℕ) (filename : List ℕ) (s : Filesystem) (i : ℕ) (s' : Filesystem)
    : Type 0 where
  pub was : IsNamed filename s.files i
  pub gone : fs_exists filename s' ≡ false
  pub others : (j : ℕ) → i ≢ j → slot s'.files j ≡ slot s.files j
  pub released : (p : ℕ) → (slot s.files i).contents ≡ some p → capacity p s'.heap ≡ none
  pub memory : s'.memory ≡ s.memory
  pub valid : IsValid start s'

module _ {start : ℕ} {s : Filesystem} (i : ℕ) where
  -- another file still owns its memory when that of slot `i` is given back
  kept-Owns :
      (p : ℕ) (heap : List MemBlock)
      → IsValid start s
      → (slot s.files i).is_used ≡ true
      → (slot s.files i).contents ≡ some p
      → ((q : ℕ) → p ≢ q → capacity q heap ≡ capacity q s.heap)
      → (j : ℕ) → i ≢ j
      → (slot s.files j).is_used ≡ true
      → Owns (slot s.files j) heap
  kept-Owns p heap v u ep same j ne uj =
      let (q, n, eq, cq, lq) = v.owned j uj in
      let differ : p ≢ q = λ e. (v.apart i j ne u uj).contents (ep ∙ ap some e ∙ sym eq) in
      (q, n, eq, same q differ ∙ cq, lq)

  emptied_gone :
      (filename : List ℕ) (s' : Filesystem)
      → IsValid start s
      → IsString filename
      → IsNamed filename s.files i
      → i < length s.files
      → s'.files ≡ set s.files i (emptied (slot s.files i))
      → fs_exists filename s' ≡ false
  emptied_gone filename s' v hf (u, e) l same = fs_exists_miss filename s' (
      rw same (elim (lookup-cases filename (set s.files i (emptied (slot s.files i))) hf) [
        | inl (o, r) ↦ o
        | inr (k, o, (lk, (uk, ek))) ↦ elim (slot-set s.files i k (emptied (slot s.files i)) l) [
          | inl (ik, r) ↦ absurd (false_ne (sym (ap (λ (f : File). f.is_used) r) ∙ uk))
          | inr (ik, r) ↦ absurd (
              (v.apart i k ik u (sym (ap (λ (f : File). f.is_used) r) ∙ uk)).names
                (e ∙ sym ek ∙ ap (λ (f : File). c_str f.name) r))
        ]
      ]))

-- On a valid file system `fs_delete` fails, and changes nothing, exactly when no file has the name.
-- Else the file is gone, its memory is given back to the heap, every other slot is as it was, and the
-- file system stays valid.
pub fs_delete_lem :
    {start : ℕ} {s : Filesystem} (filename : List ℕ)
    → IsValid start s
    → IsString filename
    → (fs_delete filename s ≡ some (false, s)) × ((j : ℕ) → ¬ IsNamed filename s.files j)
      ⊎ ((i : ℕ) × (s' : Filesystem) × (fs_delete filename s ≡ some (true, s'))
          × Deleted start filename s i s')
fs_delete_lem {start} {s} filename v hf = elim (lookup-cases filename s.files hf) [
  | inl (e, r) ↦ inl (fs_delete_miss filename s e, r)
  | inr (i, e, (l, (u, en))) ↦
      let (p, n, ep, cp, lp) = v.owned i u in
      let (heap, k, valid, gone, same) = capacity-kfree p n v.heap cp in
      let h : i < max_files = rw v.slots at l in
      inr (
        i,
        removed filename s i heap,
        fs_delete_hit filename s i heap e (ap (λ o. kfree o s.heap) ep ∙ k),
        record {
          was = (u, en);
          gone = emptied_gone i filename (removed filename s i heap) v hf (u, en) l refl;
          others = λ j ne. get_or-set_ne s.files i j (emptied (slot s.files i)) no_file ne;
          released = λ q eq. let same : q ≡ p = cc in rw same gone;
          memory = refl;
          valid =
              set-IsValid (removed filename s i heap) i (emptied (slot s.files i)) v h refl
                (v.name_sizes i h) valid (λ u'. absurd (false_ne u'))
                (kept-Owns i p heap v u ep same) (λ j ne u' uj. absurd (false_ne u'));
        },
      )
]
