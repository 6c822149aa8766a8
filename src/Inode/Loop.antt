-- ===== src/Inode/Loop.antt =====
-- The loop of `inode_write`, and the call.
use fru1t_os.Prelude.{
  ℕ, zero, suc, ◌+◌, ◌-◌, ◌/◌, ◌%◌, ◌^◌, ◌≤◌, ◌<◌, ◌≡◌, ◌⊎◌, inl, inr, refl, true, false, none,
  some, List, [], ◌∷◌, ltb, leb, arith, length, take, Bool-cases,
}
use fru1t_os.Fs.{store}
use fru1t_os.Inode.{BtreeFilesystem, inode_at, num_direct_blocks, fs_block_size, max_blocks}
use fru1t_os.Inode.Bitmap.{bitmap_test}
use fru1t_os.Inode.Files.{drop, chunk, with_memory, address_of, ensure_block, write_loop}
use fru1t_os.Inode.Pieces.{length-drop}
use fru1t_os.Inode.Invariant.{IsUsed, IsValid}
use fru1t_os.Inode.Ensure.{Ensured, ensure_block-cases}
use fru1t_os.Inode.Written.{Written, nothing-Written, then_Written}
use fru1t_os.Inode.Write.{chunk_pos, chunk-le, chunk_fits, address_of_hit, stored-Written}

-- The loop wrote the first bytes of `cs` from position `p` on: all of them, or those up to the end of
-- the direct blocks, or those for which there were blocks.
pub record LoopDone (i p : ℕ) (cs : List ℕ) (fs : BtreeFilesystem) (r : ℕ × BtreeFilesystem)
    : Type 0 where
  pub count : r.0 ≤ length cs
  pub written : Written i p (p + r.0) cs fs r.1
  pub why :
      (r.0 ≡ length cs)
      ⊎ (num_direct_blocks ≤ (p + r.0) / fs_block_size)
      ⊎ ((b : ℕ) → 1 ≤ b → b < max_blocks → bitmap_test r.1.block_bitmap b ≡ true)

module _ (fuel i p c : ℕ) (cs : List ℕ) (fs : BtreeFilesystem) where
  loop_beyond :
      num_direct_blocks ≤ p / fs_block_size → write_loop (suc fuel) i p (c ∷ cs) fs ≡ (0, fs)
  unfolding write_loop
  loop_beyond h = let t : leb num_direct_blocks (p / fs_block_size) ≡ true = ground arith in rw t

  loop_full :
      p / fs_block_size < num_direct_blocks
      → ensure_block i (p / fs_block_size) fs ≡ none
      → write_loop (suc fuel) i p (c ∷ cs) fs ≡ (0, fs)
  unfolding write_loop
  loop_full h e =
      let t : leb num_direct_blocks (p / fs_block_size) ≡ false = ground arith in
      rw (t, e, write_loop)

  loop_step :
      (f : BtreeFilesystem) (a : ℕ)
      → p / fs_block_size < num_direct_blocks
      → ensure_block i (p / fs_block_size) fs ≡ some f
      → address_of f (inode_at f i) p ≡ some a
      → write_loop (suc fuel) i p (c ∷ cs) fs ≡ (
          let r =
            write_loop fuel i
              ((p + chunk p (length (c ∷ cs))) % 2 ^ 32)
              (drop (chunk p (length (c ∷ cs))) (c ∷ cs))
              (with_memory f (store a (take (chunk p (length (c ∷ cs))) (c ∷ cs)) f.memory)) in
          (chunk p (length (c ∷ cs)) + r.0, r.1))
  unfolding write_loop
  loop_step f a h e d =
      let t : leb num_direct_blocks (p / fs_block_size) ≡ false = ground arith in
      rw (t, e, d, write_loop)

stopped :
    {fs : BtreeFilesystem} (i p : ℕ) (cs : List ℕ)
    → IsValid fs
    → IsUsed fs i
    → (0 ≡ length cs)
      ⊎ (num_direct_blocks ≤ p / fs_block_size)
      ⊎ ((b : ℕ) → 1 ≤ b → b < max_blocks → bitmap_test fs.block_bitmap b ≡ true)
    → LoopDone i p cs fs (0, fs)
stopped i p cs v u why =
    let e : p + 0 ≡ p = omega arith in
    record { count = omega arith; written = rw e (nothing-Written i p cs v u); why = rw e why }

loop_empty : (fuel i p : ℕ) (fs : BtreeFilesystem) → write_loop fuel i p [] fs ≡ (0, fs)
unfolding write_loop
loop_empty zero i p fs = refl
loop_empty (suc fuel) i p fs = refl

-- a round, then the rest
module _ {fs f : BtreeFilesystem} (i p k : ℕ) (cs : List ℕ) (r : ℕ × BtreeFilesystem) where
  round_done :
      k ≤ length cs
      → Written i p (p + k) cs fs f
      → LoopDone i (p + k) (drop k cs) f r
      → LoopDone i p cs fs (k + r.0, r.1)
  round_done len a b =
      let e : p + (k + r.0) ≡ p + k + r.0 = omega arith in
      let n : p + k - p ≡ k = omega arith in
      record {
        count = omega (arith, b.count, length-drop k cs);
        written = rw e (
            then_Written i p (p + k) (p + k + r.0) cs (omega arith) (omega arith) a
              (rw n b.written));
        why = rw e (elim b.why [
          | inl all ↦ inl (omega (arith, length-drop k cs))
          | inr (inl room) ↦ inr (inl room)
          | inr (inr full) ↦ inr (inr full)
        ]);
      }

round :
    (fuel i p c : ℕ) (cs : List ℕ) (fs f : BtreeFilesystem)
    → ((p' : ℕ) (cs' : List ℕ) (g : BtreeFilesystem)
        → IsValid g
        → IsUsed g i
        → length cs' ≤ fuel
        → p' + length cs' < 2 ^ 32
        → LoopDone i p' cs' g (write_loop fuel i p' cs' g))
    → IsValid fs
    → IsUsed fs i
    → length (c ∷ cs) ≤ suc fuel
    → p + length (c ∷ cs) < 2 ^ 32
    → p / fs_block_size < num_direct_blocks
    → ensure_block i (p / fs_block_size) fs ≡ some f
    → Ensured i (p / fs_block_size) fs f
    → LoopDone i p (c ∷ cs) fs (write_loop (suc fuel) i p (c ∷ cs) fs)
round fuel i p c cs fs f ih v u l w room e en =
    let k : ℕ = chunk p (length (c ∷ cs)) in
    let k_pos : 0 < k = chunk_pos p (length (c ∷ cs)) (omega arith) in
    let k_le : k ≤ length (c ∷ cs) = chunk-le p (length (c ∷ cs)) in
    let at = address_of_hit f i p (room, en.has) en.bounded in
    let done = stored-Written i p k (c ∷ cs) v u en (chunk_fits p (length (c ∷ cs))) k_le room in
    let left = length-drop k (c ∷ cs) in
    let same : (p + k) % 2 ^ 32 ≡ p + k = omega arith in
    let rest = ih (p + k) (drop k (c ∷ cs)) _ done.valid done.used (omega arith) (omega arith) in
    rw (loop_step fuel i p c cs fs f _ room e at, same) (round_done i p k (c ∷ cs) _ k_le done rest)

pub write_loop-LoopDone :
    (fuel i p : ℕ) (cs : List ℕ) (fs : BtreeFilesystem)
    → IsValid fs
    → IsUsed fs i
    → length cs ≤ fuel
    → p + length cs < 2 ^ 32
    → LoopDone i p cs fs (write_loop fuel i p cs fs)
write_loop-LoopDone fuel i p [] fs v u l w =
    rw (loop_empty fuel i p fs) (stopped i p [] v u (inl refl))
write_loop-LoopDone zero i p (c ∷ cs) fs v u l w = absurd (omega arith)
write_loop-LoopDone (suc fuel) i p (c ∷ cs) fs v u l w =
    elim (Bool-cases (ltb (p / fs_block_size) num_direct_blocks)) [
      | inr t ↦
          let beyond : num_direct_blocks ≤ p / fs_block_size = ground arith in
          rw (loop_beyond fuel i p c cs fs beyond) (stopped i p (c ∷ cs) v u (inr (inl beyond)))
      | inl t ↦
          let room : p / fs_block_size < num_direct_blocks = ground arith in
          elim (ensure_block-cases i (p / fs_block_size) v u room) [
            | inl (e, full) ↦
                rw (loop_full fuel i p c cs fs room e) (stopped i p (c ∷ cs) v u (inr (inr full)))
            | inr (f, e, en) ↦
                round fuel i p c cs fs f (λ p' cs' g. write_loop-LoopDone fuel i p' cs' g) v u l w
                  room e en
          ]
    ]
