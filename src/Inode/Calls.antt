-- ===== src/Inode/Calls.antt =====
-- What is written to an inode and read from one.
use fru1t_os.Prelude.{
  ℕ, zero, suc, ◌+◌, ◌-◌, ◌/◌, ◌%◌, ◌^◌, ◌≤◌, ◌<◌, ◌≡◌, ◌≢◌, ◌⊎◌, inl, inr, refl, ap, sym, ◌∙◌,
  true, false, List, [], ltb, leb, if◌then◌else◌, arith, length, take, get_or, Bool-cases,
  length-set,
}
use fru1t_os.Inode.{Inode, BtreeFilesystem, inode_at, num_direct_blocks, fs_block_size, max_blocks}
use fru1t_os.Inode.Bitmap.{bitmap_test}
use fru1t_os.Inode.Files.{read_loop, write_loop, grown, inode_read, inode_write}
use fru1t_os.Inode.Invariant.{block_of, place, IsUsed, IsValid, inode_at-set, used_lt}
use fru1t_os.Inode.Written.{byte}
use fru1t_os.Inode.Loop.{LoopDone, write_loop-LoopDone}
use fru1t_os.Inode.Read.{read_nothing, read_loop-take, read_loop_ext}

-- the size of inode `i` is at least `end`, and nothing else has changed
record Resized (i end : ℕ) (f g : BtreeFilesystem) : Type 0 where
  others : (j : ℕ) → i ≢ j → inode_at g j ≡ inode_at f j
  blocks : (j : ℕ) → (inode_at g j).direct_blocks ≡ (inode_at f j).direct_blocks
  used : (j : ℕ) → (inode_at g j).in_use ≡ (inode_at f j).in_use
  size : end ≤ (inode_at g i).size
  memory : g.memory ≡ f.memory
  storage : g.block_storage ≡ f.block_storage
  bitmap : g.block_bitmap ≡ f.block_bitmap
  table : length g.inodes ≡ length f.inodes

module _ {i end : ℕ} {f g : BtreeFilesystem} (r : Resized i end f g) where
  resized_block : (j l : ℕ) → block_of g j l ≡ block_of f j l
  resized_block j l = ap (λ ds. get_or ds l 0) (r.blocks j)

  Resized-IsValid : IsValid f → IsValid g
  Resized-IsValid v = record {
    words = ap length r.bitmap ∙ v.words;
    table = r.table ∙ v.table;
    directs = λ j h. ap length (r.blocks j) ∙ v.directs j h;
    marked = λ j k u. rw (resized_block j k, r.bitmap) (v.marked j k (sym (r.used j) ∙ u));
    apart = λ x y k l ux uy h e.
        v.apart x y k l (sym (r.used x) ∙ ux) (sym (r.used y) ∙ uy) (rw (← resized_block x k) h)
          (sym (resized_block x k) ∙ e ∙ resized_block y l);
  }

  resized_byte : (q : ℕ) → byte g i q ≡ byte f i q
  resized_byte q =
      let at : place g (block_of g i (q / fs_block_size)) (q % fs_block_size)
          ≡ place f (block_of f i (q / fs_block_size)) (q % fs_block_size) =
        omega (arith, r.storage, resized_block i (q / fs_block_size)) in
      ap g.memory at
      ∙ ap (λ m. m (place f (block_of f i (q / fs_block_size)) (q % fs_block_size))) r.memory

grown-Resized :
    (i end : ℕ) (f : BtreeFilesystem) → i < length f.inodes → Resized i end f (grown i end f)
grown-Resized i end f h = elim (Bool-cases (ltb (inode_at f i).size end)) [
  | inr t ↦ rw t (record {
    others = λ j ne. refl;
    blocks = λ j. refl;
    used = λ j. refl;
    size = ground arith;
    memory = refl;
    storage = refl;
    bitmap = refl;
    table = refl;
  })
  | inl t ↦
      let n : Inode = record (inode_at f i) { size = end } in
      rw t (record {
        others = λ j ne. elim (inode_at-set f.inodes i j n h) [
          | inl (e, _) ↦ absurd (ne e)
          | inr (_, e) ↦ e
        ];
        blocks = λ j. elim (inode_at-set f.inodes i j n h) [
          | inl (e, w) ↦
              ap (λ (m : Inode). m.direct_blocks) w ∙ ap (λ k. (inode_at f k).direct_blocks) e
          | inr (_, w) ↦ ap (λ (m : Inode). m.direct_blocks) w
        ];
        used = λ j. elim (inode_at-set f.inodes i j n h) [
          | inl (e, w) ↦ ap (λ (m : Inode). m.in_use) w ∙ ap (λ k. (inode_at f k).in_use) e
          | inr (_, w) ↦ ap (λ (m : Inode). m.in_use) w
        ];
        size = elim (inode_at-set f.inodes i i n h) [
          | inl (_, w) ↦ omega (arith, ap (λ (m : Inode). m.size) w)
          | inr (ne, _) ↦ absurd (ne refl)
        ];
        memory = refl;
        storage = refl;
        bitmap = refl;
        table = length-set f.inodes i n;
      })
]

inode_write_equation :
    (i offset : ℕ) (cs : List ℕ) (fs : BtreeFilesystem)
    → inode_write i offset cs fs ≡ (
      (write_loop (length cs) i offset cs fs).0,
      grown i
          ((offset + (write_loop (length cs) i offset cs fs).0) % 2 ^ 32)
          (write_loop (length cs) i offset cs fs).1,
    )
unfolding inode_write
inode_write_equation i offset cs fs = refl

read_inside :
    (i offset m : ℕ) (fs : BtreeFilesystem)
    → offset + m < 2 ^ 32
    → offset + m ≤ (inode_at fs i).size
    → inode_read i offset m fs ≡ read_loop m offset m fs (inode_at fs i)
unfolding inode_read
read_inside i offset zero fs h l = elim (Bool-cases (leb (inode_at fs i).size offset)) [
  | inl t ↦ rw t (sym (read_nothing 0 offset fs (inode_at fs i)))
  | inr t ↦
      let u : ltb (inode_at fs i).size ((offset + 0) % 2 ^ 32) ≡ false = ground arith in
      rw (t, u) refl
]
read_inside i offset (suc m) fs h l =
    let t : leb (inode_at fs i).size offset ≡ false = ground arith in
    let u : ltb (inode_at fs i).size ((offset + suc m) % 2 ^ 32) ≡ false = ground arith in
    rw (t, u) refl

module _ {fs : BtreeFilesystem} (i offset : ℕ) (cs : List ℕ) (v : IsValid fs) (u : IsUsed fs i)
    (fits : offset + length cs < 2 ^ 32) where
  done : LoopDone i offset cs fs (write_loop (length cs) i offset cs fs)
  done = write_loop-LoopDone (length cs) i offset cs fs v u (omega arith) fits

  abbrev looped : BtreeFilesystem
  looped = (write_loop (length cs) i offset cs fs).1

  abbrev count : ℕ
  count = (write_loop (length cs) i offset cs fs).0

  resized : Resized i ((offset + count) % 2 ^ 32) looped (inode_write i offset cs fs).1
  resized = rw (inode_write_equation i offset cs fs) (
      grown-Resized i ((offset + count) % 2 ^ 32) looped
        (rw done.written.valid.table (used_lt i done.written.valid done.written.used)))

  counted : (inode_write i offset cs fs).0 ≡ count
  counted = ap (λ r. r.0) (inode_write_equation i offset cs fs)

  valid : IsValid (inode_write i offset cs fs).1
  valid = Resized-IsValid resized done.written.valid

  read_back : inode_read i offset count (inode_write i offset cs fs).1 ≡ take count cs
  read_back =
      let g = (inode_write i offset cs fs).1 in
      let c = done.count in
      let big : offset + count ≤ (inode_at g i).size = omega (arith, resized.size) in
      read_inside i offset count g (omega arith) big
      ∙ read_loop-take count i offset count cs g valid (resized.used i ∙ done.written.used)
          (omega arith) c (omega arith)
          (λ q lo hi.
            let (mapped, b) = done.written.now q lo hi in
            (
              (mapped.0, rw (resized_block resized i (q / fs_block_size)) mapped.1),
              resized_byte resized q ∙ b,
            ))

  -- On a valid file system a write of `cs` to an inode in use, within the 32 bits of a position, writes
  -- all its bytes, or those up to the end of the ten direct blocks, or those for which there were free
  -- blocks. A read of as many bytes at the same offset then gives them back, and the file system stays
  -- valid.
  pub inode_read-inode_write :
      (inode_read i offset (inode_write i offset cs fs).0 (inode_write i offset cs fs).1
        ≡ take (inode_write i offset cs fs).0 cs)
      × ((inode_write i offset cs fs).0 ≤ length cs)
      × (((inode_write i offset cs fs).0 ≡ length cs)
          ⊎ (num_direct_blocks ≤ (offset + (inode_write i offset cs fs).0) / fs_block_size)
          ⊎ ((b : ℕ)
              → 1 ≤ b
              → b < max_blocks
              → bitmap_test (inode_write i offset cs fs).1.block_bitmap b ≡ true))
      × IsValid (inode_write i offset cs fs).1
  inode_read-inode_write = (
    ap (λ n. inode_read i offset n (inode_write i offset cs fs).1) counted
        ∙ read_back
        ∙ ap (λ n. take n cs) (sym counted),
    omega (arith, counted, done.count),
    rw counted (elim done.why [
      | inl all ↦ inl all
      | inr (inl room) ↦ inr (inl room)
      | inr (inr full) ↦
          inr (inr (λ b lo hi. ap (λ m. bitmap_test m b) resized.bitmap ∙ full b lo hi))
    ]),
    valid,
  )

  -- On a valid file system a write to one inode in use leaves what is read from any other as it was.
  pub inode_read-inode_write_other :
      (j start size : ℕ)
      → i ≢ j
      → IsUsed fs j
      → inode_read j start size (inode_write i offset cs fs).1 ≡ inode_read j start size fs
  unfolding inode_read
  inode_read-inode_write_other j start size ne uj =
      let g = (inode_write i offset cs fs).1 in
      let same : inode_at g j ≡ inode_at fs j = resized.others j ne ∙ done.written.others j ne in
      let size' : ℕ =
        if ltb (inode_at fs j).size ((start + size) % 2 ^ 32)
        then (inode_at fs j).size - start
        else size in
      rw same (
        ap (λ r. if leb (inode_at fs j).size start then [] else r)
          (read_loop_ext size' start size' (inode_at fs j) fs g
            (resized.storage ∙ done.written.storage)
            (λ l o has lo.
              ap (λ m. m (place fs (block_of fs j l) o)) resized.memory
              ∙ done.written.bytes j l o ne uj has lo)))
