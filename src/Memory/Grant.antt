-- ===== src/Memory/Grant.antt =====
-- What `kmalloc` does on every request.
use fru1t_os.Prelude.{
  ℕ, ◌+◌, ◌%◌, ◌^◌, ◌≤◌, ◌<◌, ◌≡◌, ◌≢◌, ◌⊎◌, refl, ap, sym, ◌∙◌, Option, Bool-cases, inl, inr, none,
  some, List, [], ◌∷◌, arith, Bool, true, false, ◌&&◌, ◌||◌, leb, ltb, if◌then◌else◌,
}
use native.Mathlib.Decide.{ℕ_discrete}
use fru1t_os.Memory.{MemBlock, heap_size, header_size, align8, take_block, first_fit, kmalloc}
use fru1t_os.Memory.Tiling.{Tiles, Tiles-le, IsHeap, first_fit-Tiles}
use fru1t_os.Memory.Live.{capacity, capacity_below, capacity_within}

capacity-take_block :
    (a e size q : ℕ) (b : MemBlock) (bs : List MemBlock)
    → 0 < a
    → e ≤ 2 ^ 32
    → size ≤ b.size
    → b.is_free ≡ true
    → Tiles a e (b ∷ bs)
    → q ≢ b.addr + header_size
    → capacity q (take_block size b bs) ≡ capacity q bs
unfolding take_block
capacity-take_block a e size q b bs pa h fit free t ne = ground (
  arith,
  capacity_below (a + header_size + b.size) e q bs,
  Tiles-le (a + header_size + b.size) e bs,
)

-- the bytes that a taken block keeps
abbrev kept : ℕ → MemBlock → ℕ
kept size b = if ltb ((size + header_size) % 2 ^ 32) b.size then size else b.size

-- The pointer `p` was free in `bs`; in `bs'` at least `size` bytes are allocated at it, and every
-- other pointer is as it was.
pub record Granted (size : ℕ) (bs : List MemBlock) (p : ℕ) (bs' : List MemBlock) : Type 0 where
  pub granted : ℕ
  pub enough : size ≤ granted
  pub was_free : capacity p bs ≡ none
  pub now_owned : capacity p bs' ≡ some granted
  pub others : (q : ℕ) → q ≢ p → capacity q bs' ≡ capacity q bs

take_block-Granted :
    (a e size : ℕ) (b : MemBlock) (bs : List MemBlock)
    → 0 < a
    → e ≤ 2 ^ 32
    → size ≤ b.size
    → b.is_free ≡ true
    → Tiles a e (b ∷ bs)
    → Granted size (b ∷ bs) (b.addr + header_size) (take_block size b bs)
unfolding take_block
take_block-Granted a e size b bs pa h fit free t = record {
  granted = kept size b;
  enough = ground arith;
  was_free = ground arith;
  now_owned = ground arith;
  others = λ q ne. ground (arith, capacity-take_block a e size q b bs pa h fit free t ne);
}

module _ (a e size : ℕ) (h : e ≤ 2 ^ 32) where
  -- a block in front that stays adds one header, which is not the granted one
  Granted-cons :
      (p : ℕ) (b : MemBlock) (bs bs' : List MemBlock)
      → Tiles (a + header_size + b.size) e bs'
      → b.addr ≡ a
      → Granted size bs p bs'
      → Granted size (b ∷ bs) p (b ∷ bs')
  Granted-cons p b bs bs' t at g =
      let within = capacity_within (a + header_size + b.size) e p g.granted bs' t g.now_owned in
      record {
        granted = g.granted;
        enough = g.enough;
        was_free = ground (arith, g.was_free);
        now_owned = ground (arith, g.now_owned);
        others = λ q ne. ground (arith, g.others q ne);
      }

no_pointer : (p : ℕ) → none ≡ some p → ⊥
no_pointer p e = cc

no_blocks : (size : ℕ) → first_fit size [] ≡ (none, [])
unfolding first_fit
no_blocks size = refl

no_block : (size p : ℕ) → (first_fit size []).0 ≡ some p → ⊥
unfolding first_fit
no_block size p s = cc

module _ (size : ℕ) (b : MemBlock) (bs : List MemBlock) where
  first_fit_take :
      (b.is_free && leb size b.size) ≡ true
      → first_fit size (b ∷ bs) ≡ (some (b.addr + header_size), take_block size b bs)
  unfolding first_fit
  first_fit_take fits = rw fits

  first_fit_skip :
      (b.is_free && leb size b.size) ≡ false
      → first_fit size (b ∷ bs) ≡ ((first_fit size bs).0, b ∷ (first_fit size bs).1)
  unfolding first_fit
  first_fit_skip skip = rw skip

first_fit-Granted :
    (a e size : ℕ) (bs : List MemBlock) (p : ℕ)
    → 0 < a
    → e ≤ 2 ^ 32
    → Tiles a e bs
    → (first_fit size bs).0 ≡ some p
    → Granted size bs p (first_fit size bs).1
first_fit-Granted a e size [] p pa h t s = absurd (no_block size p s)
first_fit-Granted a e size (b ∷ bs) p pa h t s = elim (Bool-cases (b.is_free && leb size b.size)) [
  | inl fits ↦
      let taken = first_fit_take size b bs fits in
      let at : b.addr + header_size ≡ p = ground (arith, taken) in
      rw (taken, ← at) (take_block-Granted a e size b bs pa h (ground arith) (ground arith) t)
  | inr skip ↦
      let skipped = first_fit_skip size b bs skip in
      rw skipped (
        Granted-cons a e size h p b bs (first_fit size bs).1
          (first_fit-Tiles (a + header_size + b.size) e size bs (omega arith) h t.1) t.0
          (first_fit-Granted (a + header_size + b.size) e size bs p (omega arith) h t.1
            (rw skipped at s)))
]

-- a free block of at least `size` bytes is there
abbrev pub has_room : ℕ → List MemBlock → Bool
has_room size [] = false
has_room size (b ∷ bs) = (b.is_free && leb size b.size) || has_room size bs

first_fit_total :
    (size : ℕ) (bs : List MemBlock)
    → (first_fit size bs ≡ (none, bs)) × (has_room size bs ≡ false)
      ⊎ ((p : ℕ) × ((first_fit size bs).0 ≡ some p) × (has_room size bs ≡ true))
first_fit_total size [] = inl (no_blocks size, refl)
first_fit_total size (b ∷ bs) = elim (Bool-cases (b.is_free && leb size b.size)) [
  | inl fits ↦ inr (b.addr + header_size, rw (first_fit_take size b bs fits), rw fits)
  | inr skip ↦
      rw (first_fit_skip size b bs skip, skip)
        (elim (first_fit_total size bs) [
          | inl (e, r) ↦ inl (rw e, r)
          | inr (p, e, r) ↦ inr (p, e, r)
        ])
]

Granted-le :
    {bs bs' : List MemBlock} {p : ℕ} (m n : ℕ) → m ≤ n → Granted n bs p bs' → Granted m bs p bs'
Granted-le m n h g = record {
  granted = g.granted;
  enough = omega (arith, g.enough);
  was_free = g.was_free;
  now_owned = g.now_owned;
  others = g.others;
}

module _ (size : ℕ) (bs : List MemBlock) where
  kmalloc-zero : size ≡ 0 → kmalloc size bs ≡ (none, bs)
  unfolding kmalloc
  kmalloc-zero e = ground arith

  kmalloc_pos : size ≢ 0 → kmalloc size bs ≡ first_fit (align8 size) bs
  unfolding kmalloc
  kmalloc_pos ne = ground arith

le-align8 : (size : ℕ) → size + 7 < 2 ^ 32 → size ≤ align8 size
unfolding align8
le-align8 size h = omega arith

-- A request of 1 to 2^32 - 8 bytes that `kmalloc` answers with a pointer has been granted: at least
-- the bytes asked for are allocated there, which were not before, and no other pointer is touched.
pub kmalloc-Granted :
    {heap : ℕ} {bs : List MemBlock} (size p : ℕ)
    → IsHeap heap bs
    → size + 7 < 2 ^ 32
    → (kmalloc size bs).0 ≡ some p
    → Granted size bs p (kmalloc size bs).1
kmalloc-Granted {heap} {bs} size p v small s = elim (ℕ_discrete size 0) [
  | yes e ↦ absurd (no_pointer p (rw (kmalloc-zero size bs e) at s))
  | no ne ↦
      let asked = kmalloc_pos size bs ne in
      rw asked (
        Granted-le size (align8 size) (le-align8 size small) (
          first_fit-Granted heap (heap + heap_size) (align8 size) bs p v.ne_zero v.fits v.tiles
            (rw asked at s)))
]

-- `kmalloc` returns NULL and leaves the heap alone exactly when the request is 0 or no free block
-- has the rounded size, and else returns a pointer.
pub kmalloc_total :
    (size : ℕ) (bs : List MemBlock)
    → (kmalloc size bs ≡ (none, bs)) × ((size ≡ 0) ⊎ (has_room (align8 size) bs ≡ false))
      ⊎ ((p : ℕ) × ((kmalloc size bs).0 ≡ some p) × (size ≢ 0) × (has_room (align8 size) bs ≡ true))
kmalloc_total size bs = elim (ℕ_discrete size 0) [
  | yes e ↦ inl (kmalloc-zero size bs e, inl e)
  | no ne ↦ rw (kmalloc_pos size bs ne) (elim (first_fit_total (align8 size) bs) [
    | inl (e, r) ↦ inl (e, inr r)
    | inr (p, e, r) ↦ inr (p, e, ne, r)
  ])
]

align8_wraps : (size : ℕ) → 2 ^ 32 ≤ size + 7 → size < 2 ^ 32 → align8 size ≡ 0
unfolding align8
align8_wraps size h k = omega arith

-- A request of 2^32 - 7 bytes or more wraps round to 0 bytes: on a heap with a free block, however
-- small, `kmalloc` returns a pointer that was not allocated before, to fewer bytes than were asked for.
pub kmalloc_wraps :
    {heap : ℕ} {bs : List MemBlock} (size : ℕ)
    → IsHeap heap bs
    → 2 ^ 32 ≤ size + 7
    → size < 2 ^ 32
    → has_room 0 bs ≡ true
    → (p : ℕ) × (n : ℕ) × ((kmalloc size bs).0 ≡ some p)
      × (capacity p bs ≡ none)
      × (capacity p (kmalloc size bs).1 ≡ some n)
      × (n < size)
kmalloc_wraps {heap} {bs} size v h k room =
    let none_asked = align8_wraps size h k in
    let asked =
      kmalloc_pos size bs (λ e. omega (arith, h, e)) ∙ ap (λ m. first_fit m bs) none_asked in
    elim (first_fit_total 0 bs) [
      | inl (e, r) ↦ absurd (full (sym r ∙ room))
      | inr (p, e, r) ↦
          let g = first_fit-Granted heap (heap + heap_size) 0 bs p v.ne_zero v.fits v.tiles e in
          let t = first_fit-Tiles heap (heap + heap_size) 0 bs v.ne_zero v.fits v.tiles in
          let within =
            capacity_within heap (heap + heap_size) p g.granted (first_fit 0 bs).1 t g.now_owned in
          (
            p,
            g.granted,
            ap (λ (r : Option ℕ × List MemBlock). r.0) asked ∙ e,
            g.was_free,
            ap (λ (r : Option ℕ × List MemBlock). capacity p r.1) asked ∙ g.now_owned,
            omega (arith, within, v.fits, h),
          )
    ]
  where
    full : false ≡ true → ⊥
    full e = cc
