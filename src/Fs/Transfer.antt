-- ===== src/Fs/Transfer.antt =====
-- What is written to a file and read from it.
use fru1t_os.Prelude.{
  ℕ, ◌+◌, ◌≤◌, ◌<◌, ◌≡◌, ◌≢◌, ◌⊎◌, inl, inr, refl, ap, sym, ◌∙◌, true, false, none, some, List,
  arith, ltb, if◌then◌else◌, length, Bool-cases, Option-cases,
}
use fru1t_os.Memory.Live.{allocated_apart}
use fru1t_os.CString.{c_str}
use fru1t_os.CString.Laws.{IsString}
use fru1t_os.Fs.{File, Filesystem, lookup, store, load, address, fs_write, fs_read}
use fru1t_os.Fs.Bytes.{load-store, load-store_apart}
use fru1t_os.Fs.Invariant.{slot, IsValid, lookup-cases}

module _ (filename : List ℕ) (s : Filesystem) where
  fs_write_miss :
      (bytes : List ℕ) → lookup filename s.files ≡ none → fs_write filename bytes s ≡ (false, s)
  unfolding fs_write
  fs_write_miss bytes e = rw (e, fs_write)

  fs_write_large :
      (bytes : List ℕ) (i : ℕ)
      → lookup filename s.files ≡ some i
      → (slot s.files i).size < length bytes
      → fs_write filename bytes s ≡ (false, s)
  unfolding fs_write
  fs_write_large bytes i e h =
      let t : ltb (slot s.files i).size (length bytes) ≡ true = ground arith in rw (e, t, fs_write)

  fs_write_hit :
      (bytes : List ℕ) (i : ℕ)
      → lookup filename s.files ≡ some i
      → length bytes ≤ (slot s.files i).size
      → fs_write filename bytes s
        ≡ (true, record s { memory = store (address (slot s.files i).contents) bytes s.memory })
  unfolding fs_write
  fs_write_hit bytes i e h =
      let t : ltb (slot s.files i).size (length bytes) ≡ false = ground arith in rw (e, t, fs_write)

  fs_read_miss : (size : ℕ) → lookup filename s.files ≡ none → fs_read filename size s ≡ none
  unfolding fs_read
  fs_read_miss size e = rw (e, fs_read)

  fs_read_hit :
      (size i : ℕ)
      → lookup filename s.files ≡ some i
      → fs_read filename size s
        ≡ some (
            load
              (address (slot s.files i).contents)
              (if ltb size (slot s.files i).size then size else (slot s.files i).size)
              s.memory)
  unfolding fs_read
  fs_read_hit size i e = rw (e, fs_read)

-- What a successful `fs_write` wrote, `fs_read` of as many bytes reads back.
pub fs_read-fs_write :
    (filename bytes : List ℕ) (s : Filesystem)
    → (fs_write filename bytes s).0 ≡ true
    → fs_read filename (length bytes) (fs_write filename bytes s).1 ≡ some bytes
fs_read-fs_write filename bytes s done = elim (Option-cases (lookup filename s.files)) [
  | inl e ↦ absurd (refused (rw (fs_write_miss filename s bytes e) at done))
  | inr (i, e) ↦
      let f : File = slot s.files i in
      elim (Bool-cases (ltb f.size (length bytes))) [
        | inl t ↦ absurd (refused (rw (fs_write_large filename s bytes i e (ground arith)) at done))
        | inr t ↦
            let fits : length bytes ≤ f.size = ground arith in
            let n : ℕ = if ltb (length bytes) f.size then length bytes else f.size in
            let all : n ≡ length bytes = ground arith in
            rw (fs_write_hit filename s bytes i e fits) (
              fs_read_hit filename _ (length bytes) i e
              ∙ ap
                  (λ k.
                    some (load (address f.contents) k (store (address f.contents) bytes s.memory)))
                  all
              ∙ ap some (load-store (address f.contents) bytes s.memory))
      ]
]
  where
    refused : false ≡ true → ⊥
    refused e = cc

-- the memory of two files lies apart
regions_apart :
    {start : ℕ} {s : Filesystem} (i j : ℕ)
    → IsValid start s
    → i ≢ j
    → (slot s.files i).is_used ≡ true
    → (slot s.files j).is_used ≡ true
    → (address (slot s.files i).contents + (slot s.files i).size
        ≤ address (slot s.files j).contents)
      ⊎ (address (slot s.files j).contents + (slot s.files j).size
          ≤ address (slot s.files i).contents)
regions_apart {s = s} i j v ne ui uj =
    let (p, m, ep, cp, lp) = v.owned i ui in
    let (q, n, eq, cq, lq) = v.owned j uj in
    let differ : p ≢ q = λ e. (v.apart i j ne ui uj).contents (ep ∙ ap some e ∙ sym eq) in
    elim (Bool-cases (ltb p q)) [
      | inl t ↦
          let apart = allocated_apart p q m n v.heap cp cq (ground arith) in
          inl (rw (ep, eq) (omega arith))
      | inr t ↦
          let apart = allocated_apart q p n m v.heap cq cp (ground arith) in
          inr (rw (ep, eq) (omega arith))
    ]

-- On a valid file system `fs_write` to one file leaves what `fs_read` of any other gives as it was.
pub fs_read-fs_write_other :
    {start : ℕ} {s : Filesystem} (filename other bytes : List ℕ) (size : ℕ)
    → IsValid start s
    → IsString filename
    → IsString other
    → filename ≢ other
    → fs_read other size (fs_write filename bytes s).1 ≡ fs_read other size s
fs_read-fs_write_other {s = s} filename other bytes size v hf ho ne =
    elim (lookup-cases filename s.files hf) [
      | inl (e, r) ↦ rw (fs_write_miss filename s bytes e) refl
      | inr (i, e, (l, (ui, ei))) ↦
          let f : File = slot s.files i in
          elim (Bool-cases (ltb f.size (length bytes))) [
            | inl t ↦ rw (fs_write_large filename s bytes i e (ground arith)) refl
            | inr t ↦
                let fits : length bytes ≤ f.size = ground arith in
                rw (fs_write_hit filename s bytes i e fits) (elim (lookup-cases other s.files ho) [
                  | inl (e', r) ↦ fs_read_miss other _ size e' ∙ sym (fs_read_miss other s size e')
                  | inr (j, e', (l', (uj, ej))) ↦
                      let g : File = slot s.files j in
                      let i_ne : i ≢ j =
                        λ same. ne (sym ei ∙ ap (λ k. c_str (slot s.files k).name) same ∙ ej) in
                      let n : ℕ = if ltb size g.size then size else g.size in
                      let n_le : n ≤ g.size = ground arith in
                      fs_read_hit other _ size j e'
                      ∙ ap some (
                          load-store_apart (address g.contents) n (address f.contents) bytes
                            s.memory
                            (elim (regions_apart i j v i_ne ui uj) [
                              | inl b ↦ inl (omega arith)
                              | inr b ↦ inr (omega arith)
                            ]))
                      ∙ sym (fs_read_hit other s size j e')
                ])
          ]
    ]
