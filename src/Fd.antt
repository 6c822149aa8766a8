-- ===== src/Fd.antt =====
-- The file descriptor table of fd.c and fd.h. The global table is a state of its own; `W` is the
-- rest of the world, which the operations of a descriptor read and change. A pointer to a context is
-- a number, 0 for NULL.
pub mod Invariant
pub mod Calls
pub mod Uart
mod Tests
use fru1t_os.Prelude.{
  ℕ, zero, suc, ◌+◌, ◌%◌, Bool, true, false, Option, none, some, List, [], ◌∷◌, ltb, ◌==◌,
  if◌then◌else◌, get_elem?, get_or, set, length,
}
use fru1t_os.Prelude.Int.{ℤ, pos, negsuc, ◌-ℤ◌, leb_ℤ}

-- MAX_FDS
abbrev pub max_fds : ℕ
max_fds = 64

-- FD_TYPE_UNUSED
abbrev pub fd_type_unused : ℕ
fd_type_unused = 0

-- `struct fd_ops`: each function pointer may be NULL. `poll` returns the flags.
pub record FdOps (W : Type 0) : Type 0 where
  pub read : Option (ℕ → ℕ → W → List ℕ × W)
  pub write : Option (ℕ → List ℕ → W → ℕ × W)
  pub poll : Option (ℕ → W → ℕ × W)
  pub close : Option (ℕ → W → W)

module _ (W : Type 0) where
  -- `struct fd`
  pub record Fd : Type 0 where
    pub fd_num : ℕ
    pub type : ℕ
    pub flags : ℕ
    pub context : ℕ
    pub ops : Option (FdOps W)
    pub ref_count : ℤ

  pub record FdTable : Type 0 where
    pub fds : List Fd
    pub next_fd : ℕ

-- the slot `i` as `fd_init` and `fd_close` leave it
abbrev pub cleared : {W : Type 0} → Fd W → Fd W
cleared f = record f {
  type = fd_type_unused;
  flags = 0;
  context = 0;
  ops = none;
  ref_count = pos 0;
}

module _ {W : Type 0} where
  -- a slot past the end, which the source never reads
  abbrev pub no_fd : Fd W
  no_fd = record {
    fd_num = 0;
    type = fd_type_unused;
    flags = 0;
    context = 0;
    ops = none;
    ref_count = pos 0;
  }

  fds_from : ℕ → ℕ → List (Fd W)
  fds_from zero i = []
  fds_from (suc n) i = record no_fd { fd_num = i } ∷ fds_from n (i + 1)

  unfoldable pub fd_init : FdTable W
  unfolding fds_from
  fd_init = record { fds = fds_from max_fds 0; next_fd = 0 }

  -- the loop of `fd_alloc`, with `n` rounds left: the first unused slot from `start + i` on, going
  -- round
  unfoldable pub find_unused : List (Fd W) → (start n i : ℕ) → Option ℕ
  find_unused fds start zero i = none
  find_unused fds start (suc n) i =
      let fd_num = (start + i) % max_fds in
      let rest = find_unused fds start n (i + 1) in
      if (get_or fds fd_num no_fd).type == fd_type_unused then some fd_num else rest

  -- `none` is the result -1
  unfoldable pub fd_alloc : (type context : ℕ) → Option (FdOps W) → FdTable W → Option ℕ × FdTable W
  fd_alloc type context ops t = elim (find_unused t.fds t.next_fd max_fds 0) [
    | none ↦ (none, t)
    | some n ↦ (
      some n,
      record {
        fds = set t.fds n (record (get_or t.fds n no_fd) {
          type = type;
          flags = 0;
          context = context;
          ops = ops;
          ref_count = pos 1;
        });
        next_fd = (n + 1) % max_fds;
      },
    )
  ]

  -- the descriptor and its slot; `none` is NULL
  unfoldable pub fd_get : ℤ → FdTable W → Option (ℕ × Fd W)
  fd_get (negsuc n) t = none
  fd_get (pos n) t =
      let fd = get_or t.fds n no_fd in
      if ltb n max_fds then (if fd.type == fd_type_unused then none else some (n, fd)) else none

  -- `fd->ops->close(fd->context)`, if there is such a function
  abbrev pub call_close : Fd W → W → W
  call_close f w = elim f.ops [
    | none ↦ w
    | some o ↦ elim o.close [ none ↦ w | some close ↦ close f.context w ]
  ]

  -- the result is -1 for `false` and 0 for `true`
  unfoldable pub fd_close : ℤ → FdTable W → W → Bool × FdTable W × W
  fd_close n t w = elim (fd_get n t) [
    | none ↦ (false, t, w)
    | some (i, f) ↦
        let count = f.ref_count -ℤ pos 1 in
        if leb_ℤ count (pos 0)
        then (true, record t { fds = set t.fds i (cleared f) }, call_close f w)
        else (true, record t { fds = set t.fds i (record f { ref_count = count }) }, w)
  ]

  -- the `poll` function of a descriptor
  abbrev pub poll_of : Fd W → Option (ℕ → W → ℕ × W)
  poll_of f = elim f.ops [ none ↦ none | some o ↦ o.poll ]

  unfoldable pub fd_poll : ℤ → FdTable W → W → ℕ × FdTable W × W
  fd_poll n t w = elim (fd_get n t) [
    | none ↦ (0, t, w)
    | some (i, f) ↦ elim (poll_of f) [
      | none ↦ (0, t, w)
      | some poll ↦
          let (flags, w') = poll f.context w in
          (flags, record t { fds = set t.fds i (record f { flags = flags }) }, w')
    ]
  ]

  unfoldable pub fd_update_flags : ℤ → (flags : ℕ) → FdTable W → FdTable W
  fd_update_flags n flags t = elim (fd_get n t) [
    | none ↦ t
    | some (i, f) ↦ record t { fds = set t.fds i (record f { flags = flags }) }
  ]
