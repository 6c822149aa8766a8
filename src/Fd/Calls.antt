-- ===== src/Fd/Calls.antt =====
-- What the calls of the descriptor table do.
use fru1t_os.Prelude.{
  ℕ, ◌+◌, ◌%◌, ◌<◌, ◌≤◌, ◌≡◌, ◌≢◌, ◌⊎◌, inl, inr, refl, sym, ◌∙◌, ap, true, false, Option, none,
  some, ◌==◌, ltb, length, get_or, set, arith, Bool-cases, Option-cases, get_or-set_self,
  get_or-set_ne,
}
use native.Mathlib.Decide.{dec_lt, ℕ_discrete}
use fru1t_os.Prelude.Int.{ℤ, pos, negsuc, ◌-ℤ◌, leb_ℤ}
use fru1t_os.Fd.{
  FdOps, Fd, FdTable, max_fds, fd_type_unused, cleared, no_fd, find_unused, fd_alloc, fd_get,
  call_close, fd_close, poll_of, fd_poll, fd_update_flags,
}
use fru1t_os.Fd.Invariant.{IsValid, set-IsValid, IsFree, find_unused-some, find_unused-full}

module _ {W : Type 0} where
  fd_get_used :
      (t : FdTable W) (n : ℕ)
      → n < max_fds
      → (get_or t.fds n no_fd).type ≢ fd_type_unused
      → fd_get (pos n) t ≡ some (n, get_or t.fds n no_fd)
  unfolding fd_get
  fd_get_used t n h u =
      let inside : ltb n max_fds ≡ true = ground arith in
      let busy : ((get_or t.fds n (no_fd {W = W})).type == fd_type_unused) ≡ false = ground arith in
      rw (inside, busy)

  fd_get_free : (t : FdTable W) (n : ℕ) → IsFree t.fds n → fd_get (pos n) t ≡ none
  unfolding fd_get
  fd_get_free t n u =
      let free : ((get_or t.fds n (no_fd {W = W})).type == fd_type_unused) ≡ true = ground arith in
      elim (Bool-cases (ltb n max_fds)) [ inl h ↦ rw (h, free) | inr h ↦ rw h ]

  -- the descriptor that `fd_alloc` puts into slot `n`
  abbrev pub opened : (type context : ℕ) → Option (FdOps W) → FdTable W → ℕ → Fd W
  opened type context ops t n = record (get_or t.fds n no_fd) {
    type = type;
    flags = 0;
    context = context;
    ops = ops;
    ref_count = pos 1;
  }

  module _ (type context : ℕ) (ops : Option (FdOps W)) (t : FdTable W) where
    alloc_none :
        find_unused t.fds t.next_fd max_fds 0 ≡ none → fd_alloc type context ops t ≡ (none, t)
    unfolding fd_alloc
    alloc_none e = rw (e, fd_alloc)

    alloc_some :
        (n : ℕ)
        → find_unused t.fds t.next_fd max_fds 0 ≡ some n
        → fd_alloc type context ops t ≡ (
          some n,
          record { fds = set t.fds n (opened type context ops t n); next_fd = (n + 1) % max_fds },
        )
    unfolding fd_alloc
    alloc_some n e = rw (e, fd_alloc)

  -- what `fd_alloc` has done when it returns slot `n` and the table `t'`
  pub record Allocated (type context : ℕ) (ops : Option (FdOps W)) (t : FdTable W) (n : ℕ)
      (t' : FdTable W) : Type 0 where
    pub was_free : IsFree t.fds n
    pub found : fd_get (pos n) t' ≡ some (n, opened type context ops t n)
    pub others : (j : ℕ) → n ≢ j → get_or t'.fds j no_fd ≡ get_or t.fds j no_fd
    pub valid : IsValid t'

  -- On a valid table `fd_alloc` with a type other than FD_TYPE_UNUSED fails, and changes nothing,
  -- exactly when all 64 slots are in use. Else it takes an unused slot: `fd_get` of its number gives
  -- the new descriptor, every other slot is as it was, and the table stays valid.
  pub fd_alloc_lem :
      (type context : ℕ) (ops : Option (FdOps W)) {t : FdTable W}
      → IsValid t
      → type ≢ fd_type_unused
      → (fd_alloc type context ops t ≡ (none, t)) × ((j : ℕ) → j < max_fds → ¬ IsFree t.fds j)
        ⊎ ((n : ℕ) × ((fd_alloc type context ops t).0 ≡ some n)
            × Allocated type context ops t n (fd_alloc type context ops t).1)
  fd_alloc_lem type context ops {t} v used =
      elim (Option-cases (find_unused t.fds t.next_fd max_fds 0)) [
        | inl e ↦
            inl (alloc_none type context ops t e, find_unused-full t.fds t.next_fd v.next_in e)
        | inr (n, e) ↦
            let (n_in, free) = find_unused-some t.fds t.next_fd max_fds 0 n e in
            let h : n < length t.fds = omega (arith, v.slots) in
            let f : Fd W = opened type context ops t n in
            let at : get_or (set t.fds n f) n no_fd ≡ f = get_or-set_self t.fds n f no_fd h in
            inr (
              n,
              rw (alloc_some type context ops t n e),
              rw (alloc_some type context ops t n e) (record {
                was_free = free;
                found = fd_get_used _ n n_in (rw at used) ∙ ap (λ (g : Fd W). some (n, g)) at;
                others = λ j ne. get_or-set_ne t.fds n j f no_fd ne;
                valid =
                    set-IsValid n ((n + 1) % max_fds) f v n_in (omega arith) (v.numbered n n_in);
              }),
            )
      ]

  fd_get_negative : (t : FdTable W) (n : ℕ) → fd_get (negsuc n) t ≡ none
  unfolding fd_get
  fd_get_negative t n = refl

  fd_get_beyond : (t : FdTable W) (n : ℕ) → max_fds ≤ n → fd_get (pos n) t ≡ none
  unfolding fd_get
  fd_get_beyond t n h = let outside : ltb n max_fds ≡ false = ground arith in rw outside

  none_ne_found : (x : ℕ × Fd W) → none ≡ some x → ⊥
  none_ne_found x e = cc

  -- where `fd_get` finds a descriptor
  fd_get_inv :
      (m : ℤ) (t : FdTable W) (n : ℕ) (f : Fd W)
      → fd_get m t ≡ some (n, f)
      → (m ≡ pos n) × (n < max_fds) × (f ≡ get_or t.fds n no_fd) × (f.type ≢ fd_type_unused)
  fd_get_inv (negsuc k) t n f e = absurd (none_ne_found _ (sym (fd_get_negative t k) ∙ e))
  fd_get_inv (pos k) t n f e = elim (dec_lt k max_fds) [
    | no h ↦ absurd (none_ne_found _ (sym (fd_get_beyond t k (omega arith)) ∙ e))
    | yes h ↦ elim (ℕ_discrete (get_or t.fds k no_fd).type fd_type_unused) [
      | yes u ↦ absurd (none_ne_found _ (sym (fd_get_free t k u) ∙ e))
      | no u ↦
          let eq : some (k, get_or t.fds k no_fd) ≡ some (n, f) = sym (fd_get_used t k h u) ∙ e in
          let kn : k ≡ n =
            ap (λ (o : Option (ℕ × Fd W)). elim o [ none ↦ k | some (a, b) ↦ a ]) eq in
          let kf : get_or t.fds k no_fd ≡ f =
            ap (λ (o : Option (ℕ × Fd W)). elim o [ none ↦ f | some (a, b) ↦ b ]) eq in
          (ap pos kn, omega arith, sym kf ∙ ap (λ i. get_or t.fds i no_fd) kn, rw (← kf) u)
    ]
  ]

  -- a slot rewritten after a call has found it
  abbrev pub Rewritten : FdTable W → ℕ → Fd W → FdTable W → Type 0
  Rewritten t n f t' =
      (get_or t'.fds n no_fd ≡ f)
      × ((j : ℕ) → n ≢ j → get_or t'.fds j no_fd ≡ get_or t.fds j no_fd)
      × IsValid t'

  rewrite_slot :
      (t : FdTable W) (n : ℕ) (f : Fd W)
      → IsValid t
      → n < max_fds
      → f.fd_num ≡ n
      → Rewritten t n f (record t { fds = set t.fds n f })
  rewrite_slot t n f v h id = (
    get_or-set_self t.fds n f no_fd (omega (arith, v.slots)),
    λ j ne. get_or-set_ne t.fds n j f no_fd ne,
    set-IsValid n t.next_fd f v h v.next_in id,
  )

  -- a number that names no open descriptor
  abbrev pub IsInvalid : ℤ → FdTable W → Type 0
  IsInvalid (negsuc n) t = Unit
  IsInvalid (pos n) t = (max_fds ≤ n) ⊎ IsFree t.fds n

  fd_get-IsInvalid : (m : ℤ) (t : FdTable W) → IsInvalid m t → fd_get m t ≡ none
  fd_get-IsInvalid (negsuc n) t h = fd_get_negative t n
  fd_get-IsInvalid (pos n) t (inl h) = fd_get_beyond t n h
  fd_get-IsInvalid (pos n) t (inr u) = fd_get_free t n u

  -- On a number that is negative, past the table, or names an unused slot, `fd_get` is NULL,
  -- `fd_close` returns -1, `fd_poll` returns no flags, and neither these nor `fd_update_flags`
  -- changes the table or the world.
  pub invalid_fd :
      (m : ℤ) (flags : ℕ) (t : FdTable W) (w : W)
      → IsInvalid m t
      → (fd_get m t ≡ none)
        × (fd_close m t w ≡ (false, t, w))
        × (fd_poll m t w ≡ (0, t, w))
        × (fd_update_flags m flags t ≡ t)
  unfolding fd_close fd_poll fd_update_flags
  invalid_fd m flags t w h =
      let e = fd_get-IsInvalid m t h in
      (e, rw (e, fd_close), rw (e, fd_poll), rw (e, fd_update_flags))

  -- `fd_close` of an open descriptor with one reference calls its `close` once and frees its slot:
  -- the number is then invalid, every other slot is as it was, and the table stays valid.
  fd_close_last :
      (m : ℤ) {t : FdTable W} (n : ℕ) (f : Fd W) (w : W)
      → IsValid t
      → fd_get m t ≡ some (n, f)
      → f.ref_count ≡ pos 1
      → (t' : FdTable W) × (fd_close m t w ≡ (true, t', call_close f w))
        × IsInvalid m t'
        × Rewritten t n (cleared f) t'
  unfolding fd_close
  fd_close_last m {t} n f w v e one =
      let (mn, h, at, used) = fd_get_inv m t n f e in
      let last : leb_ℤ (f.ref_count -ℤ pos 1) (pos 0) ≡ true =
        ap (λ r. leb_ℤ (r -ℤ pos 1) (pos 0)) one in
      let freed : get_or (set t.fds n (cleared f)) n no_fd ≡ cleared f =
        get_or-set_self t.fds n (cleared f) no_fd (omega (arith, h, v.slots)) in
      (
        record t { fds = set t.fds n (cleared f) },
        rw (e, fd_close, last),
        rw mn (inr (ap (λ (g : Fd W). g.type) freed)),
        rewrite_slot t n (cleared f) v h (ap (λ (g : Fd W). g.fd_num) at ∙ v.numbered n h),
      )

  -- `fd_poll` of an open descriptor with a `poll` function calls it once, returns its flags and
  -- stores them in the descriptor; `fd_update_flags` stores the flags that it is given. Every other
  -- slot is as it was, and the table stays valid.
  pub fd_poll_stores :
      (m : ℤ) {t : FdTable W} (n : ℕ) (f : Fd W) (poll : ℕ → W → ℕ × W) (flags : ℕ) (w : W)
      → IsValid t
      → fd_get m t ≡ some (n, f)
      → poll_of f ≡ some poll
      → let (got, w') = poll f.context w in
        (t' : FdTable W) × (fd_poll m t w ≡ (got, t', w'))
        × Rewritten t n (record f { flags = got }) t'
        × Rewritten t n (record f { flags = flags }) (fd_update_flags m flags t)
  unfolding fd_poll fd_update_flags
  fd_poll_stores m {t} n f poll flags w v e p =
      let (mn, h, at, used) = fd_get_inv m t n f e in
      let id : f.fd_num ≡ n = ap (λ (g : Fd W). g.fd_num) at ∙ v.numbered n h in
      let got : ℕ = (poll f.context w).0 in
      (
        record t { fds = set t.fds n (record f { flags = got }) },
        rw (e, fd_poll, p),
        rewrite_slot t n (record f { flags = got }) v h id,
        rw (e, fd_update_flags) (rewrite_slot t n (record f { flags = flags }) v h id),
      )
