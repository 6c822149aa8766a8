-- ===== src/Fd/Uart.antt =====
-- `uart_fd_ops` of fd.c: the descriptor operations of the UART. The device is not under the
-- repository's control: a record gives its ready flag, the byte that it delivers and the byte that
-- it takes.
use fru1t_os.Prelude.{
  ℕ, zero, suc, ◌≤◌, ◌≡◌, ◌⊎◌, refl, Bool, false, some, List, [], ◌∷◌, arith, if◌then◌else◌, length,
  Bool-cases, inl, inr,
}
use Prim.Native.Nat.{bit_or}
use fru1t_os.Fd.{FdOps}

pub record Uart (D : Type 0) : Type 0 where
  pub rx_ready : D → Bool
  pub getchar : D → ℕ × D
  pub putchar : ℕ → D → D

module _ {D : Type 0} (u : Uart D) where
  -- the loop runs `count` rounds at most; what it has read, in order
  unfoldable pub uart_fd_read : (ctx count : ℕ) → D → List ℕ × D
  uart_fd_read ctx zero d = ([], d)
  uart_fd_read ctx (suc n) d =
      let (c, d') = u.getchar d in
      let (cs, d'') = uart_fd_read ctx n d' in if u.rx_ready d then (c ∷ cs, d'') else ([], d)

  unfoldable pub uart_fd_write_all : List ℕ → D → D
  uart_fd_write_all [] d = d
  uart_fd_write_all (c ∷ cs) d = uart_fd_write_all cs (u.putchar c d)

  unfoldable pub uart_fd_write : (ctx : ℕ) → List ℕ → D → ℕ × D
  uart_fd_write ctx cs d = (length cs, uart_fd_write_all cs d)

  -- FD_READABLE is 1 and FD_WRITABLE is 2
  unfoldable pub uart_fd_poll : (ctx : ℕ) → D → ℕ × D
  uart_fd_poll ctx d = (if u.rx_ready d then bit_or 2 1 else 2, d)

  abbrev pub uart_fd_close : (ctx : ℕ) → D → D
  uart_fd_close ctx d = d

  abbrev pub uart_fd_ops : FdOps D
  uart_fd_ops = record {
    read = some uart_fd_read;
    write = some uart_fd_write;
    poll = some uart_fd_poll;
    close = some uart_fd_close;
  }

  all_or_dry : {m n : ℕ} {P : Type 0} → (m ≡ n) ⊎ P → (suc m ≡ suc n) ⊎ P
  all_or_dry (inl e) = inl (omega arith)
  all_or_dry (inr p) = inr p

  -- A read of the UART never returns more bytes than asked for, and returns fewer only when the
  -- device has no byte ready; a write returns the number of its bytes; `poll` reports the UART
  -- readable exactly when a byte is ready, and always writable.
  pub uart_fd_lem :
      (ctx count : ℕ) (d : D) (cs : List ℕ)
      → let (got, d') = uart_fd_read ctx count d in
        (length got ≤ count)
        × ((length got ≡ count) ⊎ (u.rx_ready d' ≡ false))
        × ((uart_fd_write ctx cs d).0 ≡ length cs)
        × ((uart_fd_poll ctx d).0 ≡ (if u.rx_ready d then 3 else 2))
  unfolding uart_fd_read uart_fd_write uart_fd_poll
  uart_fd_lem ctx zero d cs = (omega arith, inl refl, refl, refl)
  uart_fd_lem ctx (suc n) d cs =
      let (c, d') = u.getchar d in
      let (short, dry, _, _) = uart_fd_lem ctx n d' cs in
      elim (Bool-cases (u.rx_ready d)) [
        | inl r ↦ rw r (omega arith, all_or_dry dry, refl, refl)
        | inr r ↦ rw r (omega arith, inr r, refl, refl)
      ]
