-- ===== src/Epoll/Poll.antt =====
-- `epoll_poll_fds`, `epoll_wait` and `epoll_close` of epoll.c: the walks over the items of an instance.
use Prim.Native.Nat.{bit_and, bit_or}
use fru1t_os.Prelude.{
  ℕ, zero, suc, Bool, true, false, Option, none, some, List, [], ◌∷◌, ◌==◌, if◌then◌else◌,
}
use fru1t_os.Prelude.Int.{ℤ, pos, leb_ℤ, pos_part}
use fru1t_os.Memory.{kfree}
use fru1t_os.Fd.{fd_poll}
use fru1t_os.Rbtree.{rb_first, rb_next}
use fru1t_os.Rbtree.Erase.{rb_erase}
use fru1t_os.Epoll.{
  EpollEvent, EpollItem, Epoll, closed, tree_fuel, epoll_get_instance, tree_of, with_tree, set_item,
  set_instance,
}

-- the EPOLL bit for an FD bit: IN 1 for READABLE 1, OUT 4 for WRITABLE 2, ERR 8 for ERROR 4, HUP 16 for
-- HANGUP 8
abbrev pub bit_for : (flags fd_bit epoll_bit : ℕ) → ℕ
bit_for flags fd_bit epoll_bit = if bit_and flags fd_bit == 0 then 0 else epoll_bit

unfoldable pub events_for : (flags : ℕ) → ℕ
events_for flags =
    bit_or (bit_or (bit_or (bit_for flags 1 1) (bit_for flags 2 4)) (bit_for flags 4 8))
      (bit_for flags 8 16)

abbrev pub with_event : EpollItem → Option (List EpollEvent) → Option (List EpollEvent)
with_event item none = none
with_event item (some es) =
    some (record { events = item.revents; event_data = item.user_data } ∷ es)

module _ {W : Type 0} where
  -- one item: its descriptor is polled
  unfoldable pub poll_item : ℕ → Epoll W → Epoll W
  poll_item p s =
      let (flags, fds, world) = fd_poll (s.items p).fd s.fds s.world in
      set_item p (record (s.items p) { revents = bit_and (events_for flags) (s.items p).events })
        (record s { fds = fds; world = world })

  -- the loop of `epoll_poll_fds` from node `p` on
  unfoldable pub poll_from : (fuel i p : ℕ) → Epoll W → Option (Epoll W)
  poll_from zero i p s = none
  poll_from (suc fuel) i p s =
      if p == 0 then some s else (elim (rb_next tree_fuel p (tree_of i (poll_item p s))) [
        | none ↦ none
        | some q ↦ poll_from fuel i q (poll_item p s)
      ])

  unfoldable pub epoll_poll_fds : ℕ → Epoll W → Option (Epoll W)
  epoll_poll_fds i s = elim (rb_first tree_fuel (tree_of i s)) [
    | none ↦ none
    | some p ↦ poll_from tree_fuel i p s
  ]

  -- the loop that collects the events, with room for `room` more
  unfoldable pub collect : (fuel room i p : ℕ) → Epoll W → Option (List EpollEvent)
  collect zero room i p s = none
  collect (suc fuel) zero i p s = some []
  collect (suc fuel) (suc room) i p s =
      if p == 0 then some [] else (elim (rb_next tree_fuel p (tree_of i s)) [
        | none ↦ none
        | some q ↦
            let skip = collect fuel (suc room) i q s in
            let take = with_event (s.items p) (collect fuel room i q s) in
            if (s.items p).revents == 0 then skip else take
      ])

  -- the events behind a poll
  unfoldable pub ready_events : (room i : ℕ) → Epoll W → Option (Option (List EpollEvent) × Epoll W)
  ready_events room i s = elim (rb_first tree_fuel (tree_of i s)) [
    | none ↦ none
    | some p ↦ elim (collect tree_fuel room i p s) [ none ↦ none | some es ↦ some (some es, s) ]
  ]

  -- the inner `none` is -1; else the result is the number of the events. The timeout is only printed.
  unfoldable pub epoll_wait :
      (epfd maxevents : ℤ) → Epoll W → Option (Option (List EpollEvent) × Epoll W)
  epoll_wait epfd maxevents s = elim (epoll_get_instance epfd s) [
    | none ↦ some (none, s)
    | some i ↦ if leb_ℤ maxevents (pos 0) then some (none, s) else (elim (epoll_poll_fds i s) [
      | none ↦ none
      | some s' ↦ ready_events (pos_part maxevents) i s'
    ])
  ]

  -- the loop of `epoll_close` from node `p` on
  unfoldable pub free_from : (fuel i p : ℕ) → Epoll W → Option (Epoll W)
  free_from zero i p s = none
  free_from (suc fuel) i p s =
      if p == 0 then some s else (elim (rb_next tree_fuel p (tree_of i s)) [
        | none ↦ none
        | some q ↦ elim (rb_erase tree_fuel p (tree_of i s)) [
          | none ↦ none
          | some tree ↦
              let s' = with_tree i tree s in
              elim (kfree (some p) s'.heap) [
                | none ↦ none
                | some heap ↦ free_from fuel i q (record s' { heap = heap })
              ]
        ]
      ])

  unfoldable pub close_from : (i p : ℕ) → Epoll W → Option (Bool × Epoll W)
  close_from i p s = elim (free_from tree_fuel i p s) [
    | none ↦ none
    | some s' ↦ some (true, set_instance i closed s')
  ]

  -- the flag is false for -1
  unfoldable pub epoll_close : ℤ → Epoll W → Option (Bool × Epoll W)
  epoll_close epfd s = elim (epoll_get_instance epfd s) [
    | none ↦ some (false, s)
    | some i ↦ elim (rb_first tree_fuel (tree_of i s)) [ none ↦ none | some p ↦ close_from i p s ]
  ]
