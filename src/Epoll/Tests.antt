-- ===== src/Epoll/Tests.antt =====
-- Runs of the event polling, and the theorem at a table without instances.
use fru1t_os.Prelude.{
  ℕ, ◌+◌, ◌<◌, ◌≡◌, ◌⊎◌, refl, sym, ◌∙◌, Option, none, some, List, [], ◌∷◌, true, false, replicate,
  get_or, zero, suc,
}
use fru1t_os.Prelude.Int.{pos, negsuc}
use fru1t_os.Memory.{kmalloc, kfree, take_block, align8, first_fit, mark_free, coalesce}
use fru1t_os.Fd.{Fd, FdOps, fd_get, fd_poll}
use fru1t_os.Rbtree.{
  black, set_node, adopt, hang, rb_first, insert_loop, rb_insert_color, leftmost, climb, rb_next,
}
use fru1t_os.Rbtree.Erase.{
  rb_erase, erase_inner, color_fixup, take_over, unlink, rb_erase_color, erase_loop,
}
use fru1t_os.Epoll.{
  EpollEvent, Epoll, closed, get_from, find_closed, epoll_get_instance, epoll_create, instance_at,
  epoll_find_item, find_item_from, find_place, epoll_insert_item, add_item, control, epoll_ctl,
}
use fru1t_os.Epoll.Poll.{
  events_for, poll_item, poll_from, epoll_poll_fds, collect, ready_events, epoll_wait, free_from,
  close_from, epoll_close,
}
use fru1t_os.Epoll.Calls.{IsNumbered, Opened, epoll_create_lem}

-- a descriptor that is readable and writable, in slot 3
abbrev pipe_ops : FdOps ℕ
pipe_ops = record { read = none; write = none; poll = some (λ c w. (3, w + 1)); close = none }

abbrev pipe : Fd ℕ
pipe = record {
  fd_num = 3;
  type = 3;
  flags = 0;
  context = 0;
  ops = some pipe_ops;
  ref_count = pos 1;
}

abbrev unused_fd : Fd ℕ
unused_fd = record { fd_num = 0; type = 0; flags = 0; context = 0; ops = none; ref_count = pos 0 }

abbrev start : Epoll ℕ
start = record {
  instances = replicate 16 closed;
  nodes = λ p. record { parent = 0; left = 0; right = 0; color = black };
  items = λ p. record { fd = pos 0; events = 0; user_data = 0; revents = 0 };
  heap = record { addr = 4096; is_free = true; size = 4000 } ∷ [];
  fds = record { fds = unused_fd ∷ unused_fd ∷ pipe ∷ pipe ∷ replicate 60 unused_fd; next_fd = 4 };
  world = 0;
}

abbrev state_of : {A : Type 0} → Option (A × Epoll ℕ) → Epoll ℕ
state_of none = start
state_of (some (r, s)) = s

abbrev one : Epoll ℕ
one = (epoll_create start).1

abbrev wanted : EpollEvent
wanted = record { events = 1; event_data = 77 }

-- the instance with two items
abbrev watched : Epoll ℕ
watched =
    state_of
      (epoll_ctl (negsuc 0) 1 (pos 2) wanted (state_of (epoll_ctl (negsuc 0) 1 (pos 3) wanted one)))

abbrev events_of : Option (Option (List EpollEvent) × Epoll ℕ) → List EpollEvent
events_of none = []
events_of (some (none, s)) = []
events_of (some (some es, s)) = es

wait_runs : events_of (epoll_wait (negsuc 0) (pos 8) watched) ≡ wanted ∷ wanted ∷ []
unfolding epoll_get_instance get_from epoll_ctl epoll_create find_closed fd_get epoll_find_item
    find_item_from control add_item kmalloc epoll_insert_item find_place set_node rb_insert_color
    insert_loop align8 first_fit take_block hang climb leftmost rb_first rb_next adopt epoll_wait
    epoll_poll_fds poll_from poll_item fd_poll events_for ready_events collect
wait_runs = refl

in_use_runs : (instance_at 0 (state_of (epoll_close (negsuc 0) watched))).in_use ≡ false
unfolding epoll_get_instance get_from epoll_ctl epoll_create find_closed fd_get epoll_find_item
    find_item_from control add_item kmalloc epoll_insert_item find_place set_node rb_insert_color
    insert_loop align8 first_fit take_block hang climb leftmost rb_first rb_next adopt epoll_close
    close_from free_from kfree mark_free coalesce rb_erase color_fixup rb_erase_color erase_loop
    erase_inner unlink take_over
in_use_runs = refl

all_closed : (n j : ℕ) → (get_or (replicate n closed) j closed).in_use ≡ false
all_closed zero j = refl
all_closed (suc n) zero = refl
all_closed (suc n) (suc j) = all_closed n j

true_ne : true ≡ false → ⊥
true_ne e = cc

start-IsNumbered : IsNumbered start
start-IsNumbered j u = absurd (true_ne (sym u ∙ all_closed 16 j))

epoll_create_lem_example :
    (epoll_create start ≡ (negsuc 998, start))
      × ((j : ℕ) → j < 16 → (instance_at j start).in_use ≡ true)
    ⊎ ((i : ℕ) × (s' : Epoll ℕ) × (epoll_create start ≡ (negsuc i, s')) × Opened i start s')
epoll_create_lem_example = epoll_create_lem start-IsNumbered
