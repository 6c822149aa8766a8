-- ===== src/Epoll.antt =====
-- The event polling of epoll.c and epoll.h over the descriptor table, the heap allocator and the
-- red-black tree. The globals are one state. An item is the address that `kmalloc` gave for it, which is
-- that of its tree node, too; a pointer to an instance is its index in the array. The loops over a tree
-- have fuel for one item more than there are descriptors; `none` is a loop that runs out of it. What
-- `printf` prints is left out.
pub mod Poll
pub mod Calls
mod Tests
use fru1t_os.Prelude.{
  ℕ, zero, suc, ◌+◌, Bool, true, false, not, ◌&&◌, ◌||◌, Option, none, some, List, [], ◌∷◌, ◌==◌,
  if◌then◌else◌, get_or, set,
}
use fru1t_os.Prelude.Int.{ℤ, pos, negsuc, ◌-ℤ◌, ltb_ℤ, leb_ℤ}
use fru1t_os.Memory.{MemBlock, kmalloc, kfree}
use fru1t_os.Fd.{FdTable, fd_get, max_fds}
use fru1t_os.Rbtree.{RbTree, RbNode, rb_clear_node, rb_insert_color, hang}
use fru1t_os.Rbtree.Erase.{rb_erase}

abbrev pub max_epoll_instances : ℕ
max_epoll_instances = 16

-- EPOLL_CTL_ADD, EPOLL_CTL_DEL, EPOLL_CTL_MOD
abbrev pub epoll_ctl_add : ℕ
epoll_ctl_add = 1

abbrev pub epoll_ctl_del : ℕ
epoll_ctl_del = 2

abbrev pub epoll_ctl_mod : ℕ
epoll_ctl_mod = 3

-- `struct epoll_event`
pub record EpollEvent : Type 0 where
  pub events : ℕ
  pub event_data : ℕ

-- `struct epoll_item`, without its tree node
pub record EpollItem : Type 0 where
  pub fd : ℤ
  pub events : ℕ
  pub user_data : ℕ
  pub revents : ℕ

-- sizeof(struct epoll_item)
abbrev pub item_size : ℕ
item_size = 40

-- `struct epoll_instance`; `ready_list` is only ever NULL
pub record EpollInstance : Type 0 where
  pub epfd : ℤ
  pub items_tree : ℕ
  pub num_items : ℤ
  pub in_use : Bool

-- `global_epoll`, the tree nodes and the items at each address, the heap, the descriptor table, and
-- the rest of the world
pub record Epoll (W : Type 0) : Type 0 where
  pub instances : List EpollInstance
  pub nodes : ℕ → RbNode
  pub items : ℕ → EpollItem
  pub heap : List MemBlock
  pub fds : FdTable W
  pub world : W

abbrev pub closed : EpollInstance
closed = record { epfd = negsuc 0; items_tree = 0; num_items = pos 0; in_use = false }

abbrev pub closed_all : List EpollInstance → List EpollInstance
closed_all [] = []
closed_all (e ∷ es) = closed ∷ closed_all es

abbrev pub equals : ℤ → ℤ → Bool
equals a b = leb_ℤ a b && leb_ℤ b a

-- the index of the first instance with that number, counting from `i`
unfoldable pub get_from : ℤ → ℕ → List EpollInstance → Option ℕ
get_from epfd i [] = none
get_from epfd i (e ∷ es) =
    let rest = get_from epfd (i + 1) es in if e.in_use && equals e.epfd epfd then some i else rest

unfoldable pub find_closed : ℕ → List EpollInstance → Option ℕ
find_closed i [] = none
find_closed i (e ∷ es) = let rest = find_closed (i + 1) es in if e.in_use then rest else some i

abbrev pub tree_fuel : ℕ
tree_fuel = max_fds + 1

module _ {W : Type 0} where
  unfoldable pub epoll_init : Epoll W → Epoll W
  epoll_init s = record s { instances = closed_all s.instances }

  -- `none` is NULL
  unfoldable pub epoll_get_instance : ℤ → Epoll W → Option ℕ
  epoll_get_instance epfd s = get_from epfd 0 s.instances

  -- the number of a new instance is -(i + 1); -999 is the answer without a free one
  unfoldable pub epoll_create : Epoll W → ℤ × Epoll W
  epoll_create s = elim (find_closed 0 s.instances) [
    | none ↦ (negsuc 998, s)
    | some i ↦ (
      negsuc i,
      record s {
        instances =
            set s.instances i
              (record { epfd = negsuc i; items_tree = 0; num_items = pos 0; in_use = true });
      },
    )
  ]

  abbrev pub instance_at : ℕ → Epoll W → EpollInstance
  instance_at i s = get_or s.instances i closed

  abbrev pub set_instance : ℕ → EpollInstance → Epoll W → Epoll W
  set_instance i e s = record s { instances = set s.instances i e }

  -- the tree of an instance, and the state with another one
  abbrev pub tree_of : ℕ → Epoll W → RbTree
  tree_of i s = record { rb_node = (instance_at i s).items_tree; nodes = s.nodes }

  abbrev pub with_tree : ℕ → RbTree → Epoll W → Epoll W
  with_tree i t s =
      set_instance i (record (instance_at i s) { items_tree = t.rb_node })
        (record s { nodes = t.nodes })

  abbrev pub set_item : ℕ → EpollItem → Epoll W → Epoll W
  set_item p item s = record s { items = λ q. if q == p then item else s.items q }

  -- the loop of `epoll_find_item` from node `p` on; 0 is NULL
  unfoldable pub find_item_from : (fuel p : ℕ) → ℤ → Epoll W → Option ℕ
  find_item_from zero p fd s = none
  find_item_from (suc fuel) p fd s =
      let left = find_item_from fuel (s.nodes p).left fd s in
      let right = find_item_from fuel (s.nodes p).right fd s in
      if p == 0
      then some 0
      else if ltb_ℤ fd (s.items p).fd
      then left
      else if ltb_ℤ (s.items p).fd fd
      then right
      else some p

  unfoldable pub epoll_find_item : ℕ → ℤ → Epoll W → Option ℕ
  epoll_find_item i fd s = find_item_from tree_fuel (instance_at i s).items_tree fd s

  -- the loop of `epoll_insert_item`: the node above the place and whether the place is its left one; the
  -- inner `none` is a duplicate
  unfoldable pub find_place :
      (fuel p parent : ℕ) (is_left : Bool) → ℤ → Epoll W → Option (Option (ℕ × Bool))
  find_place zero p parent is_left fd s = none
  find_place (suc fuel) p parent is_left fd s =
      let left = find_place fuel (s.nodes p).left p true fd s in
      let right = find_place fuel (s.nodes p).right p false fd s in
      if p == 0
      then some (some (parent, is_left))
      else if ltb_ℤ fd (s.items p).fd
      then left
      else if ltb_ℤ (s.items p).fd fd
      then right
      else some none

  -- the flag is false for -1
  unfoldable pub epoll_insert_item : (i p : ℕ) → Epoll W → Option (Bool × Epoll W)
  epoll_insert_item i p s =
      elim (find_place tree_fuel (instance_at i s).items_tree 0 true (s.items p).fd s) [
        | none ↦ none
        | some none ↦ some (false, s)
        | some (some (parent, is_left)) ↦
            elim (rb_insert_color tree_fuel p (hang p parent is_left (tree_of i s))) [
              | none ↦ none
              | some tree ↦
                  let s' = with_tree i tree s in
                  let e = instance_at i s' in
                  some (true, set_instance i (record e { num_items = e.num_items -ℤ negsuc 0 }) s')
            ]
      ]

  -- `kfree` of an item, and the flag that is returned then
  unfoldable pub release_item : (p : ℕ) → Bool → Epoll W → Option (Bool × Epoll W)
  release_item p ok s = elim (kfree (some p) s.heap) [
    | none ↦ none
    | some heap ↦ some (ok, record s { heap = heap })
  ]

  -- EPOLL_CTL_ADD for a descriptor without an item; the item's memory is given back when it is not put in
  unfoldable pub add_item : (i : ℕ) → ℤ → EpollEvent → Epoll W → Option (Bool × Epoll W)
  add_item i fd event s = elim (kmalloc item_size s.heap).0 [
    | none ↦ some (false, record s { heap = (kmalloc item_size s.heap).1 })
    | some p ↦
        let item : EpollItem = record {
          fd = fd;
          events = event.events;
          user_data = event.event_data;
          revents = 0;
        } in
        let s' = set_item p item (record s { heap = (kmalloc item_size s.heap).1 }) in
        elim (epoll_insert_item i p (with_tree i (rb_clear_node p (tree_of i s')) s')) [
          | none ↦ none
          | some (true, s'') ↦ some (true, s'')
          | some (false, s'') ↦ release_item p false s''
        ]
  ]

  -- EPOLL_CTL_DEL for an item
  unfoldable pub remove_item : (i p : ℕ) → Epoll W → Option (Bool × Epoll W)
  remove_item i p s = elim (rb_erase tree_fuel p (tree_of i s)) [
    | none ↦ none
    | some tree ↦
        let s' = with_tree i tree s in
        let e = instance_at i s' in
        let s'' = set_instance i (record e { num_items = e.num_items -ℤ pos 1 }) s' in
        release_item p true s''
  ]

  abbrev pub modify_item : ℕ → EpollEvent → Epoll W → Epoll W
  modify_item p event s =
      set_item p (record (s.items p) { events = event.events; user_data = event.event_data }) s

  -- the operation for an item that is there, or not, as 0
  unfoldable pub control : (i op p : ℕ) → ℤ → EpollEvent → Epoll W → Option (Bool × Epoll W)
  control i op p fd event s =
      if op == epoll_ctl_add
      then if p == 0 then add_item i fd event s else some (false, s)
      else if p == 0
      then some (false, s)
      else if op == epoll_ctl_del
      then remove_item i p s
      else some (true, modify_item p event s)

  -- the flag is false for -1
  unfoldable pub epoll_ctl :
      (epfd : ℤ) (op : ℕ) (fd : ℤ) (event : EpollEvent) → Epoll W → Option (Bool × Epoll W)
  epoll_ctl epfd op fd event s = elim (epoll_get_instance epfd s) [
    | none ↦ some (false, s)
    | some i ↦ elim (fd_get fd s.fds) [
      | none ↦ some (false, s)
      | some entry ↦
          if (op == epoll_ctl_add) || (op == epoll_ctl_del) || (op == epoll_ctl_mod)
          then (elim (epoll_find_item i fd s) [ none ↦ none | some p ↦ control i op p fd event s ])
          else some (false, s)
    ]
  ]
