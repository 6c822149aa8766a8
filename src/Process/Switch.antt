-- ===== src/Process/Switch.antt =====
-- What `schedule` leaves behind: a valid table, the picked process running on the processor, and the
-- registers of the one before in its frame.
use fru1t_os.Prelude.{
  ℕ, ◌<◌, ◌≡◌, ◌≢◌, ◌⊎◌, inl, inr, refl, sym, ◌∙◌, ap, true, false, none, some, List, ◌==◌,
  if◌then◌else◌, length, set, arith, Bool-cases, Option-cases,
}
use fru1t_os.Process.{
  ready, running, TrapFrame, Machine, loaded, Process, Scheduler, proc, find_ready, context_switch,
  release_current, start_index, schedule, switch_from, max_processes,
}
use fru1t_os.Process.Invariant.{
  has_frame, IsValid, proc-set, set-IsTable, released, release_current_at, release_current-IsTable,
  some_inj, none_ne,
}
use fru1t_os.Process.Order.{Found, visited, find_ready-Found, find_ready-none}
use fru1t_os.Process.Mark.{
  marked, frame_of, eq_self, current-IsValid, marked_at, marked-IsValid, released_not_running,
  marked_frame, marked_framed,
}

schedule_idle :
    (mc : Machine) (s : Scheduler)
    → find_ready (release_current s) (start_index s) max_processes 0 ≡ none
    → schedule mc s ≡ some (record s { processes = release_current s })
unfolding schedule
schedule_idle mc s e = rw (e, schedule)

schedule_next :
    (mc : Machine) (s : Scheduler) (k : ℕ)
    → find_ready (release_current s) (start_index s) max_processes 0 ≡ some k
    → schedule mc s ≡ switch_from mc s.current_proc k (marked s k)
unfolding schedule
schedule_next mc s k e = rw (e, schedule)

schedule_first :
    (mc : Machine) (s : Scheduler) (k : ℕ)
    → find_ready (release_current s) (start_index s) max_processes 0 ≡ some k
    → s.current_proc ≡ none
    → schedule mc s ≡ some (marked s k)
unfolding switch_from
schedule_first mc s k e n = schedule_next mc s k e ∙ ap (λ o. switch_from mc o k (marked s k)) n

schedule_switch :
    (mc : Machine) (s : Scheduler) (k c : ℕ)
    → find_ready (release_current s) (start_index s) max_processes 0 ≡ some k
    → s.current_proc ≡ some c
    → schedule mc s ≡ context_switch mc c k (marked s k)
unfolding switch_from
schedule_switch mc s k c e n = schedule_next mc s k e ∙ ap (λ o. switch_from mc o k (marked s k)) n

-- the table after the registers `f` are saved for process `c`
abbrev saved : List Process → ℕ → TrapFrame → List Process
saved ps c f = set ps c (record (proc ps c) { trap_frame = some f })

context_switch_lem :
    (mc : Machine) (s : Scheduler) (c k : ℕ) (f g : TrapFrame)
    → (proc s.processes c).trap_frame ≡ some f
    → (proc (saved s.processes c s.cpu) k).trap_frame ≡ some g
    → context_switch mc c k s
      ≡ some (record s { processes = saved s.processes c s.cpu; cpu = loaded mc g })
unfolding context_switch
context_switch_lem mc s c k f g e h = rw (e, context_switch, h)

saved_at :
    (ps : List Process) (c i : ℕ) (f : TrapFrame)
    → c < length ps
    → proc (saved ps c f) i
      ≡ (if c == i then record (proc ps c) { trap_frame = some f } else proc ps i)
saved_at ps c i f h = proc-set ps c i _ h

-- saving registers changes no number and no state
saved_state :
    (ps : List Process) (c i : ℕ) (f : TrapFrame)
    → c < length ps
    → (proc (saved ps c f) i).state ≡ (proc ps i).state
saved_state ps c i f h = elim (Bool-cases (c == i)) [
  | inl e ↦
      let ci : c ≡ i = ground arith in rw (saved_at ps c i f h, e) (ap (λ j. (proc ps j).state) ci)
  | inr n ↦ rw (saved_at ps c i f h, n)
]

saved_framed :
    (ps : List Process) (c i : ℕ) (f : TrapFrame)
    → c < length ps
    → has_frame (proc ps i) ≡ true
    → has_frame (proc (saved ps c f) i) ≡ true
saved_framed ps c i f h fr = elim (Bool-cases (c == i)) [
  | inl e ↦ rw (saved_at ps c i f h, e)
  | inr n ↦ rw (saved_at ps c i f h, n) fr
]

saved-IsValid :
    (s : Scheduler) (c k : ℕ) (f g : TrapFrame)
    → IsValid s
    → c < max_processes
    → s.current_proc ≡ some k
    → IsValid (record s { processes = saved s.processes c f; cpu = g })
saved-IsValid s c k f g v h e =
    let h' : c < length s.processes = omega (arith, v.table.slots) in
    current-IsValid _ k
      (set-IsTable c (record (proc s.processes c) { trap_frame = some f }) v.table h
        (v.table.numbered c h) (λ _. refl))
      e (v.current_in k e) (saved_framed s.processes c k f h' (v.current_framed k e))
      (λ i r. some_inj k i (sym e ∙ v.one_running i (sym (saved_state s.processes c i f h') ∙ r)))

has_frame-released : (p : Process) → has_frame (released p) ≡ has_frame p
has_frame-released p = ground arith

-- no process is ready: the processor goes on as it was
pub record Idle (s s' : Scheduler) : Type 0 where
  pub nothing_ready :
      (d : ℕ)
      → d < max_processes
      → (proc (release_current s) (visited (start_index s) 0 d)).state ≢ ready
  pub table : s'.processes ≡ release_current s
  pub same_current : s'.current_proc ≡ s.current_proc
  pub same_cpu : s'.cpu ≡ s.cpu

-- process `k` goes on: it is the first ready one behind the current one, and with a current process
-- before it the registers are exchanged
pub record Picked (mc : Machine) (s s' : Scheduler) (k : ℕ) : Type 0 where
  pub first_ready : Found (release_current s) (start_index s) max_processes 0 k
  pub current : s'.current_proc ≡ some k
  pub runs : (proc s'.processes k).state ≡ running
  pub kept : s.current_proc ≡ none → s'.cpu ≡ s.cpu
  pub saves : (c : ℕ) → s.current_proc ≡ some c → (proc s'.processes c).trap_frame ≡ some s.cpu
  pub loads :
      (c : ℕ)
      → s.current_proc ≡ some c
      → (f : TrapFrame) × ((if c == k then some s.cpu else (proc s.processes k).trap_frame)
          ≡ some f)
        × (s'.cpu ≡ loaded mc f)

abbrev pub Scheduled : Machine → Scheduler → Type 0
Scheduled mc s =
    (s' : Scheduler) × (schedule mc s ≡ some s')
    × IsValid s'
    × (Idle s s' ⊎ ((k : ℕ) × Picked mc s s' k))

module _ (mc : Machine) (s : Scheduler) (v : IsValid s) where
  idle-IsValid : IsValid (record s { processes = release_current s })
  idle-IsValid = record {
    table = release_current-IsTable v;
    current_in = v.current_in;
    current_framed =
        λ c e. rw (release_current_at v c) (has_frame-released _ ∙ v.current_framed c e);
    one_running = λ i r. absurd (
        released_not_running (proc s.processes i)
          (ap (λ (p : Process). p.state) (sym (release_current_at v i)) ∙ r));
  }

  idle_case : find_ready (release_current s) (start_index s) max_processes 0 ≡ none → Scheduled mc s
  idle_case e = (
    record s { processes = release_current s },
    schedule_idle mc s e,
    idle-IsValid,
    inl (record {
      nothing_ready = find_ready-none (release_current s) (start_index s) max_processes 0 e;
      table = refl;
      same_current = refl;
      same_cpu = refl;
    }),
  )

  first_case :
      (k : ℕ)
      → find_ready (release_current s) (start_index s) max_processes 0 ≡ some k
      → s.current_proc ≡ none
      → Scheduled mc s
  first_case k e n =
      let f = find_ready-Found (release_current s) (start_index s) max_processes 0 k e in
      (
        marked s k,
        schedule_first mc s k e n,
        marked-IsValid s v k f,
        inr (
          k,
          record {
            first_ready = f;
            current = refl;
            runs = rw (marked_at s v k f k, eq_self k);
            kept = λ _. refl;
            saves = λ c h. absurd (none_ne c (sym n ∙ h));
            loads = λ c h. absurd (none_ne c (sym n ∙ h));
          },
        ),
      )

  switch_case :
      (k c : ℕ)
      → find_ready (release_current s) (start_index s) max_processes 0 ≡ some k
      → s.current_proc ≡ some c
      → Scheduled mc s
  switch_case k c e n =
      let f = find_ready-Found (release_current s) (start_index s) max_processes 0 k e in
      let m : Scheduler = marked s k in
      let vm : IsValid m = marked-IsValid s v k f in
      let h : c < length m.processes = omega (arith, vm.table.slots, v.current_in c n) in
      let (old, e1) =
        frame_of (proc m.processes c) (marked_framed s v k f c (v.current_framed c n)) in
      let (g, e2) =
        frame_of (proc (saved m.processes c s.cpu) k)
          (saved_framed m.processes c k s.cpu h (vm.current_framed k refl)) in
      (
        record m { processes = saved m.processes c s.cpu; cpu = loaded mc g },
        schedule_switch mc s k c e n ∙ context_switch_lem mc m c k old g e1 e2,
        saved-IsValid m c k s.cpu (loaded mc g) vm (v.current_in c n) refl,
        inr (
          k,
          record {
            first_ready = f;
            current = refl;
            runs = saved_state m.processes c k s.cpu h ∙ rw (marked_at s v k f k, eq_self k);
            kept = λ z. absurd (none_ne c (sym z ∙ n));
            saves = λ c' n'.
                rw (some_inj c' c (sym n' ∙ n), saved_at m.processes c c s.cpu h, eq_self c);
            loads = λ c' n'. (
              g,
              ap (λ d. if d == k then some s.cpu else (proc s.processes k).trap_frame)
                    (some_inj c' c (sym n' ∙ n))
                  ∙ from_frame (Bool-cases (c == k)) h
                  ∙ e2,
              refl,
            );
          },
        ),
      )
    where
      -- the frame that the loads start from, as it is behind the save
      from_frame :
          ((c == k) ≡ true) ⊎ ((c == k) ≡ false)
          → c < length (marked s k).processes
          → (if c == k then some s.cpu else (proc s.processes k).trap_frame)
            ≡ (proc (saved (marked s k).processes c s.cpu) k).trap_frame
      from_frame (inl t) h = rw (saved_at (marked s k).processes c k s.cpu h, t)
      from_frame (inr t) h =
          rw (saved_at (marked s k).processes c k s.cpu h, t)
            (sym (
              marked_frame s v k
                (find_ready-Found (release_current s) (start_index s) max_processes 0 k e) k))

pub schedule_lem : (mc : Machine) {s : Scheduler} → IsValid s → Scheduled mc s
schedule_lem mc {s} v =
    elim (Option-cases (find_ready (release_current s) (start_index s) max_processes 0)) [
      | inl e ↦ idle_case mc s v e
      | inr (k, e) ↦ elim (Option-cases s.current_proc) [
        | inl n ↦ first_case mc s v k e n
        | inr (c, n) ↦ switch_case mc s v k c e n
      ]
    ]
