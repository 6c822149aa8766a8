-- ===== src/Process/Mark.antt =====
-- The state in which `schedule` has marked the next process, before the registers are switched.
use fru1t_os.Prelude.{
  ℕ, ◌<◌, ◌≡◌, ◌≢◌, inl, inr, refl, sym, ◌∙◌, ap, true, false, none, some, ◌==◌, if◌then◌else◌,
  arith, Bool-cases, Option-cases,
}
use fru1t_os.Process.{
  unused, ready, running, TrapFrame, Process, Scheduler, proc, set_state, release_current,
  max_processes,
}
use fru1t_os.Process.Invariant.{
  has_frame, IsTable, IsValid, set-IsTable, set_state_at, released, release_current_at,
  release_current-IsTable, some_inj,
}
use fru1t_os.Process.Order.{Found}

pub frame_of : (p : Process) → has_frame p ≡ true → (f : TrapFrame) × (p.trap_frame ≡ some f)
frame_of p h = elim (Option-cases p.trap_frame) [
  | inl e ↦ absurd (no_frame e)
  | inr (f, e) ↦ (f, e)
]
  where
    no_frame : p.trap_frame ≡ none → ⊥
    no_frame e = ground arith

pub unused_ne_running : unused ≢ running
unused_ne_running e = cc

pub ready_ne_running : ready ≢ running
ready_ne_running e = cc

pub ready_ne_unused : ready ≢ unused
ready_ne_unused e = cc

pub eq_ne : {a b : ℕ} → a ≢ b → (a == b) ≡ false
eq_ne ne = ground arith

pub eq_self : (k : ℕ) → (k == k) ≡ true
eq_self k = ground arith

-- the state in which `schedule` has marked the next process
abbrev pub marked : Scheduler → ℕ → Scheduler
marked s k = record s { processes = set_state (release_current s) k running; current_proc = some k }

pub released_frame : (p : Process) → (released p).trap_frame ≡ p.trap_frame
released_frame p = ground arith

pub released_not_running : (p : Process) → (released p).state ≢ running
released_not_running p = ground arith

framed_of : (p q : Process) → p.trap_frame ≡ q.trap_frame → has_frame q ≡ true → has_frame p ≡ true
framed_of p q e h = ground arith

-- a state whose current process `k` has a frame and is the only one that may run
pub current-IsValid :
    (s : Scheduler) (k : ℕ)
    → IsTable s.processes
    → s.current_proc ≡ some k
    → k < max_processes
    → has_frame (proc s.processes k) ≡ true
    → ((i : ℕ) → (proc s.processes i).state ≡ running → k ≡ i)
    → IsValid s
current-IsValid s k t e h fr one = record {
  table = t;
  current_in = λ c e'. rw (some_inj c k (sym e' ∙ e)) h;
  current_framed = λ c e'. rw (some_inj c k (sym e' ∙ e)) fr;
  one_running = λ i r. e ∙ ap some (one i r);
}

module _ (s : Scheduler) (v : IsValid s) where
  module _ {start n i : ℕ} (k : ℕ) (f : Found (release_current s) start n i k) where
    pub Found_in : k < max_processes
    Found_in = omega (arith, f.at)

    Found_framed : has_frame (proc (release_current s) k) ≡ true
    Found_framed = (release_current-IsTable v).framed k (λ u. ready_ne_unused (sym f.is_ready ∙ u))

    pub marked_at :
        (j : ℕ)
        → proc (marked s k).processes j ≡ (
            if k == j
            then record (proc (release_current s) k) { state = running }
            else proc (release_current s) j)
    marked_at j = set_state_at k j running (release_current-IsTable v) Found_in

    pub marked_else :
        (j : ℕ) → (k == j) ≡ false → proc (marked s k).processes j ≡ released (proc s.processes j)
    marked_else j e = marked_at j ∙ rw e (release_current_at v j)

    pub marked-IsValid : IsValid (marked s k)
    marked-IsValid =
        current-IsValid (marked s k) k
          (set-IsTable k (record (proc (release_current s) k) { state = running })
            (release_current-IsTable v) Found_in ((release_current-IsTable v).numbered k Found_in)
            (λ _. Found_framed))
          refl Found_in (rw (marked_at k, eq_self k) Found_framed)
          (λ j r. elim (Bool-cases (k == j)) [
            | inl e ↦ ground arith
            | inr e ↦ absurd (
                released_not_running (proc s.processes j)
                  (ap (λ (p : Process). p.state) (sym (marked_else j e)) ∙ r))
          ])

    -- the mark touches no frame
    pub marked_frame :
        (j : ℕ) → (proc (marked s k).processes j).trap_frame ≡ (proc s.processes j).trap_frame
    marked_frame j = elim (Bool-cases (k == j)) [
      | inl e ↦
          let kj : k ≡ j = ground arith in
          rw (marked_at j, e, ← kj, release_current_at v k) (released_frame (proc s.processes k))
      | inr e ↦ rw (marked_else j e) (released_frame (proc s.processes j))
    ]

    pub marked_framed :
        (j : ℕ)
        → has_frame (proc s.processes j) ≡ true
        → has_frame (proc (marked s k).processes j) ≡ true
    marked_framed j h =
        framed_of (proc (marked s k).processes j) (proc s.processes j) (marked_frame j) h
