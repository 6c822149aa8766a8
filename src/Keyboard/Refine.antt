-- ===== src/Keyboard/Refine.antt =====
-- The ring buffer of the keyboard refines the bounded queue.
use fru1t_os.Prelude.{
  ℕ, zero, suc, ◌+◌, ◌-◌, ◌%◌, ◌≤◌, ◌<◌, ◌≡◌, refl, ap, List, [], ◌∷◌, ◌++◌, arith, length, get_or,
  set, length-set, get_or-set_self, get_or-set_ne,
}
use mathlib.Core.Path.{ap₂}
use fru1t_os.Keyboard.{
  InputBuffer, input_buffer_put, input_buffer_get, input_buffer_available, input_buffer_init,
}
use fru1t_os.Keyboard.Queue
use fru1t_os.Keyboard.Queue.{Queue, Event, arrives, reads}

pub record IsValid (b : InputBuffer) : Type 0 where
  pub storage : length b.buffer ≡ 256
  pub read_in : b.read_pos < 256
  pub count_in : b.count ≤ 256
  pub write_at : b.write_pos ≡ (b.read_pos + b.count) % 256

-- the `n` bytes from index `r` on, going round at 256
abbrev pub window : List ℕ → ℕ → ℕ → Queue
window buf r zero = []
window buf r (suc n) = get_or buf r 0 ∷ window buf ((r + 1) % 256) n

abbrev pub contents : InputBuffer → Queue
contents b = window b.buffer b.read_pos b.count

length-window : (buf : List ℕ) (r n : ℕ) → length (window buf r n) ≡ n
length-window buf r zero = refl
length-window buf r (suc n) = ap suc (length-window buf ((r + 1) % 256) n)

-- A byte written just past a window extends it.
window-set :
    (buf : List ℕ) (c n r i : ℕ)
    → length buf ≡ 256
    → r < 256
    → n < 256
    → i ≡ (r + n) % 256
    → window (set buf i c) r (suc n) ≡ window buf r n ++ (c ∷ [])
window-set buf c zero r i hs hr hn e =
    let e' : i ≡ r = omega arith in rw (e', get_or-set_self buf r c 0 (omega arith))
window-set buf c (suc n) r i hs hr hn e =
    ap₂ ◌∷◌ (get_or-set_ne buf i r c 0 (omega arith))
      (window-set buf c n ((r + 1) % 256) i hs (omega arith) (omega arith) (omega arith))

window_pos :
    (buf : List ℕ) (r n : ℕ)
    → 0 < n
    → window buf r n ≡ get_or buf r 0 ∷ window buf ((r + 1) % 256) (n - 1)
window_pos buf r zero h = elim h [ ]
window_pos buf r (suc n) h = ap (λ k. window buf r (suc k)) (omega arith)

pub put-IsValid : {b : InputBuffer} (c : ℕ) → IsValid b → IsValid (input_buffer_put c b)
unfolding input_buffer_put
put-IsValid {b} c v = ground (arith, length-set b.buffer b.write_pos c)

pub get-IsValid : {b : InputBuffer} → IsValid b → IsValid (input_buffer_get b).1
unfolding input_buffer_get
get-IsValid v = ground arith

pub contents-put :
    {b : InputBuffer} (c : ℕ)
    → IsValid b
    → contents (input_buffer_put c b) ≡ Queue.put c (contents b)
unfolding input_buffer_put Queue.put
contents-put {b} c v = ground (
  arith,
  length-window b.buffer b.read_pos b.count,
  window-set b.buffer c b.count b.read_pos b.write_pos,
)

pub contents-get :
    {b : InputBuffer}
    → IsValid b
    → let (c, b') = input_buffer_get b in (c, contents b') ≡ Queue.get (contents b)
unfolding input_buffer_get Queue.get
contents-get {b} v = ground (arith, window_pos b.buffer b.read_pos b.count)

-- the events on the ring buffer itself: the answers of the reads, in order
unfoldable pub run : List Event → InputBuffer → List ℕ
run [] b = []
run (arrives c ∷ es) b = run es (input_buffer_put c b)
run (reads ∷ es) b = let (c, b') = input_buffer_get b in c ∷ run es b'

-- From any valid buffer, every sequence of arrivals and reads gets the answers of the bounded
-- queue of the bytes that the buffer holds.
pub run_refines :
    (es : List Event) {b : InputBuffer} → IsValid b → run es b ≡ Queue.run es (contents b)
unfolding run Queue.run
run_refines [] v = refl
run_refines (arrives c ∷ es) v = rw (run_refines es (put-IsValid c v), contents-put c v)
run_refines (reads ∷ es) v = rw (run_refines es (get-IsValid v), ← contents-get v)

available-contents : (b : InputBuffer) → input_buffer_available b ≡ Queue.is_nonempty (contents b)
unfolding input_buffer_available
available-contents b = ground (arith, length-window b.buffer b.read_pos b.count)

-- A valid buffer stays valid under `input_buffer_put` and `input_buffer_get`,
-- `input_buffer_available` says whether it holds a byte, and `input_buffer_init` makes of it a
-- valid empty one.
pub ops-IsValid :
    {b : InputBuffer} (c : ℕ)
    → IsValid b
    → IsValid (input_buffer_put c b)
      × IsValid (input_buffer_get b).1
      × (input_buffer_available b ≡ Queue.is_nonempty (contents b))
      × IsValid (input_buffer_init b)
      × (contents (input_buffer_init b) ≡ [])
unfolding input_buffer_init
ops-IsValid {b} c v = (put-IsValid c v, get-IsValid v, available-contents b, ground arith, refl)
