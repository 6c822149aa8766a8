-- ===== src/Keyboard/Queue.antt =====
-- What the keyboard buffer promises: a first-in first-out queue of at most 256 bytes that drops
-- what does not fit, and the calls that reach it.
use fru1t_os.Prelude.{ℕ, Bool, true, false, List, [], ◌∷◌, ◌++◌, ltb, if◌then◌else◌, length}

abbrev pub Queue : Type 0
Queue = List ℕ

unfoldable pub put : ℕ → Queue → Queue
put c q = if ltb (length q) 256 then q ++ (c ∷ []) else q

-- 0 stands for "no byte"
unfoldable pub get : Queue → ℕ × Queue
get [] = (0, [])
get (c ∷ q) = (c, q)

abbrev pub is_nonempty : Queue → Bool
is_nonempty [] = false
is_nonempty (_ ∷ _) = true

-- A byte that arrives by interrupt, and a reader's call.
pub data Event : Type 0 where
  arrives : ℕ → Event
  reads : Event

-- the answers of the reads, in order
unfoldable pub run : List Event → Queue → List ℕ
run [] q = []
run (arrives c ∷ es) q = run es (put c q)
run (reads ∷ es) q = let (c, q') = get q in c ∷ run es q'
