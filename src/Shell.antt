-- ===== src/Shell.antt =====
-- The shell of kernel.c: the line editor of `shell_run`, `shell_tokenize`, the dispatch of a command
-- and the commands over the file system. `Reply` says which text a command prints.
pub mod Name
pub mod Editor
pub mod Tokens
mod Tests
use fru1t_os.Prelude.{
  ℕ, zero, suc, ◌+◌, ◌-◌, Bool, true, false, ◌&&◌, ◌||◌, Option, none, some, List, [], ◌∷◌, ◌++◌,
  ltb, leb, ◌==◌, if◌then◌else◌, length, set, replicate,
}
use fru1t_os.Prelude.Int.{ℤ, pos}
use fru1t_os.Shell.Name
use fru1t_os.Memory.{MemStats, kmalloc, kfree, memory_stats}
use fru1t_os.CString.{strcmp, c_str, str_to_int}
use fru1t_os.Fs.{File, Filesystem, max_filesize, is_zero, fs_create, fs_read, fs_delete, store}

abbrev pub shell_buffer_size : ℕ
shell_buffer_size = 256

abbrev pub max_args : ℕ
max_args = 10

-- `struct shell_state`
pub record ShellState : Type 0 where
  pub input_buffer : List ℕ
  pub buffer_pos : ℕ
  pub running : Bool

unfoldable pub shell_init : ShellState
shell_init = record { input_buffer = replicate shell_buffer_size 0; buffer_pos = 0; running = true }

-- one round of the inner loop of `shell_run`: the flag says that the line is entered
unfoldable pub edit : ℕ → ShellState → Bool × ShellState
edit c s =
    if c == 10 || c == 13
    then (true, record s { input_buffer = set s.input_buffer s.buffer_pos 0 })
    else if c == 8 || c == 127
    then (false, (if ltb 0 s.buffer_pos then record s { buffer_pos = s.buffer_pos - 1 } else s))
    else if leb 32 c && ltb c 127 && ltb s.buffer_pos (shell_buffer_size - 1)
    then (
      false,
      record s { input_buffer = set s.input_buffer s.buffer_pos c; buffer_pos = s.buffer_pos + 1 },
    )
    else (false, s)

abbrev pub is_blank : ℕ → Bool
is_blank c = c == 32 || c == 9

-- the words that the loop of `shell_tokenize` finds, at most `n`; `word` is what `token_buffer` holds
-- so far
unfoldable pub scan : (n : ℕ) → (word input : List ℕ) → List (List ℕ)
scan zero word input = []
scan (suc n) [] [] = []
scan (suc n) (w ∷ ws) [] = (w ∷ ws) ∷ []
scan (suc n) [] (c ∷ cs) = elim (is_blank c) [
  | true ↦ scan (suc n) [] cs
  | false ↦ scan (suc n) (c ∷ []) cs
]
scan (suc n) (w ∷ ws) (c ∷ cs) = elim (is_blank c) [
  | true ↦ (w ∷ ws) ∷ scan n [] cs
  | false ↦ scan (suc n) (w ∷ (ws ++ (c ∷ []))) cs
]

-- an entry of `args`: the pointer, and the string that the memory holds there
pub record Token : Type 0 where
  pub pointer : ℕ
  pub text : List ℕ

-- the copies of the words on the heap; `none` is a word that `token_buffer` cannot hold, or a copy to
-- NULL
unfoldable pub save : List (List ℕ) → Filesystem → Option (List Token × Filesystem)
save [] s = some ([], s)
save (w ∷ ws) s = elim (ltb (length w) shell_buffer_size) [
  | false ↦ none
  | true ↦ elim (kmalloc (length w + 1) s.heap).0 [
    | none ↦ none
    | some p ↦
        elim (save ws (record s {
          heap = (kmalloc (length w + 1) s.heap).1;
          memory = store p (w ++ (0 ∷ [])) s.memory;
        })) [ none ↦ none | some (ts, s') ↦ some (record { pointer = p; text = w } ∷ ts, s') ]
  ]
]

-- each word is copied when it ends, and the search does not look at the copies
unfoldable pub shell_tokenize : List ℕ → ℕ → Filesystem → Option (List Token × Filesystem)
shell_tokenize input n s = save (scan n [] input) s

pub data Reply : Type 0 where
  help : Reply
  listing : List (List ℕ × ℕ) → Reply
  content : List ℕ → Reply
  invalid_size : Reply
  usage : Reply
  stats : MemStats → Reply
  clear : Reply
  echoed : List (List ℕ) → Reply
  goodbye : Reply
  unknown : List ℕ → Reply
  silent : Reply

abbrev pub used_files : List File → List (List ℕ × ℕ)
used_files [] = []
used_files (f ∷ fs) = if f.is_used then (c_str f.name, f.size) ∷ used_files fs else used_files fs

unfoldable pub fs_list : Filesystem → List (List ℕ × ℕ)
fs_list s = if is_zero s.file_count then [] else used_files s.files

unfoldable pub cmd_cat : List ℕ → Filesystem → Reply
cmd_cat filename s = elim (fs_read filename max_filesize s) [
  | none ↦ silent
  | some [] ↦ silent
  | some (c ∷ cs) ↦ content (c_str (c ∷ cs))
]

-- `none` is a write behind the name, or an overflow of `int`
unfoldable pub cmd_create : (filename size_str : List ℕ) → Filesystem → Option (Reply × Filesystem)
cmd_create filename size_str s = elim (str_to_int 0 size_str) [
  | none ↦ none
  | some size ↦
      if size == 0 || ltb max_filesize size
      then some (invalid_size, s)
      else (elim (fs_create filename size s) [ none ↦ none | some (i, s') ↦ some (silent, s') ])
]

abbrev pub texts : List Token → List (List ℕ)
texts [] = []
texts (t ∷ ts) = t.text ∷ texts ts

abbrev pub same_str : List ℕ → List ℕ → Bool
same_str s t = is_zero (strcmp s t)

-- `args` are the words behind the command's own; the flag is `running`
unfoldable pub shell_execute_command :
    (cmd : List ℕ) (args : List (List ℕ)) → Bool × Filesystem → Option (Reply × Bool × Filesystem)
shell_execute_command cmd args (running, s) =
    if same_str cmd Name.help
    then some (Reply.help, running, s)
    else if same_str cmd Name.ls
    then some (listing (fs_list s), running, s)
    else if same_str cmd Name.cat
    then (elim args [ [] ↦ some (usage, running, s) | f ∷ _ ↦ some (cmd_cat f s, running, s) ])
    else if same_str cmd Name.create
    then (elim args [
      | f ∷ size ∷ _ ↦ elim (cmd_create f size s) [
        | none ↦ none
        | some (r, s') ↦ some (r, running, s')
      ]
      | _ ↦ some (usage, running, s)
    ])
    else if same_str cmd Name.delete
    then (elim args [
      | [] ↦ some (usage, running, s)
      | f ∷ _ ↦ elim (fs_delete f s) [ none ↦ none | some (ok, s') ↦ some (silent, running, s') ]
    ])
    else if same_str cmd Name.memstat
    then some (stats (memory_stats s.heap), running, s)
    else if same_str cmd Name.clear
    then some (Reply.clear, running, s)
    else if same_str cmd Name.echo
    then some (echoed args, running, s)
    else if same_str cmd Name.exit
    then some (goodbye, false, s)
    else some (unknown cmd, running, s)

-- the loop that frees the copies
unfoldable pub free_all : List Token → Filesystem → Option Filesystem
free_all [] s = some s
free_all (t ∷ ts) s = elim (kfree (some t.pointer) s.heap) [
  | none ↦ none
  | some heap ↦ free_all ts (record s { heap = heap })
]

unfoldable pub shell_parse_command :
    (input : List ℕ) → Bool × Filesystem → Option (Reply × Bool × Filesystem)
shell_parse_command input (running, s) = elim (shell_tokenize input max_args s) [
  | none ↦ none
  | some ([], s') ↦ some (silent, running, s')
  | some (t ∷ ts, s') ↦ elim (shell_execute_command t.text (texts ts) (running, s')) [
    | none ↦ none
    | some (r, running', s'') ↦ elim (free_all (t ∷ ts) s'') [
      | none ↦ none
      | some freed ↦ some (r, running', freed)
    ]
  ]
]
