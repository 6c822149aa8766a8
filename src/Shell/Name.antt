-- ===== src/Shell/Name.antt =====
-- The names of the shell's commands, which `shell_execute_command` compares with.
use fru1t_os.Prelude.{ℕ, List, [], ◌∷◌}

abbrev pub help : List ℕ
help = b'h' ∷ b'e' ∷ b'l' ∷ b'p' ∷ []

abbrev pub ls : List ℕ
ls = b'l' ∷ b's' ∷ []

abbrev pub cat : List ℕ
cat = b'c' ∷ b'a' ∷ b't' ∷ []

abbrev pub create : List ℕ
create = b'c' ∷ b'r' ∷ b'e' ∷ b'a' ∷ b't' ∷ b'e' ∷ []

abbrev pub delete : List ℕ
delete = b'd' ∷ b'e' ∷ b'l' ∷ b'e' ∷ b't' ∷ b'e' ∷ []

abbrev pub memstat : List ℕ
memstat = b'm' ∷ b'e' ∷ b'm' ∷ b's' ∷ b't' ∷ b'a' ∷ b't' ∷ []

abbrev pub clear : List ℕ
clear = b'c' ∷ b'l' ∷ b'e' ∷ b'a' ∷ b'r' ∷ []

abbrev pub echo : List ℕ
echo = b'e' ∷ b'c' ∷ b'h' ∷ b'o' ∷ []

abbrev pub exit : List ℕ
exit = b'e' ∷ b'x' ∷ b'i' ∷ b't' ∷ []
