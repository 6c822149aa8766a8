-- ===== src/Shell/Tests.antt =====
-- Runs of the shell, and the theorems at a line and at a key.
use fru1t_os.Prelude.{
  ℕ, ◌≡◌, ◌≢◌, ◌⊎◌, inl, inr, refl, ap, true, false, some, List, [], ◌∷◌, ◌++◌, arith, length, take,
}
use fru1t_os.Prelude.Int.{pos}
use fru1t_os.CString.{strcmp, c_str}
use fru1t_os.Fs.{Filesystem}
use fru1t_os.Shell.{Reply, shell_init, edit, scan, max_args, shell_execute_command}
use fru1t_os.Shell.Name
use fru1t_os.Shell.Tokens.{spelled, words, scan_lem}
use fru1t_os.Shell.Editor.{held, IsEditing, Edited, edit_lem}

-- "cat  a " with a blank in front
abbrev lead : List ℕ
lead = 32 ∷ []

abbrev pairs : List (List ℕ × List ℕ)
pairs = (Name.cat, 32 ∷ 9 ∷ []) ∷ (97 ∷ [], 32 ∷ []) ∷ []

abbrev two : ℕ
two = 2

scan_runs : scan max_args [] (lead ++ spelled pairs) ≡ Name.cat ∷ (97 ∷ []) ∷ []
unfolding scan
scan_runs = refl

-- no room for the second word
scan_short_runs : scan 1 [] (lead ++ spelled pairs) ≡ Name.cat ∷ []
unfolding scan
scan_short_runs = refl

abbrev empty : Filesystem
empty = record { files = []; file_count = pos 0; heap = []; memory = λ p. 0 }

exit_runs : shell_execute_command Name.exit [] (true, empty) ≡ some (Reply.goodbye, false, empty)
unfolding shell_execute_command strcmp
exit_runs = refl

echo_runs :
    shell_execute_command Name.echo ((97 ∷ []) ∷ []) (true, empty)
    ≡ some (Reply.echoed ((97 ∷ []) ∷ []), true, empty)
unfolding shell_execute_command strcmp
echo_runs = refl

cons_ne : (c : ℕ) (cs : List ℕ) → c ∷ cs ≢ []
cons_ne c cs e = absurd (omega (arith, ap length e))

scan_lem_example : scan two [] (lead ++ spelled pairs) ≡ take two (words pairs)
scan_lem_example =
    scan_lem two lead pairs (refl, tt)
      (
        cons_ne _ _,
        (refl, (refl, (refl, tt))),
        (refl, (refl, tt)),
        inl (cons_ne _ _),
        (cons_ne _ _, (refl, tt), (refl, tt), inr refl, tt),
      )

shell_init-IsEditing : IsEditing shell_init
unfolding shell_init
shell_init-IsEditing = record { size = refl; pos_in = omega arith; no_nul = tt }

edit_lem_example :
    (◌≡◌ {A = ℕ} 97 10 ⊎ ◌≡◌ {A = ℕ} 97 13)
      × ((edit 97 shell_init).0 ≡ true)
      × (c_str (edit 97 shell_init).1.input_buffer ≡ held shell_init)
    ⊎ (¬ ◌≡◌ {A = ℕ} 97 10)
      × (¬ ◌≡◌ {A = ℕ} 97 13)
      × ((edit 97 shell_init).0 ≡ false)
      × Edited 97 shell_init (edit 97 shell_init).1
edit_lem_example = edit_lem 97 shell_init-IsEditing
