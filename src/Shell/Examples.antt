-- ===== src/Shell/Examples.antt =====
-- shell/shell.c: runs, and the theorems about them at concrete commands.
use machine_project.Prelude.{◌≡◌, refl, [], ◌∷◌, ◌++◌, ok}
use machine_project.Prelude.Ctype.{is_space, is_digit}
use machine_project.Prelude.Int.{pos, negsuc}
use machine_project.Prelude.Strings.{codes, same_string, skip_space}
use machine_project.Shell.{
  running, stopped, killed, sigstop, sigkill, Jobs, success, failure, is_killed, switch_status,
  has_pid, add_process, digits_value, int_of_bits, signed_value, pid_of, switch_again, control,
  control_command, stop, cont, kill,
}
use machine_project.Shell.Lines.{has_prefix, contains, logic_type, command_type}
use machine_project.Shell.Tables.{member, distinct, Kept, started, added, controlled, Reached-Kept}
use machine_project.Shell.Kills.{kill_final, at_once, then_added, then_controlled}

abbrev fresh : Jobs
fresh = record { vec = []; commands = []; processes = []; signals = [] }

abbrev two : Jobs
two = record fresh {
  commands = codes "a" ∷ codes "b" ∷ [];
  processes =
      record { pid = pos 41; status = running } ∷ record { pid = pos 42; status = running } ∷ [];
}

abbrev without_42 : Jobs
without_42 = record two {
  processes =
      record { pid = pos 41; status = running } ∷ record { pid = pos 42; status = killed } ∷ [];
  signals = (sigkill, pos 42) ∷ [];
}

kill_42 : kill (codes "kill 42") two ≡ ok (success, without_42)
unfolding kill control_command pid_of signed_value digits_value int_of_bits skip_space is_space
    is_digit control has_pid switch_status switch_again is_killed
kill_42 = refl

-- The number of a signal or a sign is read as strtol does.
negative : pid_of (codes "kill -1") ≡ ok (negsuc 0)
unfolding pid_of signed_value digits_value int_of_bits skip_space is_space is_digit
negative = refl

-- Behind the kill another process is started and stopped.
abbrev with_43 : Jobs
with_43 = (control stopped sigstop (pos 43) (add_process (pos 43) (codes "c") without_42)).1

kill_final_example :
    (stop (codes "stop 42") with_43
      ≡ ok (failure, record with_43 { vec = with_43.vec ++ codes "stop 42" ∷ [] }))
    × (cont (codes "stop 42") with_43 ≡ ok (failure, with_43))
    × (kill (codes "stop 42") with_43 ≡ ok (failure, with_43))
unfolding pid_of signed_value digits_value int_of_bits skip_space is_space is_digit distinct member
kill_final_example =
    kill_final two without_42 with_43 (pos 42) (codes "kill 42") (codes "stop 42") refl refl refl
      refl kill_42
      (then_controlled (then_added at_once (pos 43) (codes "c") refl) stopped sigstop (pos 43))

Reached-Kept_example :
    Kept (control killed sigkill (pos 41) (add_process (pos 41) (codes "a") fresh)).1
Reached-Kept_example =
    Reached-Kept (controlled (added (started []) (pos 41) (codes "a")) killed sigkill (pos 41))

-- The list of processes is shown for each command of three characters that begins with ps.
ps_type : command_type (codes "psx") ≡ pos 5
unfolding command_type logic_type contains has_prefix same_string
ps_type = refl

mixed_type : logic_type (codes "a && b; c") ≡ negsuc 0
unfolding logic_type contains has_prefix
mixed_type = refl
