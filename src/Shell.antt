-- ===== src/Shell.antt =====
-- shell/shell.c: the table of processes with system_ and the commands stop, cont and kill, and how commands are
-- told apart and trimmed. What is printed, and curr_pid, which is only printed, are left out. The vector `start` grows as `commands` does.
pub mod Lines
pub mod Tables
pub mod Dead
pub mod Kills
pub mod Trims
mod Examples
use machine_project.Prelude.{
  ℕ, ◌-◌, ◌%◌, ◌^◌, ◌+◌, ◌*◌, min, ltb, ◌==◌, if◌then◌else◌, Bool, true, false, not, ◌&&◌, ◌||◌,
  get_elem?, List, [], ◌∷◌, ◌++◌, length, drop, Option, none, some, Outcome, ok, fault, ◌>>=◌,
}
use machine_project.Prelude.Int.{ℤ, pos, negsuc, eq_ℤ, ltb_ℤ}
use machine_project.Prelude.Ctype.{is_digit}
use machine_project.Prelude.Strings.{codes, same_string, skip_space}

pub data Status : Type 0 where
  running stopped killed : Status

pub data KillSignal : Type 0 where
  sigstop sigcont sigkill : KillSignal

pub record Process : Type 0 where
  pub pid : ℤ
  pub status : Status

-- The static vectors, and the calls of kill() so far.
pub record Jobs : Type 0 where
  pub vec : List (List ℕ)
  pub commands : List (List ℕ)
  pub processes : List Process
  pub signals : List (KillSignal × ℤ)

abbrev pub success : ℤ
success = pos 0

abbrev pub failure : ℤ
failure = negsuc 0

unfoldable pub is_killed : Status → Bool
is_killed killed = true
is_killed s = false

-- The vector after a return of 0, and `none` for -1.
unfoldable pub switch_status : ℤ → Status → List Process → Option (List Process)
switch_status pid status [] = none
switch_status pid status (p ∷ rest) =
    let later = switch_status pid status rest in
    if eq_ℤ p.pid pid && not (is_killed p.status)
    then some (record p { status = status } ∷ rest)
    else elim later [ none ↦ none | some rest' ↦ some (p ∷ rest') ]

unfoldable pub has_pid : ℤ → List Process → Bool
has_pid pid [] = false
has_pid pid (p ∷ rest) = let later = has_pid pid rest in if eq_ℤ p.pid pid then true else later

-- The first process with the pid runs again.
unfoldable pub revive : ℤ → List Process → List Process
revive pid [] = []
revive pid (p ∷ rest) =
    let later = revive pid rest in
    if eq_ℤ p.pid pid then record p { status = running } ∷ rest else p ∷ later

unfoldable pub add_process : ℤ → List ℕ → Jobs → Jobs
add_process pid command j = record j {
  commands = j.commands ++ command ∷ [];
  processes =
      if has_pid pid j.processes
      then revive pid j.processes
      else j.processes ++ record { pid = pid; status = running } ∷ [];
}

-- strtol in base 10, its result as an int: digits, then the bounds of a long, then 32 bits.
unfoldable pub digits_value : ℕ → List ℕ → ℕ
digits_value n [] = n
digits_value n (c ∷ s) =
    let more = digits_value (n * 10 + (c - 48)) s in if is_digit c then more else n

unfoldable pub int_of_bits : ℕ → ℤ
int_of_bits w = if ltb w (2 ^ 31) then pos w else negsuc (2 ^ 32 - w - 1)

unfoldable pub signed_value : List ℕ → ℤ
signed_value [] = pos 0
signed_value (c ∷ s) =
    if c == 45
    then int_of_bits ((2 ^ 64 - min (digits_value 0 s) (2 ^ 63)) % 2 ^ 32)
    else int_of_bits (min (digits_value 0 (if c == 43 then s else c ∷ s)) (2 ^ 63 - 1) % 2 ^ 32)

-- The pid at command + 5; a command of four characters ends before that.
unfoldable pub pid_of : List ℕ → Outcome ℤ
pid_of command =
    if ltb (length command) 5 then fault else ok (signed_value (skip_space (drop 5 command)))

-- switch_status where the return value is not tested.
unfoldable pub switched : ℤ → Status → List Process → List Process
switched pid status processes = elim (switch_status pid status processes) [
  | none ↦ processes
  | some later ↦ later
]

-- stop and cont switch the status again behind the signal.
unfoldable pub switch_again : Status → ℤ → List Process → List Process
switch_again killed pid processes = processes
switch_again status pid processes = switched pid status processes

-- The loop over the processes: the first one with the pid, if there is one.
unfoldable pub control : Status → KillSignal → ℤ → Jobs → ℤ × Jobs
control status signal pid j =
    if has_pid pid j.processes
    then (elim (switch_status pid status j.processes) [
      | none ↦ (failure, j)
      | some later ↦ (
        success,
        record j {
          processes = switch_again status pid later;
          signals = j.signals ++ (signal, pid) ∷ [];
        },
      )
    ])
    else (failure, j)

unfoldable pub control_command : Status → KillSignal → List ℕ → Jobs → Outcome (ℤ × Jobs)
control_command status signal command j = pid_of command >>= λ pid.
    (if eq_ℤ pid (pos 0) then ok (failure, j) else ok (control status signal pid j))

unfoldable pub stop : List ℕ → Jobs → Outcome (ℤ × Jobs)
stop command j = control_command stopped sigstop command (record j { vec = j.vec ++ command ∷ [] })

unfoldable pub cont : List ℕ → Jobs → Outcome (ℤ × Jobs)
cont command j = control_command running sigcont command j

unfoldable pub kill : List ℕ → Jobs → Outcome (ℤ × Jobs)
kill command j = control_command killed sigkill command j

-- What waitpid finds: another process or an error, an exit status, or an end by a signal.
pub data Wait : Type 0 where
  lost : Wait
  exited : ℕ → Wait
  signalled : Wait

unfoldable pub in_background : List ℕ → Bool
in_background command = elim (get_elem? command (length command - 1)) [
  | none ↦ false
  | some c ↦ c == 38
]

unfoldable pub exit_value : Wait → ℤ
exit_value lost = failure
exit_value (exited n) = if n == 0 then success else failure
exit_value signalled = success

-- The return value of system_ in the shell; `pid` is what fork returns there.
unfoldable pub system_value : ℤ → Wait → List ℕ → ℤ
system_value pid wait command =
    if ltb_ℤ pid (pos 0)
    then failure
    else if in_background command
    then success
    else exit_value wait

-- A command that is not exit and no part of a logical one is kept for the history.
unfoldable pub keep_command : List ℕ → Bool → Jobs → Jobs
keep_command command logic j =
    if same_string command (codes "exit") || logic
    then j
    else record j { vec = j.vec ++ command ∷ [] }

-- system_ in the shell. The child, in which fork returns 0, becomes another program.
unfoldable pub system_ : ℤ → Wait → List ℕ → Bool → Jobs → ℤ × Jobs
system_ pid wait command logic j =
    (system_value pid wait command, add_process pid command (keep_command command logic j))
