-- ===== src/Shell/Kills.antt =====
-- shell/shell.c: a process that was killed.
use machine_project.Prelude.{
  ℕ, ◌≡◌, refl, ap, sym, ◌∙◌, true, false, List, [], ◌∷◌, ◌++◌, Option, none, some, ok, Bool, ◌||◌,
  ok-injective, Bool-cases, Option-cases, inl, inr, arith,
}
use mathlib.Core.Path.{subst}
use machine_project.Prelude.Int.{ℤ, pos, eq_ℤ}
use machine_project.Shell.{
  Status, killed, stopped, running, KillSignal, sigstop, sigcont, sigkill, Process, Jobs, success,
  failure, is_killed, Wait, add_process, keep_command, system_, switch_status, has_pid,
  switch_again, control, pid_of, control_command, stop, cont, kill,
}
use machine_project.Prelude.Strings.{codes, same_string}
use machine_project.Shell.Tables.{eq_ℤ→eq, pids, member, distinct, behind}
use machine_project.Shell.Dead.{
  all_dead, switch_status-all_dead, none-all_dead, all_dead-control, all_dead-add_process,
}

switch_status-absent :
    (pid : ℤ) (st : Status) (ps : List Process)
    → member pid (pids ps) ≡ false
    → switch_status pid st ps ≡ none
unfolding switch_status member
switch_status-absent pid st [] h = refl
switch_status-absent pid st (p ∷ ps) h = elim (Bool-cases (eq_ℤ p.pid pid)) [
  | inl e ↦ absurd (ground (arith, h, e))
  | inr e ↦
      let rest : member pid (pids ps) ≡ false = ground (arith, h, e) in
      rw (e, switch_status-absent pid st ps rest)
]

abbrev NoMore : ℤ → Option (List Process) → Type 0
NoMore pid none = Unit
NoMore pid (some later) = (st : Status) → switch_status pid st later ≡ none

switch_status-dead :
    (pid : ℤ) (st : Status) (p : Process) (ps : List Process)
    → is_killed p.status ≡ true
    → switch_status pid st ps ≡ none
    → switch_status pid st (p ∷ ps) ≡ none
unfolding switch_status
switch_status-dead pid st p ps dead h = elim (Bool-cases (eq_ℤ p.pid pid)) [
  | inl e ↦ rw (e, dead, h)
  | inr e ↦ rw (e, h)
]

switch_status-other :
    (pid : ℤ) (st : Status) (p : Process) (ps : List Process)
    → eq_ℤ p.pid pid ≡ false
    → switch_status pid st ps ≡ none
    → switch_status pid st (p ∷ ps) ≡ none
unfolding switch_status
switch_status-other pid st p ps e h = rw (e, h)

NoMore-behind :
    (pid : ℤ) (p : Process) (o : Option (List Process))
    → eq_ℤ p.pid pid ≡ false
    → NoMore pid o
    → NoMore pid (behind p o)
NoMore-behind pid p none e h = tt
NoMore-behind pid p (some later) e h = λ st. switch_status-other pid st p later e (h st)

-- Behind the switch to killed no process with the pid can be switched.
switch_status-killed :
    (pid : ℤ) (ps : List Process)
    → distinct (pids ps) ≡ true
    → NoMore pid (switch_status pid killed ps)
unfolding switch_status distinct is_killed
switch_status-killed pid [] d = tt
switch_status-killed pid (p ∷ ps) d =
    let (other, d') : (member p.pid (pids ps) ≡ false) × (distinct (pids ps) ≡ true) =
      ground (arith, d) in
    elim (Bool-cases (eq_ℤ p.pid pid)) [
      | inl e ↦
          let absent : member pid (pids ps) ≡ false =
            ap (λ q. member q (pids ps)) (sym (eq_ℤ→eq p.pid pid e)) ∙ other in
          elim (Bool-cases (is_killed p.status)) [
            | inl dead ↦ rw (e, dead, switch_status-absent pid killed ps absent) tt
            | inr alive ↦
                rw (e, alive)
                  (λ st.
                    switch_status-dead pid st (record p { status = killed }) ps refl
                      (switch_status-absent pid st ps absent))
          ]
      | inr e ↦
          rw e
            (NoMore-behind pid p (switch_status pid killed ps) e (switch_status-killed pid ps d'))
    ]

control-failure :
    (st : Status) (signal : KillSignal) (pid : ℤ) (j : Jobs)
    → switch_status pid st j.processes ≡ none
    → control st signal pid j ≡ (failure, j)
unfolding control
control-failure st signal pid j h = elim (Bool-cases (has_pid pid j.processes)) [
  | inl e ↦ rw (e, h)
  | inr e ↦ rw e
]

-- Whatever the control with `killed` comes to with 0, it leaves a table without more of the pid.
control-killed :
    (signal : KillSignal) (pid : ℤ) (j j' : Jobs)
    → distinct (pids j.processes) ≡ true
    → control killed signal pid j ≡ (success, j')
    → (st : Status) → switch_status pid st j'.processes ≡ none
unfolding control switch_again
control-killed signal pid j j' d h st = elim (Bool-cases (has_pid pid j.processes)) [
  | inr e ↦ absurd (ground (arith, e, h))
  | inl e ↦ elim (Option-cases (switch_status pid killed j.processes)) [
    | inl fails ↦ absurd (ground (arith, e, fails, h))
    | inr (later, runs) ↦
        let ends : NoMore pid (some later) =
          subst (NoMore pid) runs (switch_status-killed pid j.processes d) in
        let same : later ≡ j'.processes = ground (arith, e, runs, h) in rw⁻¹ same (ends st)
  ]
]

control_command-control :
    (st : Status) (signal : KillSignal) (pid : ℤ) (command : List ℕ) (j : Jobs)
    → pid_of command ≡ ok pid
    → eq_ℤ pid (pos 0) ≡ false
    → control_command st signal command j ≡ ok (control st signal pid j)
unfolding control_command
control_command-control st signal pid command j e z = rw (e, z)

-- What the shell does with its table behind the state `j`, where no new process gets the pid.
pub data Later (pid : ℤ) (j : Jobs) : Jobs → Type 0 where
  at_once : Later pid j j
  then_added :
      {k : Jobs}
      → Later pid j k
      → (other : ℤ) (command : List ℕ) → eq_ℤ other pid ≡ false
      → Later pid j (add_process other command k)
  then_controlled :
      {k : Jobs}
      → Later pid j k
      → (st : Status) (signal : KillSignal) (other : ℤ) → Later pid j (control st signal other k).1
  then_noted :
      {k : Jobs}
      → Later pid j k
      → (command : List ℕ) → Later pid j (record k { vec = k.vec ++ command ∷ [] })
  then_ran :
      {k : Jobs}
      → Later pid j k
      → (other : ℤ) (wait : Wait) (command : List ℕ) (logic : Bool) → eq_ℤ other pid ≡ false
      → Later pid j (system_ other wait command logic k).1

Later-all_dead :
    {pid : ℤ} {j k : Jobs}
    → Later pid j k
    → all_dead pid j.processes ≡ true
    → all_dead pid k.processes ≡ true
unfolding system_ keep_command
Later-all_dead at_once h = h
Later-all_dead {pid = pid} (then_added {k} l other command e) h =
    all_dead-add_process pid other command k e (Later-all_dead l h)
Later-all_dead {pid = pid} (then_controlled {k} l st signal other) h =
    all_dead-control pid other st signal k (Later-all_dead l h)
Later-all_dead (then_noted l command) h = Later-all_dead l h
Later-all_dead {pid = pid} (then_ran {k} l other wait command logic e) h =
    let kept : all_dead pid (keep_command command logic k).processes ≡ true =
      elim (Bool-cases (same_string command (codes "exit") || logic)) [
        | inl e ↦ rw e (Later-all_dead l h)
        | inr e ↦ rw e (Later-all_dead l h)
      ] in
    all_dead-add_process pid other command (keep_command command logic k) e kept

-- Where each pid stands at most once in the table and the command `kill` returns 0 for a pid: whatever
-- the shell does with its table behind that, except to add a process with the same pid, a command
-- `stop`, `cont` or `kill` for the pid then returns -1, and it sends no signal and changes no status.
pub kill_final :
    (j j' k : Jobs) (pid : ℤ) (command later : List ℕ)
    → distinct (pids j.processes) ≡ true
    → eq_ℤ pid (pos 0) ≡ false
    → pid_of command ≡ ok pid
    → pid_of later ≡ ok pid
    → kill command j ≡ ok (success, j')
    → Later pid j' k
    → (stop later k ≡ ok (failure, record k { vec = k.vec ++ later ∷ [] }))
      × (cont later k ≡ ok (failure, k))
      × (kill later k ≡ ok (failure, k))
unfolding stop cont kill
kill_final j j' k pid command later d z e e' h after =
    let runs : control killed sigkill pid j ≡ (success, j') =
      ok-injective (sym (control_command-control killed sigkill pid command j e z) ∙ h) in
    let dead =
      Later-all_dead after
        (none-all_dead pid j'.processes (control-killed sigkill pid j j' d runs running)) in
    let ends = λ (st : Status). switch_status-all_dead pid st k.processes dead in
    let noted : Jobs = record k { vec = k.vec ++ later ∷ [] } in
    let fails =
      λ (st : Status) (signal : KillSignal) (i : Jobs)
          (n : switch_status pid st i.processes ≡ none).
        control_command-control st signal pid later i e' z
        ∙ ap ok (control-failure st signal pid i n) in
    (
      fails stopped sigstop noted (ends stopped),
      fails running sigcont k (ends running),
      fails killed sigkill k (ends killed),
    )
