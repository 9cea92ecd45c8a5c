-- ===== src/Shell/Dead.antt =====
-- shell/shell.c: what becomes of the killed processes of a pid in the table.
use machine_project.Prelude.{
  ℕ, ◌≡◌, refl, ap, ◌∙◌, Bool, true, false, not, ◌&&◌, ◌||◌, List, [], ◌∷◌, ◌++◌, Option, none,
  some, Bool-cases, Option-cases, inl, inr, arith,
}
use mathlib.Core.Path.{subst}
use machine_project.Prelude.Int.{ℤ, eq_ℤ}
use machine_project.Shell.{
  Status, killed, stopped, running, KillSignal, Process, Jobs, is_killed, switch_status, switched,
  has_pid, switch_again, control, revive, add_process,
}
use machine_project.Shell.Tables.{eq_ℤ→eq, or_else, behind}

-- Each process with the pid in the table was killed.
unfoldable pub all_dead : ℤ → List Process → Bool
all_dead pid [] = true
all_dead pid (p ∷ ps) = (not (eq_ℤ p.pid pid) || is_killed p.status) && all_dead pid ps

pub switch_status-all_dead :
    (pid : ℤ) (st : Status) (ps : List Process)
    → all_dead pid ps ≡ true
    → switch_status pid st ps ≡ none
unfolding all_dead switch_status
switch_status-all_dead pid st [] h = refl
switch_status-all_dead pid st (p ∷ ps) h =
    let rest : all_dead pid ps ≡ true = ground (arith, h) in
    let no_more = switch_status-all_dead pid st ps rest in
    elim (Bool-cases (eq_ℤ p.pid pid)) [
      | inr e ↦ rw (e, no_more)
      | inl e ↦ let dead : is_killed p.status ≡ true = ground (arith, h, e) in rw (e, dead, no_more)
    ]

pub none-all_dead :
    (pid : ℤ) (ps : List Process) → switch_status pid running ps ≡ none → all_dead pid ps ≡ true
unfolding all_dead switch_status
none-all_dead pid [] h = refl
none-all_dead pid (p ∷ ps) h = elim (Option-cases (switch_status pid running ps)) [
  | inl e ↦ ground (arith, h, none-all_dead pid ps e)
  | inr (later, e) ↦ absurd (ground (arith, h, e))
]

all_dead-behind :
    (pid : ℤ) (p : Process) (ps : List Process) (o : Option (List Process))
    → (not (eq_ℤ p.pid pid) || is_killed p.status) ≡ true
    → all_dead pid (or_else ps o) ≡ true
    → all_dead pid (or_else (p ∷ ps) (behind p o)) ≡ true
unfolding all_dead
all_dead-behind pid p ps none e h = rw (e, h)
all_dead-behind pid p ps (some later) e h = rw (e, h)

all_dead-switch_status :
    (pid other : ℤ) (st : Status) (ps : List Process)
    → all_dead pid ps ≡ true
    → all_dead pid (or_else ps (switch_status other st ps)) ≡ true
unfolding all_dead switch_status
all_dead-switch_status pid other st [] h = refl
all_dead-switch_status pid other st (p ∷ ps) h =
    let (first, rest) : ((not (eq_ℤ p.pid pid) || is_killed p.status) ≡ true)
        × (all_dead pid ps ≡ true) =
      ground (arith, h) in
    elim (Bool-cases (eq_ℤ p.pid other && not (is_killed p.status))) [
      | inl e ↦ let apart : eq_ℤ p.pid pid ≡ false = ground (arith, first, e) in rw (e, apart, rest)
      | inr e ↦ rw e (
          all_dead-behind pid p ps (switch_status other st ps) first
            (all_dead-switch_status pid other st ps rest))
    ]

all_dead-switch_again :
    (pid other : ℤ) (st : Status) (ps : List Process)
    → all_dead pid ps ≡ true
    → all_dead pid (switch_again st other ps) ≡ true
unfolding switch_again switched
all_dead-switch_again pid other running ps h = all_dead-switch_status pid other running ps h
all_dead-switch_again pid other stopped ps h = all_dead-switch_status pid other stopped ps h
all_dead-switch_again pid other killed ps h = h

pub all_dead-control :
    (pid other : ℤ) (st : Status) (signal : KillSignal) (j : Jobs)
    → all_dead pid j.processes ≡ true
    → all_dead pid (control st signal other j).1.processes ≡ true
unfolding control
all_dead-control pid other st signal j h = elim (Bool-cases (has_pid other j.processes)) [
  | inr e ↦ rw e h
  | inl e ↦ elim (Option-cases (switch_status other st j.processes)) [
    | inl fails ↦ rw (e, fails) h
    | inr (later, runs) ↦
        let kept : all_dead pid later ≡ true =
          subst (λ o. all_dead pid (or_else j.processes o) ≡ true) runs
            (all_dead-switch_status pid other st j.processes h) in
        rw (e, runs) (all_dead-switch_again pid other st later kept)
  ]
]

all_dead-revive :
    (pid other : ℤ) (ps : List Process)
    → eq_ℤ other pid ≡ false
    → all_dead pid ps ≡ true
    → all_dead pid (revive other ps) ≡ true
unfolding all_dead revive
all_dead-revive pid other [] e h = refl
all_dead-revive pid other (p ∷ ps) e h =
    let (first, rest) : ((not (eq_ℤ p.pid pid) || is_killed p.status) ≡ true)
        × (all_dead pid ps ≡ true) =
      ground (arith, h) in
    elim (Bool-cases (eq_ℤ p.pid other)) [
      | inl same ↦
          let apart : eq_ℤ p.pid pid ≡ false =
            ap (λ q. eq_ℤ q pid) (eq_ℤ→eq p.pid other same) ∙ e in
          rw (same, apart, rest)
      | inr far ↦ rw (far, first, all_dead-revive pid other ps e rest)
    ]

all_dead-append :
    (pid : ℤ) (p : Process) (ps : List Process)
    → eq_ℤ p.pid pid ≡ false
    → all_dead pid ps ≡ true
    → all_dead pid (ps ++ p ∷ []) ≡ true
unfolding all_dead
all_dead-append pid p [] e h = rw e
all_dead-append pid p (q ∷ ps) e h = ground (arith, all_dead-append pid p ps, e, h)

pub all_dead-add_process :
    (pid other : ℤ) (command : List ℕ) (j : Jobs)
    → eq_ℤ other pid ≡ false
    → all_dead pid j.processes ≡ true
    → all_dead pid (add_process other command j).processes ≡ true
unfolding add_process
all_dead-add_process pid other command j e h = elim (Bool-cases (has_pid other j.processes)) [
  | inl here ↦ rw here (all_dead-revive pid other j.processes e h)
  | inr new ↦
      rw new (all_dead-append pid (record { pid = other; status = running }) j.processes e h)
]
