-- ===== src/Shell/Tables.antt =====
-- shell/shell.c: the pids in the table of processes.
use machine_project.Prelude.{
  ℕ, ◌≤◌, ◌≡◌, refl, ap, sym, ◌∙◌, if◌then◌else◌, Bool, true, false, not, ◌&&◌, ◌||◌, List, [], ◌∷◌,
  ◌++◌, map, length, length-append, map-append, length-map, Option, none, some, Bool-cases,
  Option-cases, inl, inr, arith,
}
use machine_project.Prelude.Int.{ℤ, pos, negsuc, eq_ℤ}
use machine_project.Prelude.Strings.{codes, same_string}
use machine_project.Shell.{
  Status, running, stopped, killed, KillSignal, Process, Jobs, is_killed, switch_status, has_pid,
  revive, add_process, switched, switch_again, control, Wait, keep_command, system_,
}

pub eq_ℤ→eq : (a b : ℤ) → eq_ℤ a b ≡ true → a ≡ b
eq_ℤ→eq (pos m) (pos n) h = ap pos (ground arith)
eq_ℤ→eq (pos m) (negsuc n) h = absurd (ground arith)
eq_ℤ→eq (negsuc m) (pos n) h = absurd (ground arith)
eq_ℤ→eq (negsuc m) (negsuc n) h = ap negsuc (ground arith)

abbrev pub pids : List Process → List ℤ
pids processes = map (λ p. p.pid) processes

unfoldable pub member : ℤ → List ℤ → Bool
member pid [] = false
member pid (q ∷ qs) = let later = member pid qs in if eq_ℤ q pid then true else later

-- No pid stands in the list twice.
unfoldable pub distinct : List ℤ → Bool
distinct [] = true
distinct (q ∷ qs) = not (member q qs) && distinct qs

pub has_pid-member : (pid : ℤ) (ps : List Process) → has_pid pid ps ≡ member pid (pids ps)
unfolding has_pid member
has_pid-member pid [] = refl
has_pid-member pid (p ∷ ps) = rw (has_pid-member pid ps)

pids-revive : (pid : ℤ) (ps : List Process) → pids (revive pid ps) ≡ pids ps
unfolding revive
pids-revive pid [] = refl
pids-revive pid (p ∷ ps) = elim (Bool-cases (eq_ℤ p.pid pid)) [
  | inl e ↦ rw e
  | inr e ↦ rw (e, pids-revive pid ps)
]

abbrev pub or_else : List Process → Option (List Process) → List Process
or_else ps none = ps
or_else ps (some later) = later

abbrev pub behind : Process → Option (List Process) → Option (List Process)
behind p none = none
behind p (some later) = some (p ∷ later)

pids-behind :
    (p : Process) (ps : List Process) (o : Option (List Process))
    → pids (or_else (p ∷ ps) (behind p o)) ≡ p.pid ∷ pids (or_else ps o)
pids-behind p ps none = refl
pids-behind p ps (some later) = refl

pids-switch :
    (pid : ℤ) (st : Status) (ps : List Process)
    → pids (or_else ps (switch_status pid st ps)) ≡ pids ps
unfolding switch_status
pids-switch pid st [] = refl
pids-switch pid st (p ∷ ps) = elim (Bool-cases (eq_ℤ p.pid pid && not (is_killed p.status))) [
  | inl e ↦ rw e
  | inr e ↦
      rw e (pids-behind p ps (switch_status pid st ps) ∙ ap (◌∷◌ p.pid) (pids-switch pid st ps))
]

pids-switched : (pid : ℤ) (st : Status) (ps : List Process) → pids (switched pid st ps) ≡ pids ps
unfolding switched
pids-switched pid st ps = pids-switch pid st ps

pub pids-switch_status :
    (pid : ℤ) (st : Status) (ps later : List Process)
    → switch_status pid st ps ≡ some later
    → pids later ≡ pids ps
pids-switch_status pid st ps later h = ap (λ o. pids (or_else ps o)) (sym h) ∙ pids-switch pid st ps

pids-switch_again :
    (st : Status) (pid : ℤ) (ps : List Process) → pids (switch_again st pid ps) ≡ pids ps
unfolding switch_again
pids-switch_again running pid ps = pids-switched pid running ps
pids-switch_again stopped pid ps = pids-switched pid stopped ps
pids-switch_again killed pid ps = refl

member-append :
    (q r : ℤ) (qs : List ℤ)
    → member q qs ≡ false
    → eq_ℤ r q ≡ false
    → member q (qs ++ r ∷ []) ≡ false
unfolding member
member-append q r [] h e = rw e
member-append q r (x ∷ qs) h e = ground (arith, member-append q r qs, h, e)

eq_ℤ-sym : (a b : ℤ) → eq_ℤ a b ≡ false → eq_ℤ b a ≡ false
eq_ℤ-sym a b h = ground arith

distinct-append :
    (r : ℤ) (qs : List ℤ)
    → member r qs ≡ false
    → distinct qs ≡ true
    → distinct (qs ++ r ∷ []) ≡ true
unfolding distinct member
distinct-append r [] h d = refl
distinct-append r (q ∷ qs) h d = elim (Bool-cases (eq_ℤ q r)) [
  | inl e ↦ absurd (ground (arith, h, e))
  | inr e ↦ ground (arith, distinct-append r qs, member-append q r qs, eq_ℤ-sym q r e, h, d, e)
]

-- The table of a shell that has just started, and what its calls make of it.
pub data Reached : Jobs → Type 0 where
  started :
      (vec : List (List ℕ))
      → Reached (record { vec = vec; commands = []; processes = []; signals = [] })
  added :
      {j : Jobs} → Reached j → (pid : ℤ) (command : List ℕ) → Reached (add_process pid command j)
  controlled :
      {j : Jobs}
      → Reached j
      → (st : Status) (signal : KillSignal) (pid : ℤ) → Reached (control st signal pid j).1
  noted :
      {j : Jobs}
      → Reached j
      → (command : List ℕ) → Reached (record j { vec = j.vec ++ command ∷ [] })
  ran :
      {j : Jobs}
      → Reached j
      → (pid : ℤ) (wait : Wait) (command : List ℕ) (logic : Bool)
      → Reached (system_ pid wait command logic j).1

-- Each pid stands once in the table, and there are at least as many commands as processes.
unfoldable pub Kept : Jobs → Type 0
Kept j = (distinct (pids j.processes) ≡ true) × (length j.processes ≤ length j.commands)

length-same : (ps qs : List Process) → pids ps ≡ pids qs → length ps ≡ length qs
length-same ps qs e = sym (length-map (λ p. p.pid) ps) ∙ ap length e ∙ length-map (λ p. p.pid) qs

Kept-add_process :
    (pid : ℤ) (command : List ℕ) (j : Jobs) → Kept j → Kept (add_process pid command j)
unfolding Kept add_process
Kept-add_process pid command j (d, h) =
    let n = length-append j.commands (command ∷ []) in
    elim (Bool-cases (has_pid pid j.processes)) [
      | inl e ↦
          let same = pids-revive pid j.processes in
          let m = length-same (revive pid j.processes) j.processes same in
          rw e (rw same d, omega (arith, n, m))
      | inr e ↦
          let absent : member pid (pids j.processes) ≡ false =
            sym (has_pid-member pid j.processes) ∙ e in
          let p : Process = record { pid = pid; status = running } in
          let m = length-append j.processes (p ∷ []) in
          rw e (
            rw (map-append (λ q. q.pid) j.processes (p ∷ []))
                (distinct-append pid (pids j.processes) absent d),
            omega (arith, n, m),
          )
    ]

Kept-control :
    (st : Status) (signal : KillSignal) (pid : ℤ) (j : Jobs)
    → Kept j
    → Kept (control st signal pid j).1
unfolding Kept control
Kept-control st signal pid j (d, h) = elim (Bool-cases (has_pid pid j.processes)) [
  | inr e ↦ rw e (d, h)
  | inl e ↦ elim (Option-cases (switch_status pid st j.processes)) [
    | inl fails ↦ rw (e, fails) (d, h)
    | inr (later, runs) ↦
        let same : pids (switch_again st pid later) ≡ pids j.processes =
          pids-switch_again st pid later ∙ pids-switch_status pid st j.processes later runs in
        let m = length-same (switch_again st pid later) j.processes same in
        rw (e, runs) (rw same d, omega (arith, m))
  ]
]

Kept-keep_command :
    (command : List ℕ) (logic : Bool) (j : Jobs) → Kept j → Kept (keep_command command logic j)
unfolding Kept keep_command
Kept-keep_command command logic j k =
    elim (Bool-cases (same_string command (codes "exit") || logic)) [
      | inl e ↦ rw e k
      | inr e ↦ rw e k
    ]

-- In every state that a shell reaches each pid stands at most once in the table of processes, and the
-- index of a process in it is always below the number of the commands, so that its command can be read.
pub Reached-Kept : {j : Jobs} → Reached j → Kept j
unfolding Kept distinct system_
Reached-Kept (started vec) = (refl, omega arith)
Reached-Kept (added {j} r pid command) = Kept-add_process pid command j (Reached-Kept r)
Reached-Kept (controlled {j} r st signal pid) = Kept-control st signal pid j (Reached-Kept r)
Reached-Kept (noted {j} r command) = Reached-Kept r
Reached-Kept (ran {j} r pid wait command logic) =
    Kept-add_process pid command (keep_command command logic j)
      (Kept-keep_command command logic j (Reached-Kept r))
