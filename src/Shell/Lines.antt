-- ===== src/Shell/Lines.antt =====
-- shell/shell.c: what kind of command a line is, and the line without spaces at its ends.
use machine_project.Prelude.{
  ℕ, zero, suc, ◌+◌, ◌-◌, ltb, ◌==◌, if◌then◌else◌, Bool, true, false, not, ◌&&◌, ◌||◌, List, [],
  ◌∷◌, length, take, drop, none, some, get_elem?, Outcome, ok, fault,
}
use machine_project.Prelude.Ctype.{is_space}
use machine_project.Prelude.Int.{ℤ, pos, negsuc, eq_ℤ}
use machine_project.Prelude.Strings.{codes, same_string}

-- strncmp(s, t, strlen(t)) == 0
unfoldable pub has_prefix : List ℕ → List ℕ → Bool
has_prefix [] s = true
has_prefix (d ∷ t) [] = false
has_prefix (d ∷ t) (c ∷ s) = c == d && has_prefix t s

-- strstr is not NULL.
unfoldable pub contains : List ℕ → List ℕ → Bool
contains t [] = has_prefix t []
contains t (c ∷ s) = has_prefix t (c ∷ s) || contains t s

abbrev one_if : Bool → ℕ
one_if b = if b then 1 else 0

unfoldable pub logic_type : List ℕ → ℤ
logic_type command =
    let n_and = one_if (contains (codes "&&") command) in
    let n_or = one_if (contains (codes "||") command) in
    let n_separator = one_if (contains (codes ";") command) in
    if n_and == 1 && n_or + n_separator == 0
    then pos 0
    else if n_or == 1 && n_and + n_separator == 0
    then pos 1
    else if n_separator == 1 && n_or + n_and == 0
    then pos 2
    else negsuc 0

unfoldable pub command_type : List ℕ → ℤ
command_type command =
    if not (eq_ℤ (logic_type command) (negsuc 0))
    then pos 4
    else if has_prefix (codes "cd ") command || same_string command (codes "cd")
    then pos 0
    else if has_prefix (codes "!history") command
    then pos 1
    else if has_prefix (codes "#") command && ltb 1 (length command)
    then pos 2
    else if has_prefix (codes "!") command
    then pos 3
    else if has_prefix (codes "ps") command && length command == 3
    then pos 5
    else if has_prefix (codes "stop") command
    then pos 6
    else if has_prefix (codes "cont") command
    then pos 7
    else if has_prefix (codes "kill") command
    then pos 8
    else negsuc 0

unfoldable pub all_space : List ℕ → Bool
all_space [] = true
all_space (c ∷ s) = is_space c && all_space s

unfoldable pub is_space_at : List ℕ → ℕ → Bool
is_space_at s j = elim (get_elem? s j) [ none ↦ false | some c ↦ is_space c ]

-- The loop on i, and the one on j from the index given.
unfoldable pub first_index : List ℕ → ℕ
first_index [] = 0
first_index (c ∷ s) = let later = first_index s in if is_space c then suc later else 0

-- `j >= 0` is always true for a size_t: at 0 a space would take j to its greatest value.
unfoldable pub last_index : ℕ → List ℕ → Outcome ℕ
last_index zero s = if is_space_at s 0 then fault else ok 0
last_index (suc j) s =
    let earlier = last_index j s in if is_space_at s (suc j) then earlier else ok (suc j)

-- A line of spaces loses its newline; an empty one is read before its beginning.
unfoldable pub trim_blank : List ℕ → Outcome (List ℕ)
trim_blank [] = fault
trim_blank (c ∷ s) =
    let n = length s in
    elim (get_elem? (c ∷ s) n) [
      | none ↦ ok (c ∷ s)
      | some d ↦ if d == 10 then ok (take n (c ∷ s)) else ok (c ∷ s)
    ]

unfoldable pub cut : List ℕ → ℕ → Outcome ℕ → Outcome (List ℕ)
cut command i (ok j) = ok (take (j - i + 1) (drop i command))
cut command i _ = fault

unfoldable pub trim_command : List ℕ → Outcome (List ℕ)
trim_command command =
    if all_space command
    then trim_blank command
    else cut command (first_index command) (last_index (length command - 1) command)
