-- ===== src/FileTransfer/Arguments.antt =====
-- client.c: the arguments of the command line.
use machine_project.Prelude.{
  ℕ, ◌==◌, ◌&&◌, if◌then◌else◌, Bool, true, false, List, [], ◌∷◌, map, Option, none, some,
  get_elem?, Outcome, ok, abort,
}
use machine_project.Prelude.Ctype.{to_upper}
use machine_project.Prelude.Strings.{codes, same_string}
use machine_project.FileTransfer.Server.{Verb, get_verb, put_verb, delete_verb, list_verb}

-- {host, port, method, remote, local}; a pointer is NULL where the argument is missing.
pub record Args : Type 0 where
  pub host : List ℕ
  pub port : List ℕ
  pub method : List ℕ
  pub remote : Option (List ℕ)
  pub local : Option (List ℕ)

-- strtok(s, ":"): colons in front are skipped; the token, and what comes behind the colon at its end.
unfoldable pub skip_colons : List ℕ → List ℕ
skip_colons [] = []
skip_colons (c ∷ s) = if c == 58 then skip_colons s else c ∷ s

unfoldable pub split_colon : List ℕ → List ℕ × List ℕ
split_colon [] = ([], [])
split_colon (c ∷ s) = let rest = split_colon s in if c == 58 then ([], s) else (c ∷ rest.0, rest.1)

unfoldable pub strtok : List ℕ → Option (List ℕ × List ℕ)
strtok s = elim (skip_colons s) [ [] ↦ none | c ∷ rest ↦ some (split_colon (c ∷ rest)) ]

-- The arguments are those of the command line, with the program's name first.
unfoldable pub make_args :
    Option (List ℕ × List ℕ) → Option (List ℕ × List ℕ) → List ℕ → List (List ℕ) → Option Args
make_args none second method more = none
make_args (some first) none method more = none
make_args (some first) (some second) method more = some (record {
  host = first.0;
  port = second.0;
  method = map to_upper method;
  remote = get_elem? more 0;
  local = get_elem? more 1;
})

unfoldable pub second_token : Option (List ℕ × List ℕ) → Option (List ℕ × List ℕ)
second_token none = none
second_token (some first) = strtok first.1

unfoldable pub parse_args : List (List ℕ) → Option Args
parse_args (program ∷ address ∷ method ∷ more) =
    make_args (strtok address) (second_token (strtok address)) method more
parse_args _ = none

unfoldable pub is_given : Option (List ℕ) → Bool
is_given none = false
is_given (some s) = true

unfoldable pub check_args : Args → Outcome Verb
check_args a =
    if same_string a.method (codes "LIST")
    then ok list_verb
    else if same_string a.method (codes "GET")
    then (if is_given a.remote && is_given a.local then ok get_verb else abort)
    else if same_string a.method (codes "DELETE")
    then (if is_given a.remote then ok delete_verb else abort)
    else if same_string a.method (codes "PUT")
    then (if is_given a.remote && is_given a.local then ok put_verb else abort)
    else abort
