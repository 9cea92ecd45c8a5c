-- ===== src/Sstring.antt =====
-- vector/sstring.c: strings as objects. An `sstring` is the text that its block holds, a list of
-- character codes with no NUL. Allocation succeeds, but `realloc` may move the block: `moved` says
-- whether it did. The vector of pieces that `sstring_split` fills is the list of what it pushes.
pub mod Split
pub mod Substitute
mod Examples
use machine_project.Prelude.{
  ℕ, zero, suc, ◌+◌, ◌-◌, ◌%◌, ◌^◌, ltb, ◌==◌, if◌then◌else◌, ◌&&◌, ◌||◌, Bool, true, false, List,
  [], ◌∷◌, ◌++◌, length, take, drop, Option, none, some, Outcome, ok, abort, fault, ◌>>=◌,
}

unfoldable pub cstr_to_sstring : Option (List ℕ) → Outcome (List ℕ)
cstr_to_sstring none = abort
cstr_to_sstring (some input) = ok input

unfoldable pub sstring_to_cstr : Option (List ℕ) → Outcome (List ℕ)
sstring_to_cstr none = abort
sstring_to_cstr (some input) = ok input

-- What is appended: another string, or the string itself, where `strcat` would read what it writes.
pub data Addition : Type 0 where
  other : List ℕ → Addition
  itself : Addition

-- The new text, and the length that is returned. A length whose successor `int` does not hold asks
-- `realloc` for a wrong number of bytes, and `strcat` writes outside the block.
unfoldable pub sstring_append : List ℕ → Addition → Outcome (List ℕ × ℕ)
sstring_append this itself = fault
sstring_append this (other addition) =
    let len = length this + length addition in
    if ltb len (2 ^ 31 - 1) then ok (this ++ addition, length (this ++ addition)) else fault

-- The loop of `sstring_split`; `segment` is c[num .. i).
unfoldable pub split_from : ℕ → List ℕ → List ℕ → List (List ℕ)
split_from delimiter segment [] = segment ∷ []
split_from delimiter segment (c ∷ cs) =
    let next = split_from delimiter [] cs in
    let on = split_from delimiter (segment ++ c ∷ []) cs in
    if c == delimiter then segment ∷ next else on

-- `int len = strlen(...)` keeps 32 bits: a negative one ends the loop at once, and for the greatest one
-- `i + 1` overflows in the last round.
unfoldable pub sstring_split : List ℕ → ℕ → Outcome (List (List ℕ))
unfolding split_from
sstring_split this delimiter =
    let len = length this % 2 ^ 32 in
    if ltb len (2 ^ 31 - 1)
    then ok (split_from delimiter [] (take len this))
    else if ltb len (2 ^ 31)
    then fault
    else ok []

unfoldable pub starts_with : List ℕ → List ℕ → Bool
starts_with [] s = true
starts_with (t ∷ ts) [] = false
starts_with (t ∷ ts) (c ∷ cs) = c == t && starts_with ts cs

-- strstr: the index of the first occurrence.
unfoldable pub strstr : List ℕ → List ℕ → Option ℕ
unfolding starts_with
strstr [] target = if starts_with target [] then some 0 else none
strstr (c ∷ cs) target =
    let later = strstr cs target in
    if starts_with target (c ∷ cs)
    then some 0
    else (elim later [ none ↦ none | some i ↦ some (suc i) ])

-- The statements behind a found target at index `p`. `position` points into the block from before
-- `realloc`: if the block moved, both copies go through a dangling pointer; if it stays and gets
-- smaller, the first copy reads the bytes that were given back.
unfoldable pub replace_at : Bool → List ℕ → ℕ → ℕ → List ℕ → Outcome (List ℕ)
replace_at moved this p target_len substitution =
    if moved || ltb (length substitution) target_len
    then fault
    else ok (take p this ++ (substitution ++ drop (p + target_len) this))

-- `none` is the return value -1. An offset past the text reads outside the block.
unfoldable pub sstring_substitute : Bool → List ℕ → ℕ → List ℕ → List ℕ → Outcome (Option (List ℕ))
unfolding strstr replace_at
sstring_substitute moved this offset target substitution =
    if ltb (length this) offset then fault else (elim (strstr (drop offset this) target) [
      | none ↦ ok none
      | some i ↦
          replace_at moved this (offset + i) (length target) substitution >>= λ s. ok (some s)
    ])

-- For `start` and `end` not negative. A negative length is taken by `strncpy` for a huge one.
unfoldable pub sstring_slice : List ℕ → ℕ → ℕ → Outcome (List ℕ)
sstring_slice this start end =
    if ltb end start || ltb (length this) start
    then fault
    else ok (take (end - start) (drop start this))
