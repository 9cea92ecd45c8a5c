-- ===== src/Sstring/Examples.antt =====
-- Runs of sstring.c; texts are short lists of codes.
use machine_project.Prelude.{
  ℕ, ◌<◌, ◌≡◌, refl, List, [], ◌∷◌, ◌++◌, take, drop, some, false, zero, suc, ok, arith,
}
use machine_project.Sstring.{starts_with, sstring_split, sstring_substitute}
use machine_project.Sstring.Split.{join, AllFree, join-sstring_split}
use machine_project.Sstring.Substitute.{IsFirst, sstring_substitute_first}

-- "a,bc,,d"
abbrev fields : List ℕ
fields = b'a' ∷ b',' ∷ b'b' ∷ b'c' ∷ b',' ∷ b',' ∷ b'd' ∷ []

split_runs :
    sstring_split fields b',' ≡ ok ((b'a' ∷ []) ∷ (b'b' ∷ b'c' ∷ []) ∷ [] ∷ (b'd' ∷ []) ∷ [])
unfolding sstring_split
split_runs = refl

join-sstring_split_example :
    (pieces : List (List ℕ)) × (sstring_split fields b',' ≡ ok pieces)
    × (join b',' pieces ≡ fields)
    × AllFree b',' pieces
join-sstring_split_example = join-sstring_split fields b',' (omega arith)

-- "," from offset 2 on is first met at 4, two places on.
comma-IsFirst : IsFirst (drop 2 fields) (b',' ∷ []) 2
unfolding starts_with
comma-IsFirst = record { found = refl; earliest = early }
  where
    early : (j : ℕ) → j < 2 → starts_with (b',' ∷ []) (drop j (drop 2 fields)) ≡ false
    early zero h = refl
    early (suc zero) h = refl
    early (suc (suc j)) h = absurd (omega arith)

sstring_substitute_first_example :
    (fields ≡ take 4 fields ++ ((b',' ∷ []) ++ drop 5 fields))
    × (sstring_substitute false fields 2 (b',' ∷ []) (b'-' ∷ b'>' ∷ [])
        ≡ ok (some (take 4 fields ++ ((b'-' ∷ b'>' ∷ []) ++ drop 5 fields))))
sstring_substitute_first_example =
    sstring_substitute_first fields 2 (b',' ∷ []) (b'-' ∷ b'>' ∷ []) 2 (omega arith) comma-IsFirst
      (omega arith)
