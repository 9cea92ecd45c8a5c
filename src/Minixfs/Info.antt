-- ===== src/Minixfs/Info.antt =====
-- minixfs.c: the virtual file "info". Numbers are printed by asprintf with %zd.
use machine_project.Prelude.{
  ℕ, zero, suc, ◌+◌, ◌-◌, ◌/◌, ◌%◌, ltb, leb, ◌==◌, ◌&&◌, if◌then◌else◌, Bool, true, false, List,
  [], ◌∷◌, ◌++◌,
}

-- The decimal digits of a number, with as many rounds as the number is large.
unfoldable pub digits : ℕ → ℕ → List ℕ
digits zero n = (48 + n) ∷ []
digits (suc fuel) n =
    let rest = digits fuel (n / 10) in
    if ltb n 10 then (48 + n) ∷ [] else rest ++ (48 + n % 10) ∷ []

-- a - b as a `ssize_t`, printed
unfoldable pub print_difference : ℕ → ℕ → List ℕ
unfolding digits
print_difference a b = if leb b a then digits (a - b) (a - b) else 45 ∷ digits (b - a) (b - a)

-- "Free blocks: "
abbrev free_blocks : List ℕ
free_blocks = 70 ∷ 114 ∷ 101 ∷ 101 ∷ 32 ∷ 98 ∷ 108 ∷ 111 ∷ 99 ∷ 107 ∷ 115 ∷ 58 ∷ 32 ∷ []

-- "Used blocks: "
abbrev used_blocks : List ℕ
used_blocks = 85 ∷ 115 ∷ 101 ∷ 100 ∷ 32 ∷ 98 ∷ 108 ∷ 111 ∷ 99 ∷ 107 ∷ 115 ∷ 58 ∷ 32 ∷ []

-- `data_number` is DATA_NUMBER.
unfoldable pub block_info_string : ℕ → ℕ → List ℕ
unfolding digits print_difference
block_info_string data_number num_used_blocks =
    (free_blocks ++ (print_difference data_number num_used_blocks ++ 10 ∷ []))
    ++ (used_blocks ++ (digits num_used_blocks num_used_blocks ++ 10 ∷ []))

-- strcmp(s, t) == 0
unfoldable pub same_text : List ℕ → List ℕ → Bool
same_text [] [] = true
same_text [] (d ∷ t) = false
same_text (c ∷ s) [] = false
same_text (c ∷ s) (d ∷ t) = c == d && same_text s t

-- "info"
abbrev pub info : List ℕ
info = 105 ∷ 110 ∷ 102 ∷ 111 ∷ []
